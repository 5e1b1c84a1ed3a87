-- ===== src/Risk/Sizing.antt =====
-- The size that the risk engine approves.
use live_auto_trading.Prelude.{
  ◌≡◌, ◌⊎◌, refl, sym, inl, inr, Bool, true, false, Option, none, some, if◌then◌else◌, Bool-cases,
}
use live_auto_trading.Decimal.{Decimal, zero, add, sub, mul, div, abs, lt, le, quantize, down}
use live_auto_trading.Domain.Enums.{RiskReasonCode}
use live_auto_trading.Domain.Trading.{OrderRequest}
use live_auto_trading.Risk.Check.{
  go_eq, or_fault-eq_go, go, reject_if, or_fault, >>=-eq_go, reject_if-eq_go,
}
use live_auto_trading.Risk.State.{RiskContext, Settings}
use live_auto_trading.Risk.Facts.{IsEquity, exposure}
use live_auto_trading.Risk.Limits.{
  Sized, reduced, as_requested, open_notional, units_in, positive_stop, size_by_stop,
  size_by_fraction, size_by_risk, cap_position, cap_portfolio,
}

-- `most` is the budget over the price of a unit, rounded down to 8 places.
pub record IsMost (budget unit most : Decimal) : Type 0 where
  pub ratio : Decimal
  pub quotient : div budget unit ≡ some ratio
  pub rounded : quantize 8 down ratio ≡ some most

-- the smaller of the requested size and `most`
abbrev pub IsCut : Decimal → Decimal → Sized → Type 0
IsCut qty most a =
    ((lt most qty ≡ true) × (a ≡ reduced most)) ⊎ ((lt most qty ≡ false) × (a ≡ as_requested qty))

-- By the risk per trade: without a distance to the stop the request stays as it is.
abbrev pub IsStopSized : Decimal → Decimal → Decimal → Sized → Type 0
IsStopSized qty budget distance a =
    ((le distance zero ≡ true) × (a ≡ as_requested qty))
    ⊎ ((most : Decimal) × IsMost budget distance most × (le most zero ≡ false) × IsCut qty most a)

abbrev pub IsFractionSized : Decimal → Decimal → Decimal → Sized → Type 0
IsFractionSized qty budget price a = (most : Decimal) × IsMost budget price most × IsCut qty most a

-- A stop that is positive sets the distance; otherwise the whole price is at risk.
abbrev pub IsRiskSized : Decimal → Decimal → Decimal → Option Decimal → Sized → Type 0
IsRiskSized qty budget price none a = IsFractionSized qty budget price a
IsRiskSized qty budget price (some stop_price) a =
    ((le stop_price zero ≡ true) × IsFractionSized qty budget price a)
    ⊎ ((le stop_price zero ≡ false) × IsStopSized qty budget (abs (sub price stop_price)) a)

-- Either the exposure is within the cap, or the order is cut to what there is room for.
abbrev pub IsCapped : Decimal → Decimal → Decimal → Decimal → Sized → Sized → Type 0
IsCapped cap exposure room price before after =
    ((lt cap exposure ≡ false) × (after ≡ before))
    ⊎ ((lt cap exposure ≡ true)
        × (most : Decimal) × IsMost room price most
        × (le most zero ≡ false)
        × (after ≡ reduced most))

-- How the approved size comes about: by the risk per trade, by the cap on a position, and by the cap on the
-- portfolio, in this order.
pub record IsSized (settings : Settings) (context : RiskContext) (r : OrderRequest)
    (price : Decimal) (sized : Sized) : Type 0 where
  pub equity : Decimal
  pub owned : IsEquity context.portfolio equity
  pub by_risk : Sized
  pub by_position : Sized
  pub risk :
      IsRiskSized r.quantity (mul equity settings.max_risk_per_trade) price r.stop_loss by_risk
  pub position :
      IsCapped
        (mul equity settings.max_position_exposure)
        (mul by_risk.approved_qty price)
        (mul equity settings.max_position_exposure)
        price
        by_risk
        by_position
  pub portfolio :
      IsCapped
        (mul equity settings.max_portfolio_exposure)
        (add
          (exposure context.mark_price zero context.portfolio.open_positions)
          (mul by_position.approved_qty price))
        (sub
          (mul equity settings.max_portfolio_exposure)
          (exposure context.mark_price zero context.portfolio.open_positions))
        price
        by_position
        sized

units_in-IsMost :
    (budget unit : Decimal) {most : Decimal}
    → units_in budget unit ≡ go most
    → IsMost budget unit most
unfolding units_in
units_in-IsMost budget unit h =
    let (ratio, found, h1) = >>=-eq_go (or_fault (div budget unit)) _ h in
    record {
      ratio = ratio;
      quotient = or_fault-eq_go (div budget unit) found;
      rounded = or_fault-eq_go (quantize 8 down ratio) h1;
    }

cut-IsCut :
    (qty most : Decimal) (c : Bool) {a : Sized}
    → go (if c then reduced most else as_requested qty) ≡ go a
    → ((c ≡ true) × (a ≡ reduced most)) ⊎ ((c ≡ false) × (a ≡ as_requested qty))
cut-IsCut qty most true h = inl (refl, sym (go_eq h))
cut-IsCut qty most false h = inr (refl, sym (go_eq h))

stop-IsStopSized :
    (qty budget price stop_price : Decimal) {a : Sized}
    → size_by_stop qty budget price stop_price ≡ go a
    → IsStopSized qty budget (abs (sub price stop_price)) a
unfolding size_by_stop
stop-IsStopSized qty budget price stop_price h =
    elim (Bool-cases (le (abs (sub price stop_price)) zero)) [
      | inl e ↦ inl (e, sym (go_eq (rw e at h)))
      | inr e ↦
          let (most, units, h1) =
            >>=-eq_go (units_in budget (abs (sub price stop_price))) _ (rw e at h) in
          let (_, positive, h2) = >>=-eq_go (reject_if (le most zero) _) _ h1 in
          inr (
            most,
            units_in-IsMost budget _ units,
            reject_if-eq_go (le most zero) _ positive,
            cut-IsCut qty most (lt most qty) h2,
          )
    ]

fraction-IsFractionSized :
    (qty budget price : Decimal) {a : Sized}
    → size_by_fraction qty budget price ≡ go a
    → IsFractionSized qty budget price a
unfolding size_by_fraction
fraction-IsFractionSized qty budget price h =
    let (most, units, h1) = >>=-eq_go (units_in budget price) _ h in
    (most, units_in-IsMost budget price units, cut-IsCut qty most (lt most qty) h1)

pub risk-IsRiskSized :
    (settings : Settings) (r : OrderRequest) (price equity : Decimal) {a : Sized}
    → size_by_risk settings r price equity ≡ go a
    → IsRiskSized r.quantity (mul equity settings.max_risk_per_trade) price r.stop_loss a
unfolding size_by_risk
risk-IsRiskSized settings r price equity {a} h = by_stop r.stop_loss h
  where
    by_stop :
        (o : Option Decimal)
        → (elim (positive_stop o) [
          | some stop_price ↦
              size_by_stop r.quantity (mul equity settings.max_risk_per_trade) price stop_price
          | none ↦ size_by_fraction r.quantity (mul equity settings.max_risk_per_trade) price
        ])
          ≡ go a
        → IsRiskSized r.quantity (mul equity settings.max_risk_per_trade) price o a
    by_stop none k = fraction-IsFractionSized _ _ _ k
    by_stop (some d) k = elim (Bool-cases (le d zero)) [
      | inl e ↦ inl (e, fraction-IsFractionSized _ _ _ (rw e at k))
      | inr e ↦ inr (e, stop-IsStopSized _ _ _ d (rw e at k))
    ]

pub position-IsCapped :
    (settings : Settings) (price equity : Decimal) (before : Sized) {a : Sized}
    → cap_position settings price equity before ≡ go a
    → IsCapped
        (mul equity settings.max_position_exposure)
        (mul before.approved_qty price)
        (mul equity settings.max_position_exposure)
        price
        before
        a
unfolding cap_position
position-IsCapped settings price equity before h =
    elim (Bool-cases
      (lt (mul equity settings.max_position_exposure) (mul before.approved_qty price))) [
        | inr e ↦ inl (e, sym (go_eq (rw e at h)))
        | inl e ↦
            let (most, units, h1) = >>=-eq_go (units_in _ price) _ (rw e at h) in
            let (_, positive, h2) = >>=-eq_go (reject_if (le most zero) _) _ h1 in
            inr (
              e,
              most,
              units_in-IsMost _ price units,
              reject_if-eq_go (le most zero) _ positive,
              sym (go_eq h2),
            )
      ]

pub portfolio-IsCapped :
    (settings : Settings) (context : RiskContext) (price equity : Decimal) (before : Sized)
    {a : Sized}
    → cap_portfolio settings context price equity before ≡ go a
    → IsCapped
        (mul equity settings.max_portfolio_exposure)
        (add (open_notional context) (mul before.approved_qty price))
        (sub (mul equity settings.max_portfolio_exposure) (open_notional context))
        price
        before
        a
unfolding cap_portfolio
portfolio-IsCapped settings context price equity before h =
    elim (Bool-cases (
      lt (mul equity settings.max_portfolio_exposure)
        (add (open_notional context) (mul before.approved_qty price)))) [
          | inr e ↦ inl (e, sym (go_eq (rw e at h)))
          | inl e ↦
              let (_, room, h1) =
                >>=-eq_go
                  (reject_if
                    (le (sub (mul equity settings.max_portfolio_exposure) (open_notional context))
                      zero)
                    RiskReasonCode.max_portfolio_exposure)
                  _ (rw e at h) in
              let (most, units, h2) =
                >>=-eq_go
                  (units_in
                    (sub (mul equity settings.max_portfolio_exposure) (open_notional context))
                    price)
                  _ h1 in
              let (_, positive, h3) = >>=-eq_go (reject_if (le most zero) _) _ h2 in
              inr (
                e,
                most,
                units_in-IsMost _ price units,
                reject_if-eq_go (le most zero) _ positive,
                sym (go_eq h3),
              )
        ]
