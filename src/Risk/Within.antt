-- ===== src/Risk/Within.antt =====
-- The limits of the risk engine, and the orders that keep to them.
use live_auto_trading.Prelude.{
  Bool, ℕ, ◌+◌, ◌*◌, ◌≤◌, ◌<◌, ◌≡◌, ◌⊎◌, sym, ◌∙◌, inl, inr, true, false, not, ◌&&◌, ◌||◌, some,
  List, [], ◌∷◌, length, ltb, leb, if◌then◌else◌, arith, Bool-cases,
}
use live_auto_trading.Decimal.{add, sub, mul, Decimal, zero, div, neg, lt, le}
use live_auto_trading.Dict.{All}
use live_auto_trading.Domain.Enums.{RiskReasonCode}
use live_auto_trading.Domain.Trading.{OrderRequest, PortfolioState}
use live_auto_trading.Risk.Check.{
  or_fault-eq_go, Check, go, reject_if, or_fault, when, ◌>>=◌, >>=-eq_go, reject_if-eq_go,
}
use live_auto_trading.Risk.State.{RiskContext, Settings}
use live_auto_trading.Risk.Gates.{holds_long}
use live_auto_trading.Risk.Limits.{
  Sized, latest, cooling_down, check_rate, daily_loss, check_losses, equity_of, size_by_risk,
  cap_position, cap_portfolio, check_limits, check_final,
}
use mathlib.Core.Path.{subst}
use live_auto_trading.Risk.Facts.{
  Holds, holds_long-Holds, equity_of-IsEquity, open_notional-exposure,
}
use live_auto_trading.Risk.Sizing.{
  IsCapped, IsSized, risk-IsRiskSized, position-IsCapped, portfolio-IsCapped,
}

some_eq : {a b : Decimal} → some a ≡ some b → a ≡ b
some_eq h = cc

-- Fewer orders than allowed in the last minute, and none within the cooldown.
pub record IsPaced (settings : Settings) (now : ℕ) (times : List ℕ) : Type 0 where
  pub below : length times < settings.max_orders_per_minute
  pub cooled :
      (settings.order_cooldown_seconds ≡ 0)
      ⊎ All (λ t. t + settings.order_cooldown_seconds * 1_000_000 ≤ now) times

-- The loss of the day, as a share of the peak, is below its limit, and so is the drawdown.
pub record IsDayBelow (settings : Settings) (p : PortfolioState) : Type 0 where
  pub loss : Decimal
  pub share :
      ((lt p.daily_pnl zero ≡ true) × (div (neg p.daily_pnl) p.peak_equity ≡ some loss))
      ⊎ ((lt p.daily_pnl zero ≡ false) × (loss ≡ zero))
  pub daily : le settings.max_daily_loss loss ≡ false
  pub drawdown : le settings.max_drawdown p.drawdown ≡ false

pub record IsLossBelow (settings : Settings) (r : OrderRequest) (p : PortfolioState) : Type 0 where
  pub day : (le p.peak_equity zero ≡ true) ⊎ IsDayBelow settings p
  pub consecutive : p.consecutive_losses < settings.max_consecutive_losses
  pub positions :
      (r.reduce_only ≡ true)
      ⊎ Holds r.symbol p.open_positions
      ⊎ (length p.open_positions < settings.max_open_positions)

pub record IsWithin (settings : Settings) (context : RiskContext) (now : ℕ) (times : List ℕ)
    (r : OrderRequest) (price : Decimal) (sized : Sized) : Type 0 where
  pub paced : IsPaced settings now times
  pub losses : IsLossBelow settings r context.portfolio
  pub size : IsSized settings context r price sized

latest_above : (t : ℕ) (ts : List ℕ) → (t ≤ latest t ts) × All (λ u. u ≤ latest t ts) ts
latest_above t [] = (omega arith, tt)
latest_above t (u ∷ us) =
    let (above, rest) = latest_above (if ltb t u then u else t) us in
    (later t u _ above, (later_too t u _ above, rest))
  where
    later : (t u l : ℕ) → (if ltb t u then u else t) ≤ l → t ≤ l
    later t u l h = ground arith

    later_too : (t u l : ℕ) → (if ltb t u then u else t) ≤ l → u ≤ l
    later_too t u l h = ground arith

before_all :
    (ts : List ℕ) (most span now : ℕ)
    → most + span ≤ now
    → All (λ u. u ≤ most) ts
    → All (λ u. u + span ≤ now) ts
before_all [] most span now h a = tt
before_all (t ∷ ts) most span now h (first, a) = (omega arith, before_all ts most span now h a)

cooled_lem :
    (now cooldown : ℕ) (ts : List ℕ)
    → cooling_down now cooldown ts ≡ false
    → (cooldown ≡ 0) ⊎ All (λ t. t + cooldown * 1_000_000 ≤ now) ts
unfolding cooling_down
cooled_lem now cooldown [] e = inr tt
cooled_lem now cooldown (t ∷ ts) e = elim (Bool-cases (ltb 0 cooldown)) [
  | inr none_set ↦ inl (ground arith)
  | inl some_set ↦
      let (first, rest) = latest_above t ts in
      inr (
        before_all (t ∷ ts) (latest t ts) (cooldown * 1_000_000) now
          (past (latest t ts + cooldown * 1_000_000) (rw some_set at e)) (first, rest))
]
  where
    past : (n : ℕ) → (true && ltb now n) ≡ false → n ≤ now
    past n h = ground arith

rate-IsPaced :
    (settings : Settings) (now : ℕ) (times : List ℕ) {u : Unit {0}}
    → check_rate settings now times ≡ go u
    → IsPaced settings now times
unfolding check_rate
rate-IsPaced settings now times h = record {
  below = ground arith;
  cooled = cooled_lem now settings.order_cooldown_seconds times (ground arith);
}

daily_cases :
    (p : PortfolioState) {loss : Decimal}
    → daily_loss p ≡ some loss
    → ((lt p.daily_pnl zero ≡ true) × (div (neg p.daily_pnl) p.peak_equity ≡ some loss))
      ⊎ ((lt p.daily_pnl zero ≡ false) × (loss ≡ zero))
unfolding daily_loss
daily_cases p h = elim (Bool-cases (lt p.daily_pnl zero)) [
  | inl e ↦ inl (e, (rw e at h))
  | inr e ↦ inr (e, sym (some_eq (rw e at h)))
]

-- the checks that need a peak
abbrev check_day : Settings → PortfolioState → Check (Unit {0})
check_day settings p = or_fault (daily_loss p) >>= λ loss.
    reject_if (le settings.max_daily_loss loss) RiskReasonCode.daily_loss_limit_reached >>= λ _.
    reject_if (le settings.max_drawdown p.drawdown) RiskReasonCode.max_drawdown_reached

day-IsDayBelow :
    (settings : Settings) (p : PortfolioState) {u : Unit {0}}
    → check_day settings p ≡ go u
    → IsDayBelow settings p
day-IsDayBelow settings p h =
    let (loss, found, h1) = >>=-eq_go (or_fault (daily_loss p)) _ h in
    let (_, daily, h2) =
      >>=-eq_go
        (reject_if (le settings.max_daily_loss loss) RiskReasonCode.daily_loss_limit_reached) _
        h1 in
    record {
      loss = loss;
      share = daily_cases p (or_fault-eq_go (daily_loss p) found);
      daily = reject_if-eq_go (le settings.max_daily_loss loss) _ daily;
      drawdown = reject_if-eq_go (le settings.max_drawdown p.drawdown) _ h2;
    }

losses-IsLossBelow :
    (settings : Settings) (r : OrderRequest) (p : PortfolioState) {u : Unit {0}}
    → check_losses settings r p ≡ go u
    → IsLossBelow settings r p
unfolding check_losses
losses-IsLossBelow settings r p h =
    let (_, day, h1) = >>=-eq_go (when (not (le p.peak_equity zero)) (check_day settings p)) _ h in
    let (_, streak, h2) =
      >>=-eq_go
        (reject_if (leb settings.max_consecutive_losses p.consecutive_losses)
          RiskReasonCode.max_consecutive_losses)
        _ h1 in
    let busy =
      reject_if-eq_go
        (not (r.reduce_only || holds_long r.symbol p.open_positions)
          && leb settings.max_open_positions (length p.open_positions))
        _ h2 in
    record {
      day = elim (Bool-cases (le p.peak_equity zero)) [
        | inl e ↦ inl e
        | inr e ↦ inr (day-IsDayBelow settings p (rw e at day))
      ];
      consecutive = few (reject_if-eq_go _ _ streak);
      positions = elim (Bool-cases r.reduce_only) [
        | inl e ↦ inl e
        | inr e ↦ elim (Bool-cases (holds_long r.symbol p.open_positions)) [
          | inl f ↦ inr (inl (holds_long-Holds r.symbol p.open_positions f))
          | inr f ↦ inr (inr (room _ _ e f busy))
        ]
      ];
    }
  where
    few :
        leb settings.max_consecutive_losses p.consecutive_losses ≡ false
        → p.consecutive_losses < settings.max_consecutive_losses
    few e = ground arith

    room :
        (c d : Bool)
        → c ≡ false
        → d ≡ false
        → (not (c || d) && leb settings.max_open_positions (length p.open_positions)) ≡ false
        → length p.open_positions < settings.max_open_positions
    room c d e f k = ground arith

-- What the limits let through is within them.
pub limits-IsWithin :
    (settings : Settings) (context : RiskContext) (now : ℕ) (times : List ℕ) (r : OrderRequest)
    (price : Decimal) {sized : Sized}
    → check_limits settings context now times r price ≡ go sized
    → IsWithin settings context now times r price sized
unfolding check_limits
limits-IsWithin settings context now times r price {sized} h =
    let equity = equity_of context.portfolio in
    let (_, rate, h1) = >>=-eq_go (check_rate settings now times) _ h in
    let (_, losses, h2) = >>=-eq_go (check_losses settings r context.portfolio) _ h1 in
    let (a, by_risk, h3) = >>=-eq_go (size_by_risk settings r price equity) _ h2 in
    let (b, by_position, h4) = >>=-eq_go (cap_position settings price equity a) _ h3 in
    let (c, by_portfolio, h5) = >>=-eq_go (cap_portfolio settings context price equity b) _ h4 in
    let (_, _, h6) = >>=-eq_go (check_final r context.portfolio price c.approved_qty) _ h5 in
    record {
      paced = rate-IsPaced settings now times rate;
      losses = losses-IsLossBelow settings r context.portfolio losses;
      size = record {
        equity = equity;
        owned = equity_of-IsEquity context.portfolio;
        by_risk = a;
        by_position = b;
        risk = risk-IsRiskSized settings r price equity by_risk;
        position = position-IsCapped settings price equity a by_position;
        portfolio =
            subst
              (λ n.
                IsCapped (mul equity settings.max_portfolio_exposure)
                  (add n (mul b.approved_qty price))
                  (sub (mul equity settings.max_portfolio_exposure) n) price b sized)
              (open_notional-exposure context)
              (portfolio-IsCapped settings context price equity b (by_portfolio ∙ h6));
      };
    }
