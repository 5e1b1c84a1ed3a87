-- ===== src/Risk/Fitting.antt =====
-- The prices and the sizes of an order, as the gates of the risk engine take them.
use live_auto_trading.Prelude.{
  ◌≡◌, ◌⊎◌, refl, sym, Bool, true, false, Option, none, some, inl, inr, not, Bool-cases, ◌&&◌,
}
use mathlib.Core.Bool.{false≢true}
use live_auto_trading.Decimal.{
  Decimal, zero, mul, div, lt, le, eq, max, to_integral_value, half_even, down,
}
use live_auto_trading.Domain.Enums.{RiskReasonCode}
use live_auto_trading.Decimal.Sign.{IsPositive, IsPositive-of_le-zero}
use live_auto_trading.Domain.Trading.{OrderRequest}
use live_auto_trading.Risk.Check.{
  or_fault-eq_go, go, reject_if, or_fault, >>=-eq_go, reject_if-eq_go,
}
use live_auto_trading.Risk.State.{Settings, SymbolInfo}
use live_auto_trading.Risk.Gates.{check_size, not_positive, bad_mark, check_step, check_tick}

-- There is a price, and it is positive.
abbrev pub IsKnownPositive : Option Decimal → Type 0
IsKnownPositive o = (d : Decimal) × (o ≡ some d) × IsPositive d

-- The quantity is a multiple of a positive step, the price of a positive tick, and neither the quantity nor
-- the notional is below its minimum.
pub record IsFitted (settings : Settings) (r : OrderRequest) (price : Decimal) (i : SymbolInfo)
    : Type 0 where
  pub step :
      (le i.step_size zero ≡ true)
      ⊎ ((steps : Decimal) × (div r.quantity i.step_size ≡ some steps)
          × (eq (mul (to_integral_value down steps) i.step_size) r.quantity ≡ true))
  pub quantity : lt r.quantity i.min_quantity ≡ false
  pub notional : lt (mul r.quantity price) (max i.min_notional settings.min_order_notional) ≡ false
  pub tick :
      (r.price ≡ none)
      ⊎ (le i.tick_size zero ≡ true)
      ⊎ ((limit : Decimal) × (ticks : Decimal) × (r.price ≡ some limit)
          × (div limit i.tick_size ≡ some ticks)
          × (eq ticks (to_integral_value half_even ticks) ≡ true))

abbrev pub IsFitting : Settings → OrderRequest → Decimal → Option SymbolInfo → Type 0
IsFitting settings r price none = lt (mul r.quantity price) settings.min_order_notional ≡ false
IsFitting settings r price (some i) = IsFitted settings r price i

holds_of :
    (c : Bool) (code : RiskReasonCode) {u : Unit {0}} → reject_if (not c) code ≡ go u → c ≡ true
holds_of true code h = refl
holds_of false code h = cc

step-fits :
    (qty step : Decimal) {u : Unit {0}}
    → check_step qty step ≡ go u
    → (le step zero ≡ true)
      ⊎ ((steps : Decimal) × (div qty step ≡ some steps)
          × (eq (mul (to_integral_value down steps) step) qty ≡ true))
unfolding check_step
step-fits qty step h = elim (Bool-cases (le step zero)) [
  | inl e ↦ inl e
  | inr e ↦
      let (steps, found, h1) = >>=-eq_go (or_fault (div qty step)) _ (rw e at h) in
      inr (steps, or_fault-eq_go (div qty step) found, holds_of _ _ h1)
]

tick-fits :
    (o : Option Decimal) (tick : Decimal) {u : Unit {0}}
    → check_tick o tick ≡ go u
    → (o ≡ none)
      ⊎ (le tick zero ≡ true)
      ⊎ ((limit : Decimal) × (ticks : Decimal) × (o ≡ some limit)
          × (div limit tick ≡ some ticks)
          × (eq ticks (to_integral_value half_even ticks) ≡ true))
unfolding check_tick
tick-fits none tick h = inl refl
tick-fits (some p) tick h = elim (Bool-cases (le tick zero)) [
  | inl e ↦ inr (inl e)
  | inr e ↦
      let (ticks, found, h1) = >>=-eq_go (or_fault (div p tick)) _ (rw e at h) in
      inr (inr (p, ticks, refl, or_fault-eq_go (div p tick) found, holds_of _ _ h1))
]

pub size-IsFitting :
    (settings : Settings) (r : OrderRequest) (price : Decimal) (info : Option SymbolInfo)
    {u : Unit {0}}
    → check_size settings r price info ≡ go u
    → IsFitting settings r price info
unfolding check_size
size-IsFitting settings r price none h = reject_if-eq_go _ _ h
size-IsFitting settings r price (some i) h =
    let (_, step, h1) = >>=-eq_go (check_step r.quantity i.step_size) _ h in
    let (_, quantity, h2) =
      >>=-eq_go (reject_if (lt r.quantity i.min_quantity) RiskReasonCode.min_order_size) _ h1 in
    let (_, notional, h3) =
      >>=-eq_go
        (reject_if (lt (mul r.quantity price) (max i.min_notional settings.min_order_notional))
          RiskReasonCode.min_order_size)
        _ h2 in
    record {
      step = step-fits r.quantity i.step_size step;
      quantity = reject_if-eq_go _ _ quantity;
      notional = reject_if-eq_go _ _ notional;
      tick = tick-fits r.price i.tick_size h3;
    }

known_positive : (o : Option Decimal) → not_positive o ≡ false → IsKnownPositive o
known_positive none h = absurd (false≢true (sym h))
known_positive (some d) h = (d, refl, IsPositive-of_le-zero d h)

pub needed_positive :
    (c : Bool) (o : Option Decimal)
    → (c && not_positive o) ≡ false
    → (c ≡ false) ⊎ IsKnownPositive o
needed_positive true o h = inr (known_positive o h)
needed_positive false o h = inl refl

pub mark_positive : (o : Option Decimal) → bad_mark o ≡ false → (o ≡ none) ⊎ IsKnownPositive o
mark_positive none h = inl refl
mark_positive (some d) h = inr (d, refl, IsPositive-of_le-zero d h)
