-- ===== src/Indicators/Averages.antt =====
-- app/indicators/base.py and moving_averages.py. Inputs are decimals already, and periods are not
-- negative. `none` around a series is an exception: `InsufficientDataError` or `ValueError`.
use live_auto_trading.Prelude.{
  ℕ, zero, suc, ◌+◌, ◌-◌, ◌||◌, Option, none, some, List, [], ◌∷◌, nat_beq, ltb, leb, length,
  is_empty, take, drop, replicate, if◌then◌else◌,
}
use live_auto_trading.Prelude.Options.{◌>>=◌, ◌>>◌, fail_if}
use live_auto_trading.Decimal as D
use live_auto_trading.Decimal.{Decimal, one, two, add, sub, mul, div}
use live_auto_trading.Indicators.Series.{of_ℕ, average, seeded}

-- `values[index - period + 1 : index + 1]`
abbrev pub window : List Decimal → ℕ → ℕ → List Decimal
window values period index = take period (drop (index + 1 - period) values)

unfoldable pub sma_at : List Decimal → ℕ → ℕ → Option (Option Decimal)
sma_at values period index = do
  fail_if (nat_beq period 0)
  if ltb (index + 1) period || leb (length values) index
      then some none
      else do mean ← average period (window values period index); some (some mean)

-- one value for every index from `index` on, `count` of them
unfoldable pub at_each : {B : Type 0} → (ℕ → Option B) → ℕ → ℕ → Option (List B)
at_each f index zero = some []
at_each f index (suc count) = do
  first ← f index
  later ← at_each f (index + 1) count
  some (first ∷ later)

unfoldable pub sma : List Decimal → ℕ → Option (List (Option Decimal))
sma values period = do
  fail_if (is_empty values || nat_beq period 0)
  at_each (sma_at values period) 0 (length values)

-- volumes go through the same average
abbrev pub volume_ma : List Decimal → ℕ → Option (List (Option Decimal))
volume_ma volumes period = sma volumes period

unfoldable pub ema_start : ℕ → List Decimal → Option (Decimal × Decimal)
ema_start period first = do seed ← average period first; some (seed, seed)

unfoldable pub ema_step : Decimal → Decimal → Decimal → Option (Decimal × Decimal)
ema_step multiplier prev x =
    let value = add (mul (sub x prev) multiplier) prev in some (value, value)

unfoldable pub ema : List Decimal → ℕ → Option (List (Option Decimal))
ema values period = do
  fail_if (is_empty values || nat_beq period 0)
  if ltb (length values) period then some (replicate (length values) none) else do
    multiplier ← div two (add (of_ℕ period) one)
    seeded (period - 1) period (ema_start period) (ema_step multiplier) values

-- `max` and `min` of the items of a window
abbrev pub extreme : (Decimal → Decimal → Decimal) → List Decimal → Option Decimal
extreme choose [] = none
extreme choose (x ∷ xs) = some (fold x xs)
  where
    fold : Decimal → List Decimal → Decimal
    fold best [] = best
    fold best (y ∷ ys) = fold (choose best y) ys

unfoldable pub extreme_at :
    (Decimal → Decimal → Decimal) → List Decimal → ℕ → ℕ → Option (Option Decimal)
extreme_at choose values period index =
    if ltb (index + 1) period
    then some none
    else do best ← extreme choose (window values period index); some (some best)

unfoldable pub extremes :
    (Decimal → Decimal → Decimal) → List Decimal → ℕ → Option (List (Option Decimal))
extremes choose values period = do
  fail_if (is_empty values || nat_beq period 0)
  at_each (extreme_at choose values period) 0 (length values)

unfoldable pub highest_high : List Decimal → ℕ → Option (List (Option Decimal))
highest_high highs period = extremes D.max highs period

unfoldable pub lowest_low : List Decimal → ℕ → Option (List (Option Decimal))
lowest_low lows period = extremes D.min lows period
