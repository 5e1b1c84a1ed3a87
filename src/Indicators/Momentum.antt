-- ===== src/Indicators/Momentum.antt =====
-- `rsi` of app/indicators/momentum.py.
use live_auto_trading.Prelude.{
  ℕ, ◌+◌, ◌-◌, Option, none, some, List, [], ◌∷◌, map, nat_beq, ltb, length, replicate,
  if◌then◌else◌,
}
use live_auto_trading.Prelude.Options.{◌>>=◌, ◌>>◌, fail_if}
use live_auto_trading.Decimal.{Decimal, zero, one, add, sub, mul, div, neg, lt, eq}
use live_auto_trading.Indicators.Series.{of_ℕ, average, seeded}

-- the gain and the loss of each item over the one before it
unfoldable pub gain_loss : Decimal → Decimal × Decimal
gain_loss change =
    (if lt zero change then change else zero, if lt change zero then neg change else zero)

unfoldable pub changes : Decimal → List Decimal → List (Decimal × Decimal)
changes prev [] = []
changes prev (x ∷ xs) = gain_loss (sub x prev) ∷ changes x xs

-- `_rsi`
unfoldable pub rsi_value : Decimal → Decimal → Option Decimal
rsi_value gain loss =
    if eq loss zero
    then some (of_ℕ 100)
    else do rs ← div gain loss; share ← div (of_ℕ 100) (add one rs); some (sub (of_ℕ 100) share)

unfoldable pub rsi_start : ℕ → List (Decimal × Decimal) → Option ((Decimal × Decimal) × Decimal)
rsi_start period first = do
  gain ← average period (map (λ c. c.0) first)
  loss ← average period (map (λ c. c.1) first)
  value ← rsi_value gain loss
  some ((gain, loss), value)

-- `(avg * (period - 1) + item) / Decimal(period)`
unfoldable pub wilder : ℕ → Decimal → Decimal → Option Decimal
wilder period prev x = div (add (mul prev (of_ℕ (period - 1))) x) (of_ℕ period)

unfoldable pub rsi_step :
    ℕ → Decimal × Decimal → Decimal × Decimal → Option ((Decimal × Decimal) × Decimal)
rsi_step period (gain, loss) (g, l) = do
  gain' ← wilder period gain g
  loss' ← wilder period loss l
  value ← rsi_value gain' loss'
  some ((gain', loss'), value)

unfoldable pub rsi : List Decimal → ℕ → Option (List (Option Decimal))
rsi [] period = none
rsi (first ∷ values) period = do
  fail_if (nat_beq period 0)
  if ltb (length (first ∷ values)) (period + 1)
      then some (replicate (length (first ∷ values)) none)
      else seeded period period (rsi_start period) (rsi_step period) (changes first values)
