-- ===== src/Backtest/Metrics.antt =====
-- The figures of app/backtesting/metrics.py that are computed from the trades and the curve by division
-- alone. `compute_metrics` as a whole, which adds figures that take a square root or floats, is left out.
use live_auto_trading.Prelude.{
  ℕ, ◌+◌, Bool, true, false, Option, some, List, [], ◌∷◌, ltb, length, if◌then◌else◌,
}
use live_auto_trading.Prelude.Options.{◌>>=◌}
use live_auto_trading.Integer.{pos}
use live_auto_trading.Decimal as D
use live_auto_trading.Decimal.{Decimal, zero, one, sub, div, lt, abs, truthy, sum_from}
use live_auto_trading.Indicators.Series.{of_ℕ}

abbrev pub is_win : Decimal → Bool
is_win p = lt zero p

abbrev pub is_loss : Decimal → Bool
is_loss p = lt p zero

abbrev pub keep : (Decimal → Bool) → List Decimal → List Decimal
keep test [] = []
keep test (p ∷ ps) = if test p then p ∷ keep test ps else keep test ps

-- the sum over the count, or zero of none
abbrev pub mean : List Decimal → Option Decimal
mean [] = some zero
mean (p ∷ ps) = div (sum_from zero (p ∷ ps)) (of_ℕ (length (p ∷ ps)))

abbrev pub share : ℕ → ℕ → Option Decimal
share part whole = if ltb 0 whole then div (of_ℕ part) (of_ℕ whole) else some zero

-- what stands for an infinite profit factor
abbrev pub capped : Decimal
capped = record { coeff = pos 999999; places = 0 }

unfoldable pub profit_factor_of : Decimal → Decimal → Option Decimal
profit_factor_of gross_profit gross_loss =
    if lt zero gross_loss
    then div gross_profit gross_loss
    else some (if lt zero gross_profit then capped else zero)

-- The largest fall from a peak, so far `deepest`.
unfoldable pub max_drawdown_of : Decimal → Decimal → List (ℕ × Decimal) → Option Decimal
max_drawdown_of peak deepest [] = some deepest
max_drawdown_of peak deepest ((time, equity) ∷ curve) = elim (lt zero (D.max peak equity)) [
  | true ↦ do
    fall ← div (sub (D.max peak equity) equity) (D.max peak equity)
    max_drawdown_of (D.max peak equity) (D.max deepest fall) curve
  | false ↦ max_drawdown_of (D.max peak equity) deepest curve
]

abbrev pub longer : ℕ → ℕ → ℕ
longer m n = if ltb m n then n else m

-- `_max_streak`: the best so far, and the current streak
unfoldable pub streak_from : (Decimal → Bool) → ℕ → ℕ → List Decimal → ℕ
streak_from ok best cur [] = best
streak_from ok best cur (p ∷ ps) = elim (ok p) [
  | true ↦ streak_from ok (longer best (cur + 1)) (cur + 1) ps
  | false ↦ streak_from ok best 0 ps
]

abbrev pub max_streak : (Decimal → Bool) → List Decimal → ℕ
max_streak ok pnls = streak_from ok 0 0 pnls

-- `final_equity / initial_cash - 1`
unfoldable pub total_return_of : Decimal → Decimal → Option Decimal
total_return_of initial_cash final_equity =
    if truthy initial_cash
    then (do ratio ← div final_equity initial_cash; some (sub ratio one))
    else some zero

unfoldable pub reward_ratio : Decimal → Decimal → Option Decimal
reward_ratio avg_win avg_loss = if truthy avg_loss then div avg_win (abs avg_loss) else some zero
