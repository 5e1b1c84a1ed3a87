-- ===== src/Indicators/Series.antt =====
-- The shape that the smoothed indicators share: no value until there is enough history, a first value
-- from the first `period` items, and then one value per item, each from the state before it.
use live_auto_trading.Prelude.{
  ℕ, Option, none, some, List, [], ◌∷◌, ◌++◌, map, take, drop, replicate,
}
use live_auto_trading.Prelude.Options.{◌>>=◌}
use live_auto_trading.Integer.{pos}
use live_auto_trading.Decimal.{Decimal, zero, sum_from, div}

-- `Decimal(n)`
abbrev pub of_ℕ : ℕ → Decimal
of_ℕ n = record { coeff = pos n; places = 0 }

-- `sum(window, Decimal("0")) / Decimal(period)`
unfoldable pub average : ℕ → List Decimal → Option Decimal
average period window = div (sum_from zero window) (of_ℕ period)

-- a loop that appends one value per item; `none` is an exception
unfoldable pub scan : {A B S : Type 0} → (S → A → Option (S × B)) → S → List A → Option (List B)
scan next s [] = some []
scan next s (x ∷ xs) = do step ← next s x; later ← scan next step.0 xs; some (step.1 ∷ later)

unfoldable pub seeded :
    {A B S : Type 0}
    → ℕ
    → ℕ
    → (List A → Option (S × B))
    → (S → A → Option (S × B))
    → List A
    → Option (List (Option B))
seeded blanks period start next xs = do
  first ← start (take period xs)
  later ← scan next first.0 (drop period xs)
  some (replicate blanks none ++ some first.1 ∷ map some later)
