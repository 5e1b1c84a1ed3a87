-- ===== src/Indicators/Causal.antt =====
-- The indicators on data and on later data.
use live_auto_trading.Prelude.{
  ℕ, ◌+◌, ◌-◌, ◌≤◌, ◌<◌, ◌≡◌, refl, sym, ap, ◌∙◌, inl, inr, Bool, false, ◌||◌, Option, none, some,
  List, [], ◌∷◌, ◌++◌, arith, nat_beq, ltb, leb, Bool-cases, length, is_empty, take, drop,
  length-append, IsPrefix, IsPrefix-cons, take-append, drop-append, length-drop,
}
use live_auto_trading.Prelude.Options.{fail_if, >>=-eq_some, fail_if-eq_some}
use mathlib.Core.Bool.{false≢true}
use live_auto_trading.Decimal.{Decimal, one, two, add}
use live_auto_trading.Decimal.Sign.{IsPositive, add-IsPositive, div_pos}
use live_auto_trading.Domain.Market.{Candle}
use live_auto_trading.Indicators.Series.{of_ℕ}
use live_auto_trading.Indicators.Averages.{window, sma_at, ema, ema_start, ema_step}
use live_auto_trading.Indicators.Momentum.{changes, rsi, rsi_start, rsi_step}
use live_auto_trading.Indicators.Volatility.{true_ranges, atr, atr_start, atr_step}
use live_auto_trading.Indicators.Agrees.{Agrees, series-Agrees}

second : (a b : Bool) → (a || b) ≡ false → b ≡ false
second a b h = ground arith

window-append :
    (xs ys : List Decimal) (period index : ℕ)
    → period ≤ index + 1
    → index < length xs
    → window (xs ++ ys) period index ≡ window xs period index
window-append xs ys period index h k =
    let start = index + 1 - period in
    ap (take period) (drop-append start xs ys (omega (arith, h, k)))
    ∙ take-append period (drop start xs) ys
        (omega (arith, length-drop start xs (omega (arith, h, k)), h, k))

-- The simple average at an index is that of the data up to the index, whatever comes later.
pub sma_at-causal :
    (xs ys : List Decimal) (period index : ℕ)
    → index < length xs
    → sma_at (xs ++ ys) period index ≡ sma_at xs period index
unfolding sma_at
sma_at-causal xs ys period index k = elim (Bool-cases (ltb (index + 1) period)) [
  | inl early ↦ rw early refl
  | inr late ↦
      let whole : leb (length (xs ++ ys)) index ≡ false = ground (arith, length-append xs ys) in
      let part : leb (length xs) index ≡ false = ground arith in
      rw (late, whole, part, window-append xs ys period index (ground arith) k) refl
]

of_ℕ-IsPositive : (n : ℕ) → 0 < n → IsPositive (of_ℕ n)
of_ℕ-IsPositive n h = ground arith

-- The EMA has one value per datum, and none of them looks ahead: the values for a series are those
-- that the series has after any later data, cut to its length.
pub ema-Agrees :
    (xs ys : List Decimal) (period : ℕ) {bs : List (Option Decimal)}
    → is_empty xs ≡ false
    → ema (xs ++ ys) period ≡ some bs
    → (us : List (Option Decimal)) × (ema xs period ≡ some us) × Agrees (length xs) us bs
unfolding ema
ema-Agrees xs ys period {bs} nonempty h =
    let (_, checked, h1) = >>=-eq_some (fail_if (is_empty (xs ++ ys) || nat_beq period 0)) _ h in
    let nonzero = second _ (nat_beq period 0) (fail_if-eq_some _ checked) in
    let (m, found) =
      div_pos two (add (of_ℕ period) one)
        (add-IsPositive (of_ℕ period) one (of_ℕ-IsPositive period (ground arith)) (omega arith)) in
    let (us, s, agrees) =
      series-Agrees (period - 1) period (ema_start period) (ema_step m) period (length xs)
        (length (xs ++ ys)) xs ys (ground arith) refl refl (rw found at h1) in
    (us, rw (nonempty, nonzero, found) s, agrees)

length-changes : (prev : Decimal) (xs : List Decimal) → length (changes prev xs) ≡ length xs
unfolding changes
length-changes prev [] = refl
length-changes prev (x ∷ xs) = omega (arith, length-changes x xs)

changes-IsPrefix :
    (prev : Decimal) (xs ys : List Decimal) → IsPrefix (changes prev xs) (changes prev (xs ++ ys))
unfolding changes
changes-IsPrefix prev [] ys = record { rest = changes prev ys; split = refl }
changes-IsPrefix prev (x ∷ xs) ys = IsPrefix-cons _ (changes-IsPrefix x xs ys)

-- The RSI has one value per datum, and none of them looks ahead.
pub rsi-Agrees :
    (xs ys : List Decimal) (period : ℕ) {bs : List (Option Decimal)}
    → is_empty xs ≡ false
    → rsi (xs ++ ys) period ≡ some bs
    → (us : List (Option Decimal)) × (rsi xs period ≡ some us) × Agrees (length xs) us bs
unfolding rsi
rsi-Agrees [] ys period nonempty h = absurd (false≢true (sym nonempty))
rsi-Agrees (x ∷ xs) ys period {bs} nonempty h =
    let (_, checked, h1) = >>=-eq_some (fail_if (nat_beq period 0)) _ h in
    let p = changes-IsPrefix x xs ys in
    let (us, s, agrees) =
      series-Agrees period period (rsi_start period) (rsi_step period) (period + 1) (length xs + 1)
        (length (xs ++ ys) + 1) (changes x xs) p.rest refl (omega (arith, length-changes x xs))
        (omega (arith, ap length p.split, length-changes x (xs ++ ys))) (rw p.split at h1) in
    (us, rw (fail_if-eq_some (nat_beq period 0) checked) s, agrees)

length-true_ranges :
    (prev : Option Candle) (cs : List Candle) → length (true_ranges prev cs) ≡ length cs
unfolding true_ranges
length-true_ranges prev [] = refl
length-true_ranges prev (c ∷ cs) = omega (arith, length-true_ranges (some c) cs)

true_ranges-IsPrefix :
    (prev : Option Candle) (xs ys : List Candle)
    → IsPrefix (true_ranges prev xs) (true_ranges prev (xs ++ ys))
unfolding true_ranges
true_ranges-IsPrefix prev [] ys = record { rest = true_ranges prev ys; split = refl }
true_ranges-IsPrefix prev (x ∷ xs) ys = IsPrefix-cons _ (true_ranges-IsPrefix (some x) xs ys)

-- The ATR has one value per candle, and none of them looks ahead.
pub atr-Agrees :
    (xs ys : List Candle) (period : ℕ) {bs : List (Option Decimal)}
    → is_empty xs ≡ false
    → atr (xs ++ ys) period ≡ some bs
    → (us : List (Option Decimal)) × (atr xs period ≡ some us) × Agrees (length xs) us bs
unfolding atr
atr-Agrees xs ys period {bs} nonempty h =
    let (_, checked, h1) = >>=-eq_some (fail_if (is_empty (xs ++ ys) || nat_beq period 0)) _ h in
    let nonzero = second _ (nat_beq period 0) (fail_if-eq_some _ checked) in
    let p = true_ranges-IsPrefix none xs ys in
    let (us, s, agrees) =
      series-Agrees (period - 1) period (atr_start period) (atr_step period) period (length xs)
        (length (xs ++ ys)) (true_ranges none xs) p.rest (ground arith)
        (omega (arith, length-true_ranges none xs))
        (omega (arith, ap length p.split, length-true_ranges none (xs ++ ys))) (rw p.split at h1) in
    (us, rw (nonempty, nonzero) s, agrees)
