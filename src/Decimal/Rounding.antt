-- ===== src/Decimal/Rounding.antt =====
-- Rounding of magnitudes, as `decimal` does it.
use live_auto_trading.Prelude.{
  ℕ, zero, suc, ◌+◌, ◌*◌, ◌/◌, ◌%◌, ◌^◌, ◌≤◌, ◌<◌, ◌≡◌, inl, inr, Bool, false, not, ◌&&◌, ◌||◌,
  arith, ltb, nat_beq, if◌then◌else◌, Bool-cases,
}

-- the rounding modes that the program names
pub data RoundingMode : Type 0 where
  half_even down : RoundingMode

-- `n / d` to an integer
unfoldable pub round_ratio : RoundingMode → ℕ → ℕ → ℕ
round_ratio down n d = n / d
round_ratio half_even n d =
    if ltb d (2 * (n % d)) || (nat_beq (2 * (n % d)) d && nat_beq ((n / d) % 2) 1)
    then n / d + 1
    else n / d

-- Round up or not, by the last digit dropped and whether a digit before it was not zero.
unfoldable pub round_last : ℕ → ℕ → Bool → ℕ
round_last m last sticky =
    if ltb 5 last || (nat_beq last 5 && (sticky || nat_beq (m % 2) 1)) then m + 1 else m

-- Drop digits off the right end until 28 are left: the rounded magnitude, and how many went.
unfoldable pub round_from : ℕ → ℕ → ℕ → Bool → ℕ → ℕ × ℕ
unfolding round_last
round_from zero m last sticky k = (m, k)
round_from (suc fuel) m last sticky k =
    let more = round_from fuel (m / 10) (m % 10) (sticky || not (nat_beq last 0)) (suc k) in
    if ltb m (10 ^ 28) then (round_last m last sticky, k) else more

digits_from : ℕ → ℕ → ℕ
digits_from zero m = 1
digits_from (suc fuel) m = let more = digits_from fuel (m / 10) in if ltb m 10 then 1 else more + 1

-- `len(str(m))`
unfoldable pub digit_count : ℕ → ℕ
unfolding digits_from
digit_count m = digits_from m m

round_last-le : (m last : ℕ) (sticky : Bool) → round_last m last sticky ≤ m + 1
unfolding round_last
round_last-le m last sticky = ground arith

le-round_last : (m last : ℕ) (sticky : Bool) → m ≤ round_last m last sticky
unfolding round_last
le-round_last m last sticky = ground arith

-- The fuel is enough: what comes out has 28 digits, or is 10 ^ 28.
pub round_from_bound :
    (fuel m last : ℕ) (sticky : Bool) (k : ℕ)
    → m < fuel
    → (round_from fuel m last sticky k).0 ≤ 10 ^ 28
unfolding round_from
round_from_bound zero m last sticky k h = absurd (omega arith)
round_from_bound (suc fuel) m last sticky k h = elim (Bool-cases (ltb m (10 ^ 28))) [
  | inl small ↦ rw small (ground (arith, round_last-le m last sticky))
  | inr big ↦ rw big (
      round_from_bound fuel (m / 10) (m % 10) (sticky || not (nat_beq last 0)) (suc k)
        (ground arith))
]

-- Rounding to 28 digits makes no zero of what is not zero.
pub round_from_pos :
    (fuel m last : ℕ) (sticky : Bool) (k : ℕ) → 0 < m → 0 < (round_from fuel m last sticky k).0
unfolding round_from
round_from_pos zero m last sticky k h = h
round_from_pos (suc fuel) m last sticky k h = elim (Bool-cases (ltb m (10 ^ 28))) [
  | inl small ↦ rw small (omega (arith, le-round_last m last sticky))
  | inr big ↦ rw big (
      round_from_pos fuel (m / 10) (m % 10) (sticky || not (nat_beq last 0)) (suc k) (ground arith))
]

-- A magnitude of up to 28 digits is kept.
pub round_from_small : (fuel m k : ℕ) → m < 10 ^ 28 → round_from (suc fuel) m 0 false k ≡ (m, k)
unfolding round_from round_last
round_from_small fuel m k h = ground arith
