-- ===== src/Decimal/Sign.antt =====
-- Signs and exactness of the operations of `decimal`.
use live_auto_trading.Prelude.{
  ℕ, zero, suc, ◌+◌, ◌-◌, ◌*◌, ◌^◌, ◌<◌, ◌≡◌, refl, sym, ap, ◌∙◌, ◌&&◌, if◌then◌else◌, Bool, true,
  false, not, nat_beq, none, some, arith, Bool-cases, inl, inr,
}
use live_auto_trading.Integer
use live_auto_trading.Integer.{
  ℤ, pos, negsuc, ◌+ℤ◌, ◌*ℤ◌, quotient-IsNonneg, pos_part, neg_part, magnitude, minus, on_magnitude,
  leb_ℤ, ltb_ℤ, +ℤ-IsNonneg, +ℤ-IsPositive, -ℤ-IsNonneg, *ℤ-IsNonneg, *ℤ-IsPositive,
  on_magnitude-IsNonneg, on_magnitude-IsPositive,
}
use live_auto_trading.Decimal.{
  Decimal, fix, aligned, add, sub, mul, lt, le, eq, max, min, quantize, div, truthy,
}
use live_auto_trading.Decimal
use mathlib.Core.Bool.{false≢true}
use native.Mathlib.Nat.{pow-suc}
use mathlib.Core.Path.{ap₂, subst}
use live_auto_trading.Decimal.Rounding.{RoundingMode, round_from_pos}

abbrev pub IsNonneg : Decimal → Type 0
IsNonneg d = Integer.IsNonneg d.coeff

abbrev pub IsPositive : Decimal → Type 0
IsPositive d = Integer.IsPositive d.coeff

pub pow_pos : (n : ℕ) → 0 < 10 ^ n
pow_pos zero = omega arith
pow_pos (suc n) = rw (pow-suc 10 n) (omega (arith, pow_pos n))

pub fix-IsNonneg : (d : Decimal) → IsNonneg d → IsNonneg (fix d)
unfolding fix
fix-IsNonneg d h = on_magnitude-IsNonneg _ d.coeff h

mul_pos : (a b : ℕ) → 0 < a → 0 < b → 0 < a * b
mul_pos a b h k = grind arith

magnitude_pos : (a : ℤ) → Integer.IsPositive a → 0 < magnitude a
magnitude_pos (pos n) h = h
magnitude_pos (negsuc n) h = omega arith

pub fix-IsPositive : (d : Decimal) → IsPositive d → IsPositive (fix d)
unfolding fix
fix-IsPositive d h = on_magnitude-IsPositive _ d.coeff h (
    mul_pos _ _
      (round_from_pos (suc (magnitude d.coeff)) (magnitude d.coeff) 0 false 0
        (magnitude_pos d.coeff h))
      (pow_pos _))

-- A difference of what is larger and what is not is not negative.
pub sub-IsNonneg : (a b : Decimal) → le b a ≡ true → IsNonneg (sub a b)
unfolding sub le
sub-IsNonneg a b h = fix-IsNonneg _ (-ℤ-IsNonneg (aligned a b) (aligned b a) h)

aligned-IsNonneg : (a b : Decimal) → IsNonneg a → Integer.IsNonneg (aligned a b)
unfolding aligned
aligned-IsNonneg a b h = *ℤ-IsNonneg a.coeff (pos (10 ^ (b.places - a.places))) h refl

aligned-IsPositive : (a b : Decimal) → IsPositive a → Integer.IsPositive (aligned a b)
unfolding aligned
aligned-IsPositive a b h = *ℤ-IsPositive a.coeff (10 ^ (b.places - a.places)) h (pow_pos _)

pub add-IsNonneg : (a b : Decimal) → IsNonneg a → IsNonneg b → IsNonneg (add a b)
unfolding add
add-IsNonneg a b h k =
    fix-IsNonneg _
      (+ℤ-IsNonneg (aligned a b) (aligned b a) (aligned-IsNonneg a b h) (aligned-IsNonneg b a k))

pub add-IsPositive : (a b : Decimal) → IsPositive a → IsPositive b → IsPositive (add a b)
unfolding add
add-IsPositive a b h k =
    fix-IsPositive
      (record { coeff = aligned a b +ℤ aligned b a; places = a.places + (b.places - a.places) })
      (+ℤ-IsPositive (aligned a b) (aligned b a) (aligned-IsPositive a b h)
        (aligned-IsPositive b a k))

pub mul-IsNonneg : (a b : Decimal) → IsNonneg a → IsNonneg b → IsNonneg (mul a b)
unfolding mul
mul-IsNonneg a b h k = fix-IsNonneg _ (*ℤ-IsNonneg a.coeff b.coeff h k)

-- Comparisons with zero read the sign of the coefficient.
aligned-zero : (d : Decimal) → aligned d Decimal.zero ≡ d.coeff *ℤ pos 1
unfolding aligned
aligned-zero d = rw (no_places d.places)
  where
    no_places : (p : ℕ) → 0 - p ≡ 0
    no_places p = omega arith

*ℤ_one : (a : ℤ) → a *ℤ pos 1 ≡ a
unfolding ◌*ℤ◌
*ℤ_one (pos n) = let e : n * 1 ≡ n = omega arith in ap pos e
*ℤ_one (negsuc n) = let e : suc n * 1 ≡ suc n = omega arith in ap minus e

zero-aligned : (d : Decimal) → aligned Decimal.zero d ≡ pos 0
unfolding aligned ◌*ℤ◌
zero-aligned d = ap pos (omega arith)

pub le-zero : (d : Decimal) → le d Decimal.zero ≡ leb_ℤ d.coeff (pos 0)
unfolding le
le-zero d = ap₂ leb_ℤ (aligned-zero d ∙ *ℤ_one d.coeff) (zero-aligned d)

pub lt-zero : (d : Decimal) → lt d Decimal.zero ≡ ltb_ℤ d.coeff (pos 0)
unfolding lt
lt-zero d = ap₂ ltb_ℤ (aligned-zero d ∙ *ℤ_one d.coeff) (zero-aligned d)

pub zero-le : (d : Decimal) → le Decimal.zero d ≡ leb_ℤ (pos 0) d.coeff
unfolding le
zero-le d = ap₂ leb_ℤ (zero-aligned d) (aligned-zero d ∙ *ℤ_one d.coeff)

pub IsPositive-of_le-zero : (d : Decimal) → le d Decimal.zero ≡ false → IsPositive d
IsPositive-of_le-zero d h = positive d.coeff (sym (le-zero d) ∙ h)
  where
    positive : (a : ℤ) → leb_ℤ a (pos 0) ≡ false → Integer.IsPositive a
    positive a e = ground arith

pub le-zero-IsPositive : (d : Decimal) → IsPositive d → le d Decimal.zero ≡ false
le-zero-IsPositive d h = le-zero d ∙ positive d.coeff h
  where
    positive : (a : ℤ) → Integer.IsPositive a → leb_ℤ a (pos 0) ≡ false
    positive a e = ground arith

-- A positive decimal is not negative.
pub IsNonneg-of_pos : (d : Decimal) → IsPositive d → IsNonneg d
IsNonneg-of_pos d h = positive d.coeff h
  where
    positive : (a : ℤ) → Integer.IsPositive a → Integer.IsNonneg a
    positive (pos n) e = refl
    positive (negsuc n) e = absurd (omega arith)

eq-zero : (d : Decimal) → IsNonneg d → eq d Decimal.zero ≡ false → IsPositive d
unfolding eq
eq-zero d h e = nonzero d.coeff h (sym (ap₂ ◌&&◌ (le-zero d) (zero-le d)) ∙ e)
  where
    nonzero :
        (a : ℤ)
        → Integer.IsNonneg a
        → (leb_ℤ a (pos 0) && leb_ℤ (pos 0) a) ≡ false
        → Integer.IsPositive a
    nonzero a n k = ground arith

pub le_of_not_lt : (a b : Decimal) → lt a b ≡ false → le b a ≡ true
unfolding lt le
le_of_not_lt a b h = swap (aligned a b) (aligned b a) h
  where
    swap : (x y : ℤ) → ltb_ℤ x y ≡ false → leb_ℤ y x ≡ true
    swap x y e = ground arith

pub lt_irrefl : (a : Decimal) → lt a a ≡ false
unfolding lt
lt_irrefl a = irrefl (aligned a a)
  where
    irrefl : (x : ℤ) → ltb_ℤ x x ≡ false
    irrefl x = ground arith

pub le_of_lt : (a b : Decimal) → lt a b ≡ true → le a b ≡ true
unfolding lt le
le_of_lt a b h = weaken (aligned a b) (aligned b a) h
  where
    weaken : (x y : ℤ) → ltb_ℤ x y ≡ true → leb_ℤ x y ≡ true
    weaken x y e = ground arith

pub le-max_left : (a b : Decimal) → le a (max a b) ≡ true
unfolding max
le-max_left a b = elim (Bool-cases (lt a b)) [
  | inl e ↦ rw e (le_of_lt a b e)
  | inr e ↦ rw e (le_of_not_lt a a (lt_irrefl a))
]

pub le-max_right : (a b : Decimal) → le b (max a b) ≡ true
unfolding max
le-max_right a b = elim (Bool-cases (lt a b)) [
  | inl e ↦ rw e (le_of_not_lt b b (lt_irrefl b))
  | inr e ↦ rw e (le_of_not_lt a b e)
]

pub max-IsNonneg : (a b : Decimal) → IsNonneg a → IsNonneg b → IsNonneg (max a b)
unfolding max
max-IsNonneg a b h k = elim (Bool-cases (lt a b)) [ inl e ↦ rw e k | inr e ↦ rw e h ]

pub not_le_of_lt : (a b : Decimal) → lt a b ≡ true → le b a ≡ false
unfolding lt le
not_le_of_lt a b h = swap (aligned a b) (aligned b a) h
  where
    swap : (x y : ℤ) → ltb_ℤ x y ≡ true → leb_ℤ y x ≡ false
    swap x y e = ground arith

-- A difference that is neither negative nor zero is positive.
pub sub-IsPositive :
    (a b : Decimal) → lt a b ≡ false → eq (sub a b) Decimal.zero ≡ false → IsPositive (sub a b)
sub-IsPositive a b h k = eq-zero (sub a b) (sub-IsNonneg a b (le_of_not_lt a b h)) k

pub min-IsNonneg : (a b : Decimal) → IsNonneg a → IsNonneg b → IsNonneg (min a b)
unfolding min
min-IsNonneg a b h k = elim (Bool-cases (lt b a)) [ inl e ↦ rw e k | inr e ↦ rw e h ]

some_if : {A : Type 0} (c : Bool) {a b : A} → (if c then some a else none) ≡ some b → a ≡ b
some_if true e = cc
some_if false e = cc

pub quantize-IsNonneg :
    (n : ℕ) (mode : RoundingMode) (d : Decimal) {q : Decimal}
    → IsNonneg d
    → quantize n mode d ≡ some q
    → IsNonneg q
unfolding quantize
quantize-IsNonneg n mode d h e = subst IsNonneg (some_if _ e) (on_magnitude-IsNonneg _ d.coeff h)

pub div-IsNonneg :
    (a b : Decimal) {q : Decimal} → IsNonneg a → IsNonneg b → div a b ≡ some q → IsNonneg q
unfolding div
div-IsNonneg a b h k e =
    subst IsNonneg (some_if _ e) (fix-IsNonneg _ (quotient-IsNonneg a.coeff b.coeff _ h k))

truthy_of_pos : (d : Decimal) → IsPositive d → truthy d ≡ true
unfolding truthy
truthy_of_pos d h = nonzero d.coeff h
  where
    nonzero : (z : ℤ) → Integer.IsPositive z → not (nat_beq (magnitude z) 0) ≡ true
    nonzero (pos n) h = ground arith
    nonzero (negsuc n) h = ground arith

pub if_some :
    {A : Type 0} (c : Bool) (a : A) → c ≡ true → (q : A) × ((if c then some a else none) ≡ some q)
if_some true a h = (a, refl)
if_some false a h = absurd (false≢true h)

-- A division by a positive amount has a result.
pub div_pos : (a b : Decimal) → IsPositive b → (q : Decimal) × (div a b ≡ some q)
unfolding div
div_pos a b h = if_some (truthy b) _ (truthy_of_pos b h)
