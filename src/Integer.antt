-- ===== src/Integer.antt =====
-- Python's unbounded integers over the native numbers, as sign and magnitude.
use live_auto_trading.Prelude.{
  ℕ, zero, suc, ◌+◌, ◌-◌, ◌*◌, ◌<◌, ◌≡◌, refl, Bool, true, false, not, arith, ltb, leb,
  if◌then◌else◌,
}

-- `negsuc n` is -(n + 1).
pub data ℤ : Type 0 where
  pos : ℕ → ℤ
  negsuc : ℕ → ℤ

abbrev pub pos_part : ℤ → ℕ
pos_part (pos n) = n
pos_part (negsuc n) = 0

abbrev pub neg_part : ℤ → ℕ
neg_part (pos n) = 0
neg_part (negsuc n) = suc n

abbrev pub magnitude : ℤ → ℕ
magnitude (pos n) = n
magnitude (negsuc n) = suc n

-- -n
abbrev pub minus : ℕ → ℤ
minus zero = pos 0
minus (suc n) = negsuc n

abbrev pub is_neg : ℤ → Bool
is_neg (pos n) = false
is_neg (negsuc n) = true

abbrev pub signs_differ : Bool → Bool → Bool
signs_differ true t = not t
signs_differ false t = t

-- The integer with this sign and magnitude; `true` is the minus sign.
abbrev pub signed : Bool → ℕ → ℤ
signed true n = minus n
signed false n = pos n

-- a - b, as an integer.
abbrev pub sub_ℕ : ℕ → ℕ → ℤ
sub_ℕ a b = if leb b a then pos (a - b) else negsuc (b - a - 1)

-- The integer with the sign of `a` and the magnitude that `f` computes from its own.
abbrev pub on_magnitude : (ℕ → ℕ) → ℤ → ℤ
on_magnitude f (pos n) = pos (f n)
on_magnitude f (negsuc n) = minus (f (suc n))

infixl 65 ◌+ℤ◌ ◌-ℤ◌
infixl 70 ◌*ℤ◌
unfoldable pub ◌+ℤ◌ : ℤ → ℤ → ℤ
a +ℤ b = sub_ℕ (pos_part a + pos_part b) (neg_part a + neg_part b)

unfoldable pub ◌-ℤ◌ : ℤ → ℤ → ℤ
a -ℤ b = sub_ℕ (pos_part a + neg_part b) (neg_part a + pos_part b)

unfoldable pub ◌*ℤ◌ : ℤ → ℤ → ℤ
pos a *ℤ pos b = pos (a * b)
pos a *ℤ negsuc b = minus (a * suc b)
negsuc a *ℤ pos b = minus (suc a * b)
negsuc a *ℤ negsuc b = pos (suc a * suc b)

abbrev pub ltb_ℤ : ℤ → ℤ → Bool
ltb_ℤ a b = ltb (pos_part a + neg_part b) (pos_part b + neg_part a)

abbrev pub leb_ℤ : ℤ → ℤ → Bool
leb_ℤ a b = leb (pos_part a + neg_part b) (pos_part b + neg_part a)

abbrev pub IsNonneg : ℤ → Type 0
IsNonneg a = neg_part a ≡ 0

abbrev pub IsPositive : ℤ → Type 0
IsPositive a = 0 < pos_part a

pub minus_nonneg_zero : (n : ℕ) → IsNonneg (minus n) → n ≡ 0
minus_nonneg_zero zero h = refl
minus_nonneg_zero (suc n) h = absurd (omega arith)

pub +ℤ-IsNonneg : (a b : ℤ) → IsNonneg a → IsNonneg b → IsNonneg (a +ℤ b)
unfolding ◌+ℤ◌
+ℤ-IsNonneg a b h k = ground arith

pub +ℤ-IsPositive : (a b : ℤ) → IsPositive a → IsPositive b → IsPositive (a +ℤ b)
unfolding ◌+ℤ◌
+ℤ-IsPositive a b h k = ground arith

pub -ℤ-IsNonneg : (a b : ℤ) → leb_ℤ b a ≡ true → IsNonneg (a -ℤ b)
unfolding ◌-ℤ◌
-ℤ-IsNonneg a b h = ground arith

pub *ℤ-IsNonneg : (a b : ℤ) → IsNonneg a → IsNonneg b → IsNonneg (a *ℤ b)
unfolding ◌*ℤ◌
*ℤ-IsNonneg (pos a) (pos b) h k = refl
*ℤ-IsNonneg (pos a) (negsuc b) h k = absurd (omega arith)
*ℤ-IsNonneg (negsuc a) b h k = absurd (omega arith)

pub *ℤ-IsPositive : (a : ℤ) (n : ℕ) → IsPositive a → 0 < n → IsPositive (a *ℤ pos n)
unfolding ◌*ℤ◌
*ℤ-IsPositive (pos a) n h k = grind arith
*ℤ-IsPositive (negsuc a) n h k = absurd (omega arith)

pub on_magnitude-IsNonneg : (f : ℕ → ℕ) (a : ℤ) → IsNonneg a → IsNonneg (on_magnitude f a)
on_magnitude-IsNonneg f (pos n) h = refl
on_magnitude-IsNonneg f (negsuc n) h = absurd (omega arith)

pub on_magnitude-IsPositive :
    (f : ℕ → ℕ) (a : ℤ) → IsPositive a → 0 < f (magnitude a) → IsPositive (on_magnitude f a)
on_magnitude-IsPositive f (pos n) h k = k
on_magnitude-IsPositive f (negsuc n) h k = absurd (omega arith)

pub quotient-IsNonneg :
    (a b : ℤ) (n : ℕ)
    → IsNonneg a
    → IsNonneg b
    → IsNonneg (signed (signs_differ (is_neg a) (is_neg b)) n)
quotient-IsNonneg (pos a) (pos b) n h k = refl
quotient-IsNonneg (pos a) (negsuc b) n h k = absurd (omega arith)
quotient-IsNonneg (negsuc a) b n h k = absurd (omega arith)
