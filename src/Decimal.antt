-- ===== src/Decimal.antt =====
-- Python's `decimal.Decimal` in the default context: finite numbers, 28 significant digits,
-- ROUND_HALF_EVEN. A decimal is a coefficient and a number of decimal places; a positive exponent
-- is written out into the coefficient, which keeps the number and every later rounding. The bounds
-- on exponents (999999) are left out: no value of the program is near them.
mod Rounding
pub mod Sign
pub mod Tests
use Rounding.{round_from, round_ratio}
use live_auto_trading.Prelude.{
  ℕ, suc, ◌+◌, ◌-◌, ◌*◌, ◌/◌, ◌%◌, ◌^◌, ◌≡◌, Bool, true, false, not, ◌&&◌, ◌||◌, Option, none, some,
  List, [], ◌∷◌, ltb, leb, nat_beq, if◌then◌else◌,
}
use live_auto_trading.Integer.{
  ℤ, pos, ◌+ℤ◌, ◌-ℤ◌, ◌*ℤ◌, magnitude, on_magnitude, is_neg, signed, signs_differ, ltb_ℤ, leb_ℤ,
}
pub use Rounding.{RoundingMode, half_even, down}
use Rounding.{digit_count}

-- coeff / 10 ^ places
pub record Decimal : Type 0 where
  pub coeff : ℤ
  pub places : ℕ

abbrev pub zero : Decimal
zero = record { coeff = pos 0; places = 0 }

abbrev pub one : Decimal
one = record { coeff = pos 1; places = 0 }

abbrev pub two : Decimal
two = record { coeff = pos 2; places = 0 }

-- `Context._fix`: keep 28 significant digits. `dropped` digits go off the right end; where there
-- are fewer places than that, zeros come back in their stead.
unfoldable pub fix : Decimal → Decimal
unfolding round_from
fix d =
    let dropped = (round_from (suc (magnitude d.coeff)) (magnitude d.coeff) 0 false 0).1 in
    record {
      coeff =
          on_magnitude (λ m. (round_from (suc m) m 0 false 0).0 * 10 ^ (dropped - d.places))
            d.coeff;
      places = d.places - dropped;
    }

-- The coefficient of `a` over the larger of the two numbers of places.
unfoldable pub aligned : Decimal → Decimal → ℤ
aligned a b = a.coeff *ℤ pos (10 ^ (b.places - a.places))

unfoldable pub add : Decimal → Decimal → Decimal
unfolding fix aligned ◌+ℤ◌ ◌*ℤ◌
add a b =
    fix (record { coeff = aligned a b +ℤ aligned b a; places = a.places + (b.places - a.places) })

unfoldable pub sub : Decimal → Decimal → Decimal
unfolding fix aligned ◌-ℤ◌ ◌*ℤ◌
sub a b =
    fix (record { coeff = aligned a b -ℤ aligned b a; places = a.places + (b.places - a.places) })

unfoldable pub mul : Decimal → Decimal → Decimal
unfolding fix ◌*ℤ◌
mul a b = fix (record { coeff = a.coeff *ℤ b.coeff; places = a.places + b.places })

unfoldable pub neg : Decimal → Decimal
unfolding sub
neg a = sub zero a

-- `a < b`, `a <= b`, `a == b`: exact, whatever the numbers of places
unfoldable pub lt : Decimal → Decimal → Bool
unfolding aligned ◌*ℤ◌
lt a b = ltb_ℤ (aligned a b) (aligned b a)

unfoldable pub le : Decimal → Decimal → Bool
unfolding aligned ◌*ℤ◌
le a b = leb_ℤ (aligned a b) (aligned b a)

unfoldable pub eq : Decimal → Decimal → Bool
unfolding le
eq a b = le a b && le b a

-- `max(a, b)` and `min(a, b)` of Python return the first of equal values.
unfoldable pub max : Decimal → Decimal → Decimal
unfolding lt
max a b = if lt a b then b else a

unfoldable pub min : Decimal → Decimal → Decimal
unfolding lt
min a b = if lt b a then b else a

unfoldable pub abs : Decimal → Decimal
unfolding fix
abs a = fix (record { coeff = pos (magnitude a.coeff); places = a.places })

-- `bool(d)`: a zero is false.
unfoldable pub truthy : Decimal → Bool
truthy a = not (nat_beq (magnitude a.coeff) 0)

-- The extra digits that `Decimal.__truediv__` computes: one more than the precision, and a last
-- digit that is never 0 or 5 where the division leaves a remainder.
unfoldable pub div_shift : Decimal → Decimal → ℕ
unfolding digit_count
div_shift a b = digit_count (magnitude b.coeff) + 29 - digit_count (magnitude a.coeff)

unfoldable pub sticky_quotient : ℕ → ℕ → ℕ
sticky_quotient n d =
    if not (nat_beq (n % d) 0) && nat_beq ((n / d) % 5) 0 then n / d + 1 else n / d

-- `none` is `DivisionByZero`, or `InvalidOperation` for 0 / 0.
unfoldable pub div : Decimal → Decimal → Option Decimal
unfolding fix div_shift sticky_quotient truthy
div a b =
    if truthy b
    then some (
        let shift = div_shift a b in
        let q = sticky_quotient (magnitude a.coeff * 10 ^ shift) (magnitude b.coeff) in
        fix (record {
          coeff =
              signed (signs_differ (is_neg a.coeff) (is_neg b.coeff))
                (q * 10 ^ (b.places - (a.places + shift)));
          places = a.places + shift - b.places;
        }))
    else none

-- `d.quantize(Decimal("1e-n"), rounding)`: `none` is `InvalidOperation`, more than 28 digits.
unfoldable pub quantize : ℕ → RoundingMode → Decimal → Option Decimal
unfolding round_ratio
quantize n mode d =
    let coeff =
      on_magnitude (λ m. round_ratio mode (m * 10 ^ (n - d.places)) (10 ^ (d.places - n)))
        d.coeff in
    if ltb (magnitude coeff) (10 ^ 28) then some (record { coeff = coeff; places = n }) else none

-- `d.to_integral_value(rounding)` never raises.
unfoldable pub to_integral_value : RoundingMode → Decimal → Decimal
unfolding round_ratio
to_integral_value mode d = record {
  coeff = on_magnitude (λ m. round_ratio mode m (10 ^ d.places)) d.coeff;
  places = 0;
}

-- Python's `x or y` on optional decimals: `None` and zero are both false.
abbrev pub or_else : Option Decimal → Option Decimal → Option Decimal
or_else none y = y
or_else (some d) y = if truthy d then some d else y

-- `sum(xs, Decimal("0"))` adds from the left.
unfoldable pub sum_from : Decimal → List Decimal → Decimal
unfolding add
sum_from acc [] = acc
sum_from acc (x ∷ xs) = sum_from (add acc x) xs
