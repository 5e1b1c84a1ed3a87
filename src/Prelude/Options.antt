-- ===== src/Prelude/Options.antt =====
-- Computations that may fail, as do blocks.
use mathlib.Core.Path.{◌≡◌, refl, subst}
use live_auto_trading.Prelude.{if◌then◌else◌}
use mathlib.Core.Option.{Option, none, some}
use mathlib.Core.Bool.{Bool, true, false}

infixl 5 ◌>>=◌ ◌>>◌
abbrev pub ◌>>=◌ {ℓ κ} : {A : Type ℓ} {B : Type κ} → Option A → (A → Option B) → Option B
none >>= f = none
some a >>= f = f a

abbrev pub ◌>>◌ {κ} : {B : Type κ} → Option (Unit {0}) → Option B → Option B
m >> k = m >>= λ u. k

-- goes on where the condition does not hold
abbrev pub fail_if : Bool → Option (Unit {0})
fail_if true = none
fail_if false = some tt

pub >>=-eq_some {ℓ κ} :
    {A : Type ℓ} {B : Type κ} (m : Option A) (f : A → Option B) {b : B}
    → (m >>= f) ≡ some b
    → (a : A) × (m ≡ some a) × (f a ≡ some b)
>>=-eq_some none f h = cc
>>=-eq_some (some a) f h = (a, refl, h)

pub fail_if-eq_some : (c : Bool) {u : Unit {0}} → fail_if c ≡ some u → c ≡ false
fail_if-eq_some true h = cc
fail_if-eq_some false h = refl

-- what holds of the result, where there is one
pub record Ensures {A : Type 0} (P : A → Type 0) (m : Option A) : Type 0 where
  pub holds : (a : A) → m ≡ some a → P a

module _ {A : Type 0} {P : A → Type 0} where
  pub some-Ensures : (a : A) → P a → Ensures P (some a)
  some-Ensures a p = record { holds = λ b e. subst P (some_inj e) p }
    where
      some_inj : {a b : A} → some a ≡ some b → a ≡ b
      some_inj e = cc

  pub if-Ensures :
      (c : Bool) {m n : Option A}
      → (c ≡ true → Ensures P m)
      → (c ≡ false → Ensures P n)
      → Ensures P (if c then m else n)
  if-Ensures true h k = h refl
  if-Ensures false h k = k refl

  pub >>=-Ensures :
      {B : Type 0} (m : Option B) (f : B → Option A)
      → ((b : B) → Ensures P (f b))
      → Ensures P (m >>= f)
  >>=-Ensures none f h = record { holds = λ b e. cc }
  >>=-Ensures (some a) f h = h a

  -- The rest may use what holds of the first result.
  pub >>=-Ensures_with :
      {B : Type 0} {Q : B → Type 0} (m : Option B) (f : B → Option A)
      → Ensures Q m
      → ((b : B) → Q b → Ensures P (f b))
      → Ensures P (m >>= f)
  >>=-Ensures_with none f q h = record { holds = λ b e. cc }
  >>=-Ensures_with (some a) f q h = h a (q.holds a refl)
