-- ===== src/Paper/Keeps.antt =====
-- What every call on the paper engine keeps, one rule for each way to build a call.
use live_auto_trading.Prelude.{◌≡◌, refl, Bool, true, false, Option, none, some, if◌then◌else◌}
use live_auto_trading.Decimal.{Decimal, add}
use live_auto_trading.Decimal.Sign.{IsNonneg, IsPositive, add-IsNonneg}
use live_auto_trading.Dict.{AllValues}
use live_auto_trading.Domain.Trading.{Position}
use live_auto_trading.Paper.State.{Engine}
use live_auto_trading.Paper.Action.{
  Action, Result, Exception, ok, raised, pure, gets, modify, or_raise, continue, ◌>>=◌,
}

-- a long position: more than nothing is held
abbrev pub IsLong : Position → Type 0
IsLong p = IsPositive p.quantity

-- With `solvent`, the amount is not negative; without, nothing is claimed.
abbrev pub IsCovered : Bool → Decimal → Type 0
IsCovered true d = IsNonneg d
IsCovered false d = Unit

pub IsCovered-of_nonneg : (b : Bool) (d : Decimal) → IsNonneg d → IsCovered b d
IsCovered-of_nonneg true d h = h
IsCovered-of_nonneg false d h = tt

pub add-IsCovered : (b : Bool) (d e : Decimal) → IsCovered b d → IsNonneg e → IsCovered b (add d e)
add-IsCovered true d e h k = add-IsNonneg d e h k
add-IsCovered false d e h k = tt

-- The ledger is sound: nothing reserved is negative and every position is long; with `solvent`,
-- the available cash is not negative either.
pub record IsSound (solvent : Bool) (s : Engine) : Type 0 where
  pub reserved : IsNonneg s.reserved_cash
  pub held : AllValues IsLong s.positions
  pub cash : IsCovered solvent s.cash

-- `m` keeps `P`, whether it returns or raises.
pub record Keeps {A : Type 0} (P : Engine → Type 0) (m : Action A) : Type 0 where
  pub at : (s : Engine) → P s → P (m s).1

module _ {A : Type 0} {P : Engine → Type 0} where
  pub Keeps-pure : (a : A) → Keeps P (pure a)
  Keeps-pure a = record { at = λ s h. h }

  pub Keeps-or_raise : (e : Exception) (o : Option A) → Keeps P (or_raise e o)
  Keeps-or_raise e none = record { at = λ s h. h }
  Keeps-or_raise e (some a) = record { at = λ s h. h }

  pub Keeps-gets : (f : Engine → A) → Keeps P (gets f)
  Keeps-gets f = record { at = λ s h. h }

  pub Keeps-if : (c : Bool) (m n : Action A) → Keeps P m → Keeps P n → Keeps P (if c then m else n)
  Keeps-if true m n km kn = km
  Keeps-if false m n km kn = kn

module _ {A B : Type 0} {P : Engine → Type 0} where
  pub Keeps-bind :
      (m : Action A) (f : A → Action B) → Keeps P m → ((a : A) → Keeps P (f a)) → Keeps P (m >>= f)
  Keeps-bind m f km kf = record { at = λ s h. after (m s).0 (m s).1 (km.at s h) }
    where
      after : (r : Result A) (s : Engine) → P s → P (continue r f s).1
      after (ok a) s h = (kf a).at s h
      after (raised e) s h = h

  -- The rest of the block may use that the result was there.
  pub Keeps-bind_some :
      (e : Exception) (o : Option A) (f : A → Action B)
      → ((a : A) → o ≡ some a → Keeps P (f a))
      → Keeps P (or_raise e o >>= f)
  Keeps-bind_some e none f kf = record { at = λ s h. h }
  Keeps-bind_some e (some a) f kf = kf a refl

pub Keeps-modify :
    {P : Engine → Type 0} (f : Engine → Engine)
    → ((s : Engine) → P s → P (f s))
    → Keeps P (modify f)
Keeps-modify f k = record { at = k }

-- What holds of the result, if the call returns.
abbrev pub OnOk : {A : Type 0} → (A → Type 0) → Result A → Type 0
OnOk Q (ok a) = Q a
OnOk Q (raised e) = Unit

pub record Yields {A : Type 0} (Q : A → Type 0) (m : Action A) : Type 0 where
  pub at : (s : Engine) → OnOk Q (m s).0

module _ {A : Type 0} {Q : A → Type 0} where
  pub Yields-pure : (a : A) → Q a → Yields Q (pure a)
  Yields-pure a q = record { at = λ s. q }

  pub Yields-if :
      (c : Bool) (m n : Action A) → Yields Q m → Yields Q n → Yields Q (if c then m else n)
  Yields-if true m n km kn = km
  Yields-if false m n km kn = kn

module _ {A B : Type 0} {Q : B → Type 0} where
  pub Yields-bind :
      (m : Action A) (f : A → Action B) → ((a : A) → Yields Q (f a)) → Yields Q (m >>= f)
  Yields-bind m f kf = record { at = λ s. after (m s).0 (m s).1 }
    where
      after : (r : Result A) (s : Engine) → OnOk Q (continue r f s).0
      after (ok a) s = (kf a).at s
      after (raised e) s = tt

  -- The rest of the block may use what the first call yields.
  pub Yields-bind_with :
      {R : A → Type 0} (m : Action A) (f : A → Action B)
      → Yields R m
      → ((a : A) → R a → Yields Q (f a))
      → Yields Q (m >>= f)
  Yields-bind_with {R} m f km kf = record { at = λ s. after (m s).0 (m s).1 (km.at s) }
    where
      after : (r : Result A) (s : Engine) → OnOk R r → OnOk Q (continue r f s).0
      after (ok a) s h = (kf a h).at s
      after (raised e) s h = tt

module _ {A B : Type 0} {P : Engine → Type 0} {R : A → Type 0} where
  pub Keeps-bind_with :
      (m : Action A) (f : A → Action B)
      → Keeps P m
      → Yields R m
      → ((a : A) → R a → Keeps P (f a))
      → Keeps P (m >>= f)
  Keeps-bind_with m f km ym kf = record { at = λ s h. after (m s).0 (m s).1 (ym.at s) (km.at s h) }
    where
      after : (r : Result A) (s : Engine) → OnOk R r → P s → P (continue r f s).1
      after (ok a) s q h = (kf a q).at s h
      after (raised e) s q h = h

pub ruleset keeps_rules = (Keeps-pure, Keeps-or_raise, Keeps-gets, Keeps-if, Keeps-bind)

pub ruleset yields_rules = (Yields-pure, Yields-if, Yields-bind)
