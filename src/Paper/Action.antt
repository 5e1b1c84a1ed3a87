-- ===== src/Paper/Action.antt =====
-- A method of the paper engine: it reads and writes the engine, and returns or raises. What was
-- written before a raise stays written, so the engine comes back beside the exception too.
use live_auto_trading.Prelude.{Option, none, some}
use live_auto_trading.Paper.State.{Engine}

-- `KeyError`, and the traps of `decimal`
pub data Exception : Type 0 where
  key_error decimal_error : Exception

pub data Result (A : Type 0) : Type 0 where
  ok : A → Result A
  raised : Exception → Result A

abbrev pub Action : Type 0 → Type 0
Action A = Engine → Result A × Engine

abbrev pub pure : {A : Type 0} → A → Action A
pure a s = (ok a, s)

abbrev pub raise : {A : Type 0} → Exception → Action A
raise e s = (raised e, s)

abbrev pub gets : {A : Type 0} → (Engine → A) → Action A
gets f s = (ok (f s), s)

abbrev pub modify : (Engine → Engine) → Action (Unit {0})
modify f s = (ok tt, f s)

-- the result of a computation that may raise
abbrev pub or_raise : {A : Type 0} → Exception → Option A → Action A
or_raise e none = raise e
or_raise e (some a) = pure a

infixl 5 ◌>>=◌ ◌>>◌
abbrev pub continue : {A B : Type 0} → Result A → (A → Action B) → Action B
continue (ok a) f s = f a s
continue (raised e) f s = (raised e, s)

abbrev pub ◌>>=◌ : {A B : Type 0} → Action A → (A → Action B) → Action B
◌>>=◌ m f s = continue (m s).0 f (m s).1

abbrev pub ◌>>◌ : {B : Type 0} → Action (Unit {0}) → Action B → Action B
m >> k = m >>= λ _. k
