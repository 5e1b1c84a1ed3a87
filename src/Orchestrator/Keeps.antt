-- ===== src/Orchestrator/Keeps.antt =====
-- What a method of the orchestrator keeps, one rule for each way to build a method.
use live_auto_trading.Prelude.{Bool, true, false, Option, none, some, if◌then◌else◌}
use live_auto_trading.Orchestrator.State.{Orchestrator}
use live_auto_trading.Orchestrator.Step.{
  Step, pure, gets, modify, or_raise, attempt, continue, ◌>>=◌,
}

-- `m` keeps `P`, whether it returns or raises.
pub record Keeps {A : Type 0} (P : Orchestrator → Type 0) (m : Step A) : Type 0 where
  pub at : (o : Orchestrator) → P o → P (m o).1

module _ {A : Type 0} {P : Orchestrator → Type 0} where
  pub Keeps-pure : (a : A) → Keeps P (pure a)
  Keeps-pure a = record { at = λ o h. h }

  pub Keeps-gets : (f : Orchestrator → A) → Keeps P (gets f)
  Keeps-gets f = record { at = λ o h. h }

  pub Keeps-or_raise : (m : Option A) → Keeps P (or_raise m)
  Keeps-or_raise m = record { at = λ o h. h }

  pub Keeps-attempt : (m : Step A) → Keeps P m → Keeps P (attempt m)
  unfolding attempt
  Keeps-attempt m k = record { at = λ o h. k.at o h }

  pub Keeps-if : (c : Bool) (m n : Step A) → Keeps P m → Keeps P n → Keeps P (if c then m else n)
  Keeps-if true m n km kn = km
  Keeps-if false m n km kn = kn

module _ {A B : Type 0} {P : Orchestrator → Type 0} where
  pub Keeps-bind :
      (m : Step A) (f : A → Step B) → Keeps P m → ((a : A) → Keeps P (f a)) → Keeps P (m >>= f)
  Keeps-bind m f km kf = record { at = λ o h. after (m o).0 (m o).1 (km.at o h) }
    where
      after : (r : Option A) (o : Orchestrator) → P o → P (continue r f o).1
      after (some a) o h = (kf a).at o h
      after none o h = h

module _ {P : Orchestrator → Type 0} where
  pub Keeps-modify :
      (f : Orchestrator → Orchestrator) → ((o : Orchestrator) → P o → P (f o)) → Keeps P (modify f)
  Keeps-modify f k = record { at = k }

pub ruleset keeps_rules =
    (Keeps-pure, Keeps-gets, Keeps-or_raise, Keeps-attempt, Keeps-if, Keeps-bind, Keeps-modify)
