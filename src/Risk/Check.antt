-- ===== src/Risk/Check.antt =====
-- A chain of checks with early returns: a check lets the next one run, or ends the evaluation with
-- a decision, or faults where `decimal` raises.
use live_auto_trading.Prelude.{◌≡◌, refl, Bool, true, false, Option, none, some}
use live_auto_trading.Domain.Enums.{RiskDecision, RiskReasonCode}
use live_auto_trading.Domain.Trading.{RiskEvaluation}

pub data Check (A : Type 0) : Type 0 where
  go : A → Check A
  stop : RiskEvaluation → Check A
  fault : Check A

infixl 5 ◌>>=◌ ◌>>◌
abbrev pub ◌>>=◌ : {A B : Type 0} → Check A → (A → Check B) → Check B
go a >>= f = f a
stop e >>= f = stop e
fault >>= f = fault

abbrev pub ◌>>◌ : {B : Type 0} → Check (Unit {0}) → Check B → Check B
m >> k = m >>= λ _. k

-- `RiskEngine._reject`
abbrev pub rejection : RiskReasonCode → RiskEvaluation
rejection code = record {
  decision = RiskDecision.rejected;
  reason_code = code;
  approved_quantity = none;
}

-- `RiskEngine._halt`
abbrev pub halting : RiskReasonCode → RiskEvaluation
halting code = record {
  decision = RiskDecision.halted;
  reason_code = code;
  approved_quantity = none;
}

abbrev pub reject_if : Bool → RiskReasonCode → Check (Unit {0})
reject_if true code = stop (rejection code)
reject_if false code = go tt

abbrev pub halt_if : Bool → RiskReasonCode → Check (Unit {0})
halt_if true code = stop (halting code)
halt_if false code = go tt

abbrev pub or_fault : {A : Type 0} → Option A → Check A
or_fault none = fault
or_fault (some a) = go a

-- the checks that run only under a condition
abbrev pub when : Bool → Check (Unit {0}) → Check (Unit {0})
when true m = m
when false m = go tt

-- What a chain that ends with `go` went through.
pub >>=-eq_go :
    {A B : Type 0} (m : Check A) (f : A → Check B) {b : B}
    → (m >>= f) ≡ go b
    → (a : A) × (m ≡ go a) × (f a ≡ go b)
>>=-eq_go (go a) f h = (a, refl, h)
>>=-eq_go (stop e) f h = cc
>>=-eq_go fault f h = cc

pub reject_if-eq_go :
    (c : Bool) (code : RiskReasonCode) {u : Unit {0}} → reject_if c code ≡ go u → c ≡ false
reject_if-eq_go true code h = cc
reject_if-eq_go false code h = refl

pub halt_if-eq_go :
    (c : Bool) (code : RiskReasonCode) {u : Unit {0}} → halt_if c code ≡ go u → c ≡ false
halt_if-eq_go true code h = cc
halt_if-eq_go false code h = refl

module _ {A : Type 0} where
  pub go_eq : {a b : A} → go a ≡ go b → a ≡ b
  go_eq h = cc

  pub or_fault-eq_go : (o : Option A) {a : A} → or_fault o ≡ go a → o ≡ some a
  or_fault-eq_go none h = cc
  or_fault-eq_go (some b) h = cc
