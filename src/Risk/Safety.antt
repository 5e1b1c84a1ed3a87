-- ===== src/Risk/Safety.antt =====
-- The risk engine over several evaluations.
use live_auto_trading.Risk.Accepted.{IsAccepted, IsUnrecorded, Decides, evaluate_cases}
use live_auto_trading.Prelude.{
  ℕ, String, string_key, ◌≡◌, ◌⊎◌, refl, sym, ◌∙◌, inl, inr, true, none, some, List, Bool-cases,
}
use mathlib.Core.Path.{subst}
use mathlib.Core.Option.{none-ne-some}
use mathlib.Core.Bool.{false≢true}
use live_auto_trading.Decimal.{Decimal}
use live_auto_trading.Domain.Trading.{OrderRequest, RiskEvaluation}
use live_auto_trading.Risk.State.{RiskEngineState, RiskContext, Settings}
use live_auto_trading.Risk.Gates.{contains}
use live_auto_trading.Risk.Engine.{evaluated, add_key, pruned, record_acceptance, evaluate}
use live_auto_trading.Risk.Refusals.{IsRefusal}

pub contains-add_key : (k : String) (ks : List String) → contains k (add_key k ks) ≡ true
contains-add_key k ks = elim (Bool-cases (contains k ks)) [
  | inl e ↦ rw e e
  | inr e ↦ rw (e, (string_key.decides k k).1 refl)
]

pub evaluate_once :
    (settings settings' : Settings) (r r' : OrderRequest) (context context' : RiskContext)
    (t u t' u' : ℕ) (s : RiskEngineState) {s1 s2 : RiskEngineState} {e e' : RiskEvaluation}
    {q : Decimal}
    → r'.idempotency_key ≡ r.idempotency_key
    → evaluate settings r context t u s ≡ (evaluated e, s1)
    → e.approved_quantity ≡ some q
    → evaluate settings' r' context' t' u' s1 ≡ (evaluated e', s2)
    → e'.approved_quantity ≡ none
unfolding record_acceptance
evaluate_once settings settings' r r' context context' t u t' u' s {s1} {s2} {e} {e'} same first
      approves second =
    after (subst (Decides settings context s t u r) first (evaluate_cases settings r context t u s))
      (subst (Decides settings' context' s1 t' u' r') second
        (evaluate_cases settings' r' context' t' u' s1))
  where
    seen :
        s1 ≡ record_acceptance r.idempotency_key u (pruned u s)
        → contains r'.idempotency_key s1.seen_idempotency_keys ≡ true
    seen e = rw (e, same) (contains-add_key r.idempotency_key s.seen_idempotency_keys)

    after :
        IsAccepted settings context s t u r e s1 ⊎ (IsRefusal e × IsUnrecorded u s s1)
        → IsAccepted settings' context' s1 t' u' r' e' s2 ⊎ (IsRefusal e' × IsUnrecorded u' s1 s2)
        → e'.approved_quantity ≡ none
    after (inr (refusal, _)) later = absurd (none-ne-some _ (sym refusal.nothing ∙ approves))
    after (inl a) (inr (refusal, _)) = refusal.nothing
    after (inl a) (inl b) = absurd (false≢true (sym b.cleared.unseen ∙ seen a.recorded))
