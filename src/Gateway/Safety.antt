-- ===== src/Gateway/Safety.antt =====
-- The calls that the order gateway makes of the paper engine.
use live_auto_trading.Prelude.{ℕ, ◌≡◌, refl, sym, ◌∙◌, ◌⊎◌, inl, inr, Bool, true}
use mathlib.Core.Path.{subst}
use mathlib.Core.Bool.{false≢true}
use live_auto_trading.Domain.Trading.{Order, OrderRequest, RiskEvaluation}
use live_auto_trading.Paper.State.{Engine}
use live_auto_trading.Paper.Action.{Result}
use live_auto_trading.Paper.Orders as paper
use live_auto_trading.Paper.Keeps.{IsSound}
use live_auto_trading.Paper.FillingSound.{Covers}
use live_auto_trading.Paper.OrdersSound.{submit-IsSound}
use live_auto_trading.Risk.State.{RiskEngineState, RiskContext, Settings}
use live_auto_trading.Risk.Limits.{Sized}
use live_auto_trading.Risk.Gates.{contains}
use live_auto_trading.Risk.Engine as risk
use live_auto_trading.Risk.Engine.{Verdict, approval}
use live_auto_trading.Risk.Refusals.{IsRefusal, IsSizing}
use live_auto_trading.Risk.Accepted.{IsAccepted, IsUnrecorded, Decides, evaluate_cases}
use live_auto_trading.Risk.Safety.{contains-add_key}
use live_auto_trading.Gateway.Submit.{
  OrderGateway, Outcome, submitted, blocked, failed, outcome, resized, send, dispatch, judged,
  submit,
}

-- The order as it is sent on, at the approved size.
abbrev pub approved_order : OrderRequest → Sized → OrderRequest
approved_order r sized = record r { quantity = sized.approved_qty }

module _ (settings : Settings) (context : RiskContext) (checked_at now : ℕ) (r : OrderRequest)
    (g : OrderGateway) where
  -- The risk engine has accepted the order, and the backend was called with it at that size.
  pub record IsSent (o : Outcome) (g' : OrderGateway) : Type 0 where
    pub evaluation : RiskEvaluation
    pub accepted :
        IsAccepted settings context g.risk_engine checked_at now r evaluation g'.risk_engine
    pub result : Result Order
    pub called :
        paper.submit (approved_order r accepted.sized) evaluation g.backend ≡ (result, g'.backend)
    pub returned : o ≡ outcome evaluation result

  -- The backend was not called, and the risk engine has recorded no order.
  pub record IsHeld (o : Outcome) (g' : OrderGateway) : Type 0 where
    pub untouched : g'.backend ≡ g.backend
    pub unrecorded : IsUnrecorded now g.risk_engine g'.risk_engine
    pub refused : (o ≡ failed) ⊎ ((e : RiskEvaluation) × (o ≡ blocked e) × IsRefusal e)

  abbrev pub Comes : Outcome × OrderGateway → Type 0
  Comes (o, g') = IsSent o g' ⊎ IsHeld o g'

dispatch_sized :
    (r : OrderRequest) (sized : Sized) (risk' : RiskEngineState) (backend : Engine)
    → IsSizing r.quantity sized
    → dispatch sized.decision r (approval sized) risk' backend ≡ (
        let s = paper.submit (approved_order r sized) (approval sized) backend in
        (outcome (approval sized) s.0, record { backend = s.1; risk_engine = risk' }))
unfolding dispatch send resized
dispatch_sized r sized risk' backend (inl (d, q)) = rw (d, q) refl
dispatch_sized r sized risk' backend (inr d) = rw d refl

dispatch_refused :
    (r : OrderRequest) (e : RiskEvaluation) (risk' : RiskEngineState) (backend : Engine)
    → IsRefusal e
    → dispatch e.decision r e risk' backend
      ≡ (blocked e, record { backend = backend; risk_engine = risk' })
unfolding dispatch
dispatch_refused r e risk' backend refusal = elim refusal.decision [
  | inl d ↦ rw d refl
  | inr d ↦ rw d refl
]

judged-Comes :
    (settings : Settings) (context : RiskContext) (checked_at now : ℕ) (r : OrderRequest)
    (g : OrderGateway) (v : Verdict × RiskEngineState)
    → Decides settings context g.risk_engine checked_at now r v
    → Comes settings context checked_at now r g (judged r g.backend v)
unfolding judged
judged-Comes settings context checked_at now r g (risk.raised, risk') unrecorded =
    inr (record { untouched = refl; unrecorded = unrecorded; refused = inl refl })
judged-Comes settings context checked_at now r g (risk.evaluated e, risk')
      (inr (refusal, unrecorded)) =
    subst (Comes settings context checked_at now r g)
      (sym (dispatch_refused r e risk' g.backend refusal))
      (inr (record { untouched = refl; unrecorded = unrecorded; refused = inr (e, refl, refusal) }))
judged-Comes settings context checked_at now r g (risk.evaluated e, risk') (inl a) =
    subst
      (λ e'. Comes settings context checked_at now r g (dispatch e'.decision r e' risk' g.backend))
      (sym a.evaluation)
      (subst (Comes settings context checked_at now r g)
        (sym (dispatch_sized r a.sized risk' g.backend a.sizing))
        (inl (record {
          evaluation = approval a.sized;
          accepted = record {
            price = a.price;
            sized = a.sized;
            cleared = a.cleared;
            covered = a.covered;
            within = a.within;
            sizing = a.sizing;
            evaluation = refl;
            recorded = a.recorded;
          };
          result = (paper.submit (approved_order r a.sized) (approval a.sized) g.backend).0;
          called = refl;
          returned = refl;
        })))

-- Every order comes to one of two ends. Either the risk engine has accepted it, and the paper engine
-- was called with the order at exactly the size that was approved; or the paper engine is untouched,
-- no key was recorded, and the caller gets the refusal or an exception, never an order.
pub submit_cases :
    (settings : Settings) (r : OrderRequest) (context : RiskContext) (checked_at now : ℕ)
    (g : OrderGateway)
    → Comes settings context checked_at now r g (submit settings r context checked_at now g)
unfolding submit
submit_cases settings r context checked_at now g =
    judged-Comes settings context checked_at now r g
      (risk.evaluate settings r context checked_at now g.risk_engine)
      (evaluate_cases settings r context checked_at now g.risk_engine)

submitted-IsSent :
    (settings : Settings) (r : OrderRequest) (context : RiskContext) (checked_at now : ℕ)
    (g g' : OrderGateway) (o : Order)
    → Comes settings context checked_at now r g (submitted o, g')
    → IsSent settings context checked_at now r g (submitted o) g'
submitted-IsSent settings r context checked_at now g g' o (inl sent) = sent
submitted-IsSent settings r context checked_at now g g' o (inr held) = elim held.refused [
  | inl h ↦ cc
  | inr (e, h, _) ↦ cc
]

pub submit_once :
    (settings settings' : Settings) (r r' : OrderRequest) (context context' : RiskContext)
    (t u t' u' : ℕ) (g : OrderGateway) {g1 g2 : OrderGateway} {o : Order} {end : Outcome}
    → r'.idempotency_key ≡ r.idempotency_key
    → submit settings r context t u g ≡ (submitted o, g1)
    → submit settings' r' context' t' u' g1 ≡ (end, g2)
    → g2.backend ≡ g1.backend
unfolding risk.record_acceptance
submit_once settings settings' r r' context context' t u t' u' g {g1} {g2} {o} {end} same first
      second =
    after (
      subst (Comes settings' context' t' u' r' g1) second
        (submit_cases settings' r' context' t' u' g1))
  where
    sent : IsSent settings context t u r g (submitted o) g1
    sent =
        submitted-IsSent settings r context t u g g1 o
          (subst (Comes settings context t u r g) first (submit_cases settings r context t u g))

    seen : contains r'.idempotency_key g1.risk_engine.seen_idempotency_keys ≡ true
    seen =
        rw (sent.accepted.recorded, same)
          (contains-add_key r.idempotency_key g.risk_engine.seen_idempotency_keys)

    after :
        IsSent settings' context' t' u' r' g1 end g2 ⊎ IsHeld settings' context' t' u' r' g1 end g2
        → g2.backend ≡ g1.backend
    after (inl again) = absurd (false≢true (sym again.accepted.cleared.unseen ∙ seen))
    after (inr held) = held.untouched

-- The gateway keeps the ledger of the paper engine sound, whatever the order, the settings and the
-- context, and also where it raises; for a buy the available cash does not go negative either.
pub gateway-IsSound :
    (solvent : Bool) (settings : Settings) (r : OrderRequest) (context : RiskContext)
    (checked_at now : ℕ) (g : OrderGateway)
    → Covers solvent r.side
    → IsSound solvent g.backend
    → IsSound solvent (submit settings r context checked_at now g).1.backend
gateway-IsSound solvent settings r context checked_at now g c h =
    after (submit settings r context checked_at now g)
      (submit_cases settings r context checked_at now g)
  where
    after :
        (end : Outcome × OrderGateway)
        → Comes settings context checked_at now r g end
        → IsSound solvent end.1.backend
    after (o, g') (inl sent) =
        subst (λ p. IsSound solvent p.1) sent.called
          (submit-IsSound solvent (approved_order r sent.accepted.sized) sent.evaluation g.backend c
            h)
    after (o, g') (inr held) = subst (IsSound solvent) (sym held.untouched) h
