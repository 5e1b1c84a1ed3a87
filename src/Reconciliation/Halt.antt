-- ===== src/Reconciliation/Halt.antt =====
-- The halt of trading by the reconciliation.
use live_auto_trading.Prelude.{ℕ, ◌≡◌, refl, sym, ◌∙◌, Bool, true, false, not, ◌&&◌, inl, inr, ◌⊎◌}
use mathlib.Core.Bool.{false≢true}
use live_auto_trading.Domain.Trading.{OrderRequest}
use live_auto_trading.Risk.State.{RiskContext, Settings}
use live_auto_trading.Gateway.Submit as gateway
use live_auto_trading.Gateway.Submit.{OrderGateway, Outcome, blocked, failed}
use live_auto_trading.Gateway.Safety.{IsSent, IsHeld, submit_cases}
use live_auto_trading.Reconciliation.Run.{
  ReconciliationResult, Desk, ReconciliationSettings, is_reconciliation_healthy, published,
  run_paper_reconciliation,
}

-- What a run publishes agrees: the flags are healthy exactly where the result is, the risk engine sees
-- the same, and the paper engine is as it was.
pub record IsPublished (d : Desk) (r : ReconciliationResult) (d' : Desk) : Type 0 where
  pub flags : is_reconciliation_healthy d'.flags ≡ r.healthy
  pub risk : d'.session.risk_engine.reconciliation_healthy ≡ r.healthy
  pub untouched : d'.session.backend ≡ d.session.backend

both : (b : Bool) → (b && not (not b)) ≡ b
both true = refl
both false = refl

-- Where it is enabled, a run reports the same health to its result, to its flags and to the risk engine,
-- and does not touch the ledger.
pub run-IsPublished :
    (settings : ReconciliationSettings) (d : Desk)
    → settings.enable_reconciliation ≡ true
    → IsPublished d (run_paper_reconciliation settings d).0 (run_paper_reconciliation settings d).1
unfolding run_paper_reconciliation published
run-IsPublished settings d enabled =
    rw enabled (record { flags = both _; risk = refl; untouched = refl })

-- Fail closed: after an enabled run that is not healthy, no order reaches the paper engine, whatever it
-- is, whatever the settings, the context and the clock: the caller gets a refusal or an exception.
pub run_halts :
    (settings : ReconciliationSettings) (d : Desk) (risk : Settings) (r : OrderRequest)
    (context : RiskContext) (t u : ℕ)
    → settings.enable_reconciliation ≡ true
    → (run_paper_reconciliation settings d).0.healthy ≡ false
    → IsHeld risk context t u r
        (run_paper_reconciliation settings d).1.session
        (gateway.submit risk r context t u (run_paper_reconciliation settings d).1.session).0
        (gateway.submit risk r context t u (run_paper_reconciliation settings d).1.session).1
run_halts settings d risk r context t u enabled sick =
    held (submit_cases risk r context t u (run_paper_reconciliation settings d).1.session)
  where
    held :
        {o : Outcome} {g : OrderGateway}
        → IsSent risk context t u r (run_paper_reconciliation settings d).1.session o g
          ⊎ IsHeld risk context t u r (run_paper_reconciliation settings d).1.session o g
        → IsHeld risk context t u r (run_paper_reconciliation settings d).1.session o g
    held (inl sent) = absurd (
        false≢true (
          sym sick
          ∙ (sym (run-IsPublished settings d enabled).risk ∙ sent.accepted.cleared.reconciliation)))
    held (inr h) = h
