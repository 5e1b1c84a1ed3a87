-- ===== src/Risk/Engine.antt =====
-- `RiskEngine`: `evaluate` with the state that it changes, and the circuit breaker.
use live_auto_trading.Prelude.{ℕ, String, true, false, some, List, [], ◌∷◌, ◌++◌, if◌then◌else◌}
use live_auto_trading.Decimal.{Decimal}
use live_auto_trading.Domain.Trading.{OrderRequest, RiskEvaluation}
use live_auto_trading.Risk.Check.{Check, go, stop, fault}
use live_auto_trading.Risk.Gates.{contains, check_gates}
use live_auto_trading.Risk.Limits.{Sized, recent, check_limits}
use live_auto_trading.Risk.State.{RiskEngineState, RiskContext, Settings}

-- the evaluation that is returned, or the exception of `decimal`
pub data Verdict : Type 0 where
  evaluated : RiskEvaluation → Verdict
  raised : Verdict

abbrev pub approval : Sized → RiskEvaluation
approval sized = record {
  decision = sized.decision;
  reason_code = sized.reason;
  approved_quantity = some sized.approved_qty;
}

-- `self.state.seen_idempotency_keys.add(key)`
abbrev pub add_key : String → List String → List String
add_key key keys = if contains key keys then keys else key ∷ keys

abbrev pub pruned : ℕ → RiskEngineState → RiskEngineState
pruned now s = record s { recent_order_times = recent now s.recent_order_times }

unfoldable pub record_acceptance : String → ℕ → RiskEngineState → RiskEngineState
record_acceptance key now s = record s {
  seen_idempotency_keys = add_key key s.seen_idempotency_keys;
  recent_order_times = s.recent_order_times ++ now ∷ [];
}

unfoldable pub conclude :
    OrderRequest → ℕ → RiskEngineState → Check Sized → Verdict × RiskEngineState
conclude request now s (go sized) =
    (evaluated (approval sized), record_acceptance request.idempotency_key now s)
conclude request now s (stop e) = (evaluated e, s)
conclude request now s fault = (raised, s)

-- The gates have yielded a price: the order times are pruned, and the limits decide.
unfoldable pub weigh :
    Settings
    → RiskContext
    → ℕ
    → OrderRequest
    → RiskEngineState
    → Check Decimal
    → Verdict × RiskEngineState
weigh settings context now request s (go price) =
    let s' = pruned now s in
    conclude request now s' (check_limits settings context now s'.recent_order_times request price)
weigh settings context now request s (stop e) = (evaluated e, s)
weigh settings context now request s fault = (raised, s)

-- `evaluate`; `checked_at` and `now` are the two readings of the clock.
unfoldable pub evaluate :
    Settings → OrderRequest → RiskContext → ℕ → ℕ → RiskEngineState → Verdict × RiskEngineState
evaluate settings request context checked_at now s =
    weigh settings context now request s (check_gates settings context s checked_at request)

unfoldable pub open_circuit_breaker : String → RiskEngineState → RiskEngineState
open_circuit_breaker reason s = record s {
  circuit_breaker_open = true;
  circuit_breaker_reason = reason;
}

unfoldable pub close_circuit_breaker : RiskEngineState → RiskEngineState
close_circuit_breaker s = record s { circuit_breaker_open = false; circuit_breaker_reason = "" }
