-- ===== src/Gateway/Submit.antt =====
-- `OrderGateway.submit`: the risk engine evaluates the order, and the backend, a paper engine, gets
-- what it lets through.
use live_auto_trading.Prelude.{ℕ, Option, some}
use live_auto_trading.Decimal.{Decimal}
use live_auto_trading.Domain.Enums.{OrderStatus, RiskDecision}
use live_auto_trading.Domain.Trading.{Order, OrderRequest, RiskEvaluation}
use live_auto_trading.Paper.State.{Engine}
use live_auto_trading.Paper.Action.{Result, ok, raised}
use live_auto_trading.Paper.Orders as paper
use live_auto_trading.Risk.State.{RiskEngineState, RiskContext, Settings}
use live_auto_trading.Risk.Engine as risk
use live_auto_trading.Risk.Engine.{Verdict}

-- the two components that a gateway holds
pub record OrderGateway : Type 0 where
  pub backend : Engine
  pub risk_engine : RiskEngineState

-- What `submit` does: it returns an order, raises `RiskBlockedError`, or lets an exception through.
pub data Outcome : Type 0 where
  submitted : Order → Outcome
  blocked : RiskEvaluation → Outcome
  failed : Outcome

-- The size of a REDUCED order is the approved one.
unfoldable pub resized : RiskDecision → Option Decimal → OrderRequest → OrderRequest
resized RiskDecision.reduced (some qty) request = record request { quantity = qty }
resized _ qty request = request

abbrev pub tagged_status : OrderStatus → OrderStatus
tagged_status OrderStatus.created = OrderStatus.approved
tagged_status status = status

-- the order that is returned, with the outcome of the evaluation on it
unfoldable pub tagged : RiskEvaluation → Order → Order
tagged e order = record order {
  risk_decision = some e.decision;
  risk_reason_code = some e.reason_code;
  status = tagged_status order.status;
}

abbrev pub outcome : RiskEvaluation → Result Order → Outcome
outcome e (ok order) = submitted (tagged e order)
outcome e (raised x) = failed

unfoldable pub send :
    OrderRequest → RiskEvaluation → RiskEngineState → Engine → Outcome × OrderGateway
send request e risk' backend =
    let (result, backend') =
      paper.submit (resized e.decision e.approved_quantity request) e backend in
    (outcome e result, record { backend = backend'; risk_engine = risk' })

unfoldable pub dispatch :
    RiskDecision → OrderRequest → RiskEvaluation → RiskEngineState → Engine → Outcome × OrderGateway
dispatch RiskDecision.rejected request e risk' backend =
    (blocked e, record { backend = backend; risk_engine = risk' })
dispatch RiskDecision.halted request e risk' backend =
    (blocked e, record { backend = backend; risk_engine = risk' })
dispatch RiskDecision.approved request e risk' backend = send request e risk' backend
dispatch RiskDecision.reduced request e risk' backend = send request e risk' backend

unfoldable pub judged : OrderRequest → Engine → Verdict × RiskEngineState → Outcome × OrderGateway
judged request backend (risk.evaluated e, risk') = dispatch e.decision request e risk' backend
judged request backend (risk.raised, risk') =
    (failed, record { backend = backend; risk_engine = risk' })

-- `checked_at` and `now` are the risk engine's two readings of the clock.
unfoldable pub submit :
    Settings → OrderRequest → RiskContext → ℕ → ℕ → OrderGateway → Outcome × OrderGateway
submit settings request context checked_at now g =
    judged request g.backend (risk.evaluate settings request context checked_at now g.risk_engine)
