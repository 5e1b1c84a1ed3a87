-- ===== src/Orchestrator/Acting.antt =====
-- `_act_on_signal`: from a signal to an order at the gateway, and what is recorded of it.
use live_auto_trading.Prelude.{
  ℕ, nat_key, string_key, ◌+◌, String, Bool, true, false, ◌||◌, not, Option, none, some, List, [],
  ◌∷◌, if◌then◌else◌, nat_beq,
}
use live_auto_trading.Integer.{pos}
use live_auto_trading.Decimal.{Decimal, zero, add, sub, mul, lt, le, quantize, half_even}
use live_auto_trading.Dict.{lookup, insert, erase}
use live_auto_trading.Domain.Enums.{
  SignalDirection, OrderSide, OrderType, OrderStatus, RiskDecision, RiskReasonCode,
}
use live_auto_trading.Domain.Market.{Candle}
use live_auto_trading.Domain.Trading.{
  Order, OrderRequest, Fill, Position, RiskEvaluation, TradeSignal,
}
use live_auto_trading.Paper.Resting.{no_metadata}
use live_auto_trading.Risk.State.{RiskContext}
use live_auto_trading.Risk.Gates.{contains}
use live_auto_trading.Gateway.Submit as gateway
use live_auto_trading.Gateway.Submit.{Outcome, submitted, blocked, failed}
use live_auto_trading.Accounting.Invariants.{has_id}
use live_auto_trading.Orchestrator.State.{
  Session, Surroundings, RejectedOrder, risk_entry, order_entry, rejected_entry, fill_entry,
}
use live_auto_trading.Orchestrator.Step.{
  Step, pure, gets, modify, or_raise, count, record_entry, ◌>>=◌, ◌>>◌,
}
use live_auto_trading.Orchestrator.Portfolio.{portfolio_state, risk_context, entry_quantity}

-- what a signal asks for
pub record Plan : Type 0 where
  pub side : OrderSide
  pub quantity : Decimal
  pub stop_loss : Option Decimal
  pub take_profit : Option Decimal
  pub reduce_only : Bool

abbrev pub tight : Decimal
tight = record { coeff = pos 999; places = 3 }

unfoldable pub entry_plan :
    Session → Decimal → Decimal → TradeSignal → Option Position → Option (Option Plan)
entry_plan session cash mark signal (some p) = some none
entry_plan session cash mark signal none = sized (entry_quantity session cash mark)
  where
    sized : Option Decimal → Option (Option Plan)
    sized none = none
    sized (some quantity) = some (
        some (record {
          side = OrderSide.buy;
          quantity = quantity;
          stop_loss = signal.suggested_stop;
          take_profit = signal.suggested_target;
          reduce_only = false;
        }))

unfoldable pub exit_plan : Decimal → Option Position → Option (Option Plan)
exit_plan mark none = some none
exit_plan mark (some p) = stopped (quantize 2 half_even (mul mark tight))
  where
    stopped : Option Decimal → Option (Option Plan)
    stopped none = none
    stopped (some stop) = some (
        some (record {
          side = OrderSide.sell;
          quantity = p.quantity;
          stop_loss = some stop;
          take_profit = none;
          reduce_only = true;
        }))

-- `none` is an exception, `some none` the early return.
unfoldable pub plan_for :
    Session
    → Decimal
    → Decimal
    → TradeSignal
    → SignalDirection
    → Option Position
    → Option (Option Plan)
plan_for session cash mark signal SignalDirection.buy held =
    entry_plan session cash mark signal held
plan_for session cash mark signal _ held = exit_plan mark held

-- an order that was placed, or one that the risk engine refused
pub data Acted : Type 0 where
  placed : Order → Acted
  refused : RejectedOrder → Acted

abbrev pub request_for : Session → Candle → SignalDirection → Plan → OrderRequest
request_for session candle direction p = record {
  symbol = candle.symbol;
  side = p.side;
  order_type = OrderType.market;
  quantity = p.quantity;
  price = none;
  stop_loss = p.stop_loss;
  take_profit = p.take_profit;
  strategy_name = some session.strategy.name;
  signal_id = none;
  idempotency_key = session.client_order_id candle direction;
  reduce_only = p.reduce_only;
  metadata = no_metadata;
}

abbrev pub rejected_order : OrderRequest → RiskEvaluation → RejectedOrder
rejected_order request e = record {
  idempotency_key = request.idempotency_key;
  symbol = request.symbol;
  side = request.side;
  order_type = request.order_type;
  quantity = request.quantity;
  price = request.price;
  strategy_name = request.strategy_name;
  risk_decision = e.decision;
  risk_reason_code = e.reason_code;
}

abbrev pub or_approved : Option RiskDecision → RiskDecision
or_approved none = RiskDecision.approved
or_approved (some d) = d

abbrev pub or_ok : Option RiskReasonCode → RiskReasonCode
or_ok none = RiskReasonCode.ok
or_ok (some c) = c

-- the evaluation as it is rebuilt for the journal
abbrev pub evaluation_of : Order → RiskEvaluation
evaluation_of order = record {
  decision = or_approved order.risk_decision;
  reason_code = or_ok order.risk_reason_code;
  approved_quantity = some order.quantity;
}

-- `_journal_new_fills`: each fill of the order is recorded once.
unfoldable pub journal_fill : Session → Fill → Step (Unit {0})
journal_fill session fill = do
  modify (λ o. record o { journaled_fill_ids = fill.id ∷ o.journaled_fill_ids })
  count (λ s. record s { fills = s.fills + 1; fees = add s.fees fill.fee })
  record_entry session (fill_entry fill)

unfoldable pub journal_if_new : Session → ℕ → Fill → Step (Unit {0})
journal_if_new session order_id fill = do
  ids ← gets (λ o. o.journaled_fill_ids)
  (if not (nat_beq fill.order_id order_id) || has_id fill.id ids
      then pure tt
      else journal_fill session fill)

unfoldable pub journal_new_fills : Session → ℕ → List Fill → Step (Unit {0})
journal_new_fills session order_id [] = pure tt
journal_new_fills session order_id (fill ∷ fills) = do
  journal_if_new session order_id fill
  journal_new_fills session order_id fills

abbrev pub is_executed : OrderStatus → Bool
is_executed OrderStatus.filled = true
is_executed OrderStatus.partially_filled = true
is_executed _ = false

-- the consecutive losses after a sale
unfoldable pub losses_after : Decimal → ℕ → ℕ
losses_after delta losses =
    if lt delta zero then losses + 1 else if lt zero delta then 0 else losses

-- `_record_performance_trade`, up to the recorder
unfoldable pub record_trade : Surroundings → Step (Unit {0})
record_trade at = do _ ← portfolio_state; or_raise (if at.recorder_returns then some tt else none)

unfoldable pub after_execution : Surroundings → String → OrderSide → Decimal → Step (Unit {0})
after_execution at symbol OrderSide.buy before =
    modify (λ o. record o { bars_held = insert symbol 0 o.bars_held })
after_execution at symbol OrderSide.sell before = do
  realized ← gets (λ o. o.gateway.backend.realized_pnl)
  modify (λ o. record o {
    consecutive_losses = losses_after (sub realized before) o.consecutive_losses;
    bars_held = erase symbol o.bars_held;
  })
  record_trade at

unfoldable pub after_submit :
    Session → Surroundings → OrderRequest → Decimal → Outcome → Step (Option Acted)
after_submit session at request before (submitted order) = do
  count (λ s. record s { risk_approvals = s.risk_approvals + 1; paper_orders = s.paper_orders + 1 })
  record_entry session (risk_entry request.idempotency_key (evaluation_of order))
  record_entry session (order_entry order)
  fills ← gets (λ o. o.gateway.backend.fills)
  journal_new_fills session order.id fills
  (if is_executed order.status
      then after_execution at request.symbol request.side before
      else pure tt)
  pure (some (placed order))
after_submit session at request before (blocked e) = do
  count (λ s. record s { risk_rejections = s.risk_rejections + 1 })
  record_entry session (risk_entry request.idempotency_key e)
  record_entry session (rejected_entry (rejected_order request e))
  pure (some (refused (rejected_order request e)))
after_submit session at request before failed = or_raise none

-- the call of the gateway
unfoldable pub submit : Session → Surroundings → OrderRequest → RiskContext → Step Outcome
submit session at request context o =
    let (outcome, g) =
      gateway.submit session.settings request context at.checked_at at.submitted_at o.gateway in
    (some outcome, record o { gateway = g })

unfoldable pub place : Session → Surroundings → Candle → TradeSignal → Plan → Step (Option Acted)
place session at candle signal p = do
  modify (λ o. record o { seen_signal_fps = signal.input_data_fingerprint ∷ o.seen_signal_fps })
  context ← risk_context session at candle.close
  before ← gets (λ o. o.gateway.backend.realized_pnl)
  outcome ← submit session at (request_for session candle signal.direction p) context
  after_submit session at (request_for session candle signal.direction p) before outcome

unfoldable pub carry_out :
    Session → Surroundings → Candle → TradeSignal → Option Plan → Step (Option Acted)
carry_out session at candle signal none = pure none
carry_out session at candle signal (some p) =
    if le p.quantity zero || at.trading_paused then pure none else place session at candle signal p

unfoldable pub act_on_signal : Session → Surroundings → Candle → TradeSignal → Step (Option Acted)
act_on_signal session at candle signal = do
  fps ← gets (λ o. o.seen_signal_fps)
  s ← gets (λ o. o.gateway.backend)
  (if contains signal.input_data_fingerprint fps then pure none else (do
    p ← or_raise (
        plan_for session s.cash candle.close signal signal.direction
          (lookup candle.symbol s.positions))
    carry_out session at candle signal p))
