-- ===== src/Orchestrator/State.antt =====
-- The state of `TradingOrchestrator`, `OrchestratorStats` and `CandleOutcome`. The paper engine and the
-- risk engine are those that the gateway holds. A journal is the list of what was written to it.
use live_auto_trading.Prelude.{ℕ, String, Bool, Option, List, []}
use live_auto_trading.Decimal.{Decimal, zero}
use live_auto_trading.Dict.{Dict}
use live_auto_trading.Domain.Enums.{
  SignalDirection, OrderStatus, OrderSide, OrderType, RiskDecision, RiskReasonCode,
}
use live_auto_trading.Domain.Market.{Candle}
use live_auto_trading.Domain.Trading.{Order, Fill, RiskEvaluation, TradeSignal}
use live_auto_trading.Gateway.Submit.{OrderGateway}
use live_auto_trading.Risk.State.{Settings}
use live_auto_trading.Strategies.Base.{Strategy}

pub data RejectReason : Type 0 where
  incomplete_candle duplicate_candle out_of_order_candle stale_candle : RejectReason
  strategy_error : RejectReason

-- the id of an order that the engine made, or the key of one that was refused
pub data OrderId : Type 0 where
  by_uuid : ℕ → OrderId
  by_key : String → OrderId

-- what `_rejected_order` builds; its status is REJECTED
pub record RejectedOrder : Type 0 where
  pub idempotency_key : String
  pub symbol : String
  pub side : OrderSide
  pub order_type : OrderType
  pub quantity : Decimal
  pub price : Option Decimal
  pub strategy_name : Option String
  pub risk_decision : RiskDecision
  pub risk_reason_code : RiskReasonCode

-- the records of the journal
pub data Entry : Type 0 where
  candle_rejected : RejectReason → Entry
  strategy_raised : Entry
  signal_entry : TradeSignal → Option OrderId → Entry
  risk_entry : String → RiskEvaluation → Entry
  order_entry : Order → Entry
  rejected_entry : RejectedOrder → Entry
  fill_entry : Fill → Entry

pub record OrchestratorStats : Type 0 where
  pub candles_received : ℕ
  pub candles_rejected : ℕ
  pub signals_generated : ℕ
  pub hold_decisions : ℕ
  pub risk_approvals : ℕ
  pub risk_rejections : ℕ
  pub paper_orders : ℕ
  pub fills : ℕ
  pub fees : Decimal
  pub errors : ℕ

pub record CandleOutcome : Type 0 where
  pub accepted : Bool
  pub reject_reason : Option RejectReason
  pub signal_direction : Option SignalDirection
  pub order_id : Option OrderId
  pub order_status : Option OrderStatus
  pub risk_decision : Option RiskDecision
  pub risk_reason_code : Option RiskReasonCode

-- The fields that do not change. `client_order_id` formats the session, the candle and the direction
-- as `_client_order_id` does; `kill_switch_enabled` is the override of the session; `journal` is
-- whether there is one, and `writable` whether its n-th write succeeds.
pub record Session : Type 0 where
  pub strategy : Strategy
  pub settings : Settings
  pub entry_size_fraction : Decimal
  pub max_candle_age_seconds : Option ℕ
  pub kill_switch_enabled : Option Bool
  pub client_order_id : Candle → SignalDirection → String
  pub journal : Bool
  pub writable : ℕ → Bool

-- What a candle meets: the readings of the clock, in microseconds, whether the shared paper session of
-- the same ledger is paused, and whether the recorder of closed trades returns.
pub record Surroundings : Type 0 where
  pub judged_at : ℕ
  pub market_data_at : ℕ
  pub checked_at : ℕ
  pub submitted_at : ℕ
  pub trading_paused : Bool
  pub recorder_returns : Bool

pub record Orchestrator : Type 0 where
  pub gateway : OrderGateway
  pub stats : OrchestratorStats
  pub seen_candles : List (String × ℕ)
  pub last_open_time : Dict String ℕ
  pub seen_signal_fps : List String
  pub journaled_fill_ids : List ℕ
  pub bars_held : Dict String ℕ
  pub window : Dict String (List Candle)
  pub peak_equity : Decimal
  pub consecutive_losses : ℕ
  pub max_drawdown : Decimal
  pub journal : List Entry
  pub writes : ℕ

abbrev pub no_stats : OrchestratorStats
no_stats = record {
  candles_received = 0;
  candles_rejected = 0;
  signals_generated = 0;
  hold_decisions = 0;
  risk_approvals = 0;
  risk_rejections = 0;
  paper_orders = 0;
  fills = 0;
  fees = zero;
  errors = 0;
}

-- `__post_init__`
abbrev pub new_orchestrator : OrderGateway → Orchestrator
new_orchestrator gateway = record {
  gateway = gateway;
  stats = no_stats;
  seen_candles = [];
  last_open_time = [];
  seen_signal_fps = [];
  journaled_fill_ids = [];
  bars_held = [];
  window = [];
  peak_equity = gateway.backend.config.initial_cash;
  consecutive_losses = 0;
  max_drawdown = zero;
  journal = [];
  writes = 0;
}
