-- ===== src/Domain/Trading.antt =====
-- The records of app/models/domain/trading.py. Timestamps that nothing computes with,
-- `client_order_id` and `fee_asset` are left out; ids are the 128-bit numbers behind
-- `uuid4().hex`.
use live_auto_trading.Prelude.{ℕ, String, Bool, Option, List}
use live_auto_trading.Decimal.{Decimal}
use live_auto_trading.Domain.Enums.{
  SignalDirection, OrderSide, OrderType, OrderStatus, RiskDecision, RiskReasonCode,
}

-- the values of `metadata["error"]`
pub data OrderError : Type 0 where
  insufficient_for_reserve insufficient_liquidity no_mark no_stop_trigger no_tp_trigger : OrderError
  insufficient no_position : OrderError

-- The keys of an order's metadata dict that the code reads, typed: amounts stand for their `str`,
-- which `Decimal(str(...))` reads back exactly, and `reservation_open` for the test on "true".
pub record Metadata : Type 0 where
  pub reserved_notional : Option Decimal
  pub reserved_remaining : Option Decimal
  pub reservation_open : Bool
  pub error : Option OrderError
  pub exit_pair_id : Option String

pub record OrderRequest : Type 0 where
  pub symbol : String
  pub side : OrderSide
  pub order_type : OrderType
  pub quantity : Decimal
  pub price : Option Decimal
  pub stop_loss : Option Decimal
  pub take_profit : Option Decimal
  pub strategy_name : Option String
  pub signal_id : Option String
  pub idempotency_key : String
  pub reduce_only : Bool
  pub metadata : Metadata

pub record RiskEvaluation : Type 0 where
  pub decision : RiskDecision
  pub reason_code : RiskReasonCode
  pub approved_quantity : Option Decimal

pub record Order : Type 0 where
  pub id : ℕ
  pub idempotency_key : String
  pub symbol : String
  pub side : OrderSide
  pub order_type : OrderType
  pub quantity : Decimal
  pub filled_quantity : Decimal
  pub price : Option Decimal
  pub average_fill_price : Option Decimal
  pub status : OrderStatus
  pub strategy_name : Option String
  pub signal_id : Option String
  pub risk_decision : Option RiskDecision
  pub risk_reason_code : Option RiskReasonCode
  pub fees : Decimal
  pub metadata : Metadata

pub record Fill : Type 0 where
  pub id : ℕ
  pub order_id : ℕ
  pub symbol : String
  pub side : OrderSide
  pub quantity : Decimal
  pub price : Decimal
  pub fee : Decimal

pub record Position : Type 0 where
  pub symbol : String
  pub quantity : Decimal
  pub entry_price : Decimal
  pub current_price : Decimal
  pub unrealized_pnl : Decimal
  pub realized_pnl : Decimal
  pub strategy_name : Option String
  pub stop_loss : Option Decimal
  pub take_profit : Option Decimal

pub record PortfolioState : Type 0 where
  pub cash_balance : Decimal
  pub equity : Decimal
  pub daily_pnl : Decimal
  pub peak_equity : Decimal
  pub drawdown : Decimal
  pub open_positions : List Position
  pub consecutive_losses : ℕ

-- The rationale and the timestamps, which nothing computes with, are left out.
pub record TradeSignal : Type 0 where
  pub strategy_name : String
  pub symbol : String
  pub direction : SignalDirection
  pub confidence : Decimal
  pub suggested_entry : Option Decimal
  pub suggested_stop : Option Decimal
  pub suggested_target : Option Decimal
  pub input_data_fingerprint : String
