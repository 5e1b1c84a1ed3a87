-- ===== src/Risk/State.antt =====
-- `RiskEngineState`, `RiskContext`, `SymbolInfo`, and the settings that the risk engine reads.
-- Instants are microseconds since the epoch, in UTC, so that `ensure_utc` changes nothing.
use live_auto_trading.Prelude.{ℕ, String, Bool, Option, List}
use live_auto_trading.Decimal.{Decimal}
use live_auto_trading.Domain.Trading.{PortfolioState}

pub record RiskEngineState : Type 0 where
  pub recent_order_times : List ℕ
  pub seen_idempotency_keys : List String
  pub circuit_breaker_open : Bool
  pub circuit_breaker_reason : String
  pub risk_engine_healthy : Bool
  pub market_data_healthy : Bool
  pub database_healthy : Bool
  pub reconciliation_healthy : Bool
  pub last_market_data_ts : Option ℕ

pub record SymbolInfo : Type 0 where
  pub min_quantity : Decimal
  pub min_notional : Decimal
  pub tick_size : Decimal
  pub step_size : Decimal

pub record RiskContext : Type 0 where
  pub portfolio : PortfolioState
  pub symbol_info : Option SymbolInfo
  pub mark_price : Option Decimal
  pub market_data_ts : Option ℕ
  pub trading_mode : String
  pub live_trading_enabled : Bool
  pub kill_switch_enabled : Bool
  pub has_exchange_credentials : Bool
  pub live_approval_valid : Bool

pub record Settings : Type 0 where
  pub trading_mode : String
  pub live_trading_enabled : Bool
  pub kill_switch_enabled : Bool
  pub has_exchange_credentials : Bool
  pub allowed_symbols : List String
  pub default_leverage : Decimal
  pub market_data_stale_seconds : ℕ
  pub order_cooldown_seconds : ℕ
  pub max_risk_per_trade : Decimal
  pub max_position_exposure : Decimal
  pub max_portfolio_exposure : Decimal
  pub max_open_positions : ℕ
  pub max_daily_loss : Decimal
  pub max_drawdown : Decimal
  pub max_consecutive_losses : ℕ
  pub max_orders_per_minute : ℕ
  pub min_order_notional : Decimal
