-- ===== src/Domain/Enums.antt =====
-- The enumerations of app/models/domain/enums.py.
pub data SignalDirection : Type 0 where
  buy sell hold exit : SignalDirection

pub data OrderSide : Type 0 where
  buy sell : OrderSide

pub data OrderType : Type 0 where
  market limit stop_loss take_profit : OrderType

pub data OrderStatus : Type 0 where
  created risk_pending approved submitted partially_filled filled rejected cancelled expired
        failed :
      OrderStatus

pub data RiskDecision : Type 0 where
  approved rejected reduced halted : RiskDecision

pub data RiskReasonCode : Type 0 where
  ok kill_switch_active live_trading_disabled live_gating_incomplete data_stale duplicate_order :
      RiskReasonCode
  invalid_price invalid_quantity min_order_size precision_invalid max_risk_per_trade :
      RiskReasonCode
  max_position_exposure max_portfolio_exposure max_open_positions daily_loss_limit_reached :
      RiskReasonCode
  max_drawdown_reached max_consecutive_losses max_order_frequency circuit_breaker_open :
      RiskReasonCode
  risk_engine_unhealthy market_data_unhealthy database_unhealthy reconciliation_unhealthy :
      RiskReasonCode
  invalid_credentials invalid_live_approval news_extreme_uncertainty size_reduced_by_news :
      RiskReasonCode
  size_reduced_by_risk symbol_not_allowed short_selling_disabled leverage_not_allowed :
      RiskReasonCode
  unsupported_side insufficient_balance order_cooldown stop_loss_required min_reward_risk :
      RiskReasonCode
  daily_trade_limit : RiskReasonCode
