-- ===== src/Risk/Tests.antt =====
-- Runs of the risk engine, and its theorems at concrete inputs.
use live_auto_trading.Prelude.{arith, ◌+◌, ◌<◌, ℕ, ◌≡◌, refl, true, false, none, some, [], ◌∷◌}
use live_auto_trading.Integer.{pos}
use live_auto_trading.Decimal.{Decimal, zero, one}
use live_auto_trading.Domain.Enums.{OrderSide, OrderType, RiskDecision, RiskReasonCode}
use live_auto_trading.Domain.Trading.{OrderRequest, PortfolioState, Metadata, RiskEvaluation}
use live_auto_trading.Risk.State.{RiskEngineState, RiskContext, Settings}
use live_auto_trading.Decimal
use live_auto_trading.Risk.Check.{rejection}
use live_auto_trading.Risk.Gates.{
  check_gates, check_halts, kill_switch_on, is_live, check_permissions, holds_long, check_health,
  check_fresh, is_stale, check_prices, check_size,
}
use live_auto_trading.Risk.Limits.{
  check_limits, check_rate, recent, cooling_down, check_losses, daily_loss, equity_of,
  open_notional, units_in, size_by_fraction, size_by_risk, cap_position, cap_portfolio, check_final,
}
use live_auto_trading.Risk.Engine.{evaluated, weigh, conclude, record_acceptance, evaluate}
use live_auto_trading.Risk.Accepted.{Decides, evaluate_cases}
use live_auto_trading.Risk.Safety.{evaluate_once}
use live_auto_trading.Risk.Rate.{Call, answer, approved_at, after, in_last_minute, evaluate_rate}

abbrev cents : ℕ → Decimal
cents n = record { coeff = pos n; places = 2 }

-- the defaults of `Settings`
abbrev pub settings : Settings
settings = record {
  trading_mode = "paper";
  live_trading_enabled = false;
  kill_switch_enabled = false;
  has_exchange_credentials = false;
  allowed_symbols = "BTC/USDT" ∷ [];
  default_leverage = one;
  market_data_stale_seconds = 30;
  order_cooldown_seconds = 0;
  max_risk_per_trade = cents 1;
  max_position_exposure = cents 20;
  max_portfolio_exposure = cents 80;
  max_open_positions = 3;
  max_daily_loss = cents 3;
  max_drawdown = cents 10;
  max_consecutive_losses = 5;
  max_orders_per_minute = 10;
  min_order_notional = cents 1000;
}

abbrev portfolio : PortfolioState
portfolio = record {
  cash_balance = cents 1000000;
  equity = cents 1000000;
  daily_pnl = zero;
  peak_equity = cents 1000000;
  drawdown = zero;
  open_positions = [];
  consecutive_losses = 0;
}

abbrev pub context : RiskContext
context = record {
  portfolio = portfolio;
  symbol_info = none;
  mark_price = some (cents 10000);
  market_data_ts = some 1_000_000;
  trading_mode = "paper";
  live_trading_enabled = false;
  kill_switch_enabled = false;
  has_exchange_credentials = false;
  live_approval_valid = false;
}

abbrev pub healthy : RiskEngineState
healthy = record {
  recent_order_times = [];
  seen_idempotency_keys = [];
  circuit_breaker_open = false;
  circuit_breaker_reason = "";
  risk_engine_healthy = true;
  market_data_healthy = true;
  database_healthy = true;
  reconciliation_healthy = true;
  last_market_data_ts = none;
}

abbrev no_metadata : Metadata
no_metadata = record {
  reserved_notional = none;
  reserved_remaining = none;
  reservation_open = false;
  error = none;
  exit_pair_id = none;
}

abbrev pub request : OrderRequest
request = record {
  symbol = "BTC/USDT";
  side = OrderSide.buy;
  order_type = OrderType.market;
  quantity = cents 200;
  price = none;
  stop_loss = none;
  take_profit = none;
  strategy_name = none;
  signal_id = none;
  idempotency_key = "k1";
  reduce_only = false;
  metadata = no_metadata;
}

abbrev evaluation : RiskEvaluation
evaluation = record {
  decision = RiskDecision.reduced;
  reason_code = RiskReasonCode.size_reduced_by_risk;
  approved_quantity = some (record { coeff = pos 100000000; places = 8 });
}

abbrev after_first : RiskEngineState
after_first = record healthy {
  recent_order_times = 2_000_001 ∷ [];
  seen_idempotency_keys = "k1" ∷ [];
}

abbrev duplicate : RiskEvaluation
duplicate = rejection RiskReasonCode.duplicate_order

-- Two units at 100 are more than 1% of 10000: the order is reduced to one unit.
first :
    evaluate settings request context 2_000_000 2_000_001 healthy
    ≡ (evaluated evaluation, after_first)
unfolding evaluate weigh conclude record_acceptance check_gates check_halts kill_switch_on is_live
    check_permissions holds_long check_health check_fresh is_stale check_prices check_size
    check_limits check_rate recent cooling_down check_losses daily_loss equity_of open_notional
    units_in size_by_fraction size_by_risk cap_position cap_portfolio check_final Decimal.add
    Decimal.sub Decimal.mul Decimal.div Decimal.lt Decimal.le Decimal.eq Decimal.quantize
    Decimal.sum_from Decimal.truthy
first = refl

second :
    evaluate settings request context 3_000_000 3_000_001 after_first
    ≡ (evaluated duplicate, after_first)
unfolding evaluate weigh check_gates check_halts kill_switch_on is_live check_permissions holds_long
    check_health check_fresh is_stale Decimal.eq
second = refl

evaluate_cases_example :
    Decides settings context healthy 2_000_000 2_000_001 request
      (evaluate settings request context 2_000_000 2_000_001 healthy)
evaluate_cases_example = evaluate_cases settings request context 2_000_000 2_000_001 healthy

evaluate_once_example : duplicate.approved_quantity ≡ none
evaluate_once_example =
    evaluate_once settings settings request request context context 2_000_000 2_000_001 3_000_000
      3_000_001 healthy refl first refl second

abbrev call : Call
call = record {
  settings = settings;
  request = request;
  context = context;
  checked_at = 2_000_000;
  now = 2_000_001;
}

-- another order, 18 seconds later
abbrev later : Call
later = record call {
  request = record request { idempotency_key = "k2" };
  checked_at = 20_000_000;
  now = 20_000_001;
}

abbrev after_second : RiskEngineState
after_second = record healthy {
  recent_order_times = 2_000_001 ∷ 20_000_001 ∷ [];
  seen_idempotency_keys = "k2" ∷ "k1" ∷ [];
}

later_accepted : answer later (after (call ∷ []) healthy) ≡ (evaluated evaluation, after_second)
unfolding after evaluate weigh conclude record_acceptance check_gates check_halts kill_switch_on
    is_live check_permissions holds_long check_health check_fresh is_stale check_prices check_size
    check_limits check_rate recent cooling_down check_losses daily_loss equity_of open_notional
    units_in size_by_fraction size_by_risk cap_position cap_portfolio check_final Decimal.add
    Decimal.sub Decimal.mul Decimal.div Decimal.lt Decimal.le Decimal.eq Decimal.quantize
    Decimal.sum_from Decimal.truthy
later_accepted = refl

evaluate_rate_example :
    in_last_minute 20_000_001 [] + in_last_minute 20_000_001 (approved_at (call ∷ []) healthy)
    < settings.max_orders_per_minute
evaluate_rate_example =
    evaluate_rate 0 (call ∷ []) healthy later (omega arith, omega arith) later_accepted refl
