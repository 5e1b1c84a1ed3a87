-- ===== src/Risk/Gates.antt =====
-- The checks of `RiskEngine.evaluate` up to the order frequency, and `_check_live_gating`.
use live_auto_trading.Prelude.{
  is_empty, ℕ, ◌+◌, ◌*◌, String, string_key, ◌==◌, Bool, true, false, not, ◌&&◌, ◌||◌, Option, none,
  some, List, [], ◌∷◌, ltb,
}
use live_auto_trading.Decimal.{
  Decimal, zero, one, mul, div, lt, le, eq, max, to_integral_value, half_even, down, or_else,
}
use live_auto_trading.Domain.Enums.{OrderSide, OrderType, RiskReasonCode}
use live_auto_trading.Domain.Trading.{OrderRequest, Position}
use live_auto_trading.Risk.Check.{Check, go, reject_if, halt_if, or_fault, when, ◌>>=◌, ◌>>◌}
use live_auto_trading.Risk.State.{RiskEngineState, RiskContext, Settings, SymbolInfo}

-- `x in xs`
abbrev pub contains : String → List String → Bool
contains x [] = false
contains x (y ∷ ys) = x == y || contains x ys

-- `any(p.symbol == symbol and p.quantity > 0 for p in positions)`
unfoldable pub holds_long : String → List Position → Bool
holds_long symbol [] = false
holds_long symbol (p ∷ ps) =
    (p.symbol == symbol && not (le p.quantity zero)) || holds_long symbol ps

abbrev pub is_sell : OrderSide → Bool
is_sell OrderSide.buy = false
is_sell OrderSide.sell = true

abbrev pub is_limit : OrderType → Bool
is_limit OrderType.limit = true
is_limit _ = false

-- `order_type in (STOP_LOSS, TAKE_PROFIT)`
abbrev pub is_triggered : OrderType → Bool
is_triggered OrderType.stop_loss = true
is_triggered OrderType.take_profit = true
is_triggered _ = false

-- `price is None or price <= 0`
abbrev pub not_positive : Option Decimal → Bool
not_positive none = true
not_positive (some d) = le d zero

-- `mark is not None and mark <= 0`
abbrev pub bad_mark : Option Decimal → Bool
bad_mark none = false
bad_mark (some d) = le d zero

-- `x if x is not None else y`
abbrev pub first_known : {A : Type 0} → Option A → Option A → Option A
first_known none y = y
first_known (some x) y = some x

module _ (settings : Settings) (context : RiskContext) (s : RiskEngineState) where
  unfoldable pub kill_switch_on : Bool
  kill_switch_on = settings.kill_switch_enabled || context.kill_switch_enabled

  unfoldable pub is_live : Bool
  is_live = context.trading_mode == "live" || settings.trading_mode == "live"

  unfoldable pub check_live_gating : Check (Unit {0})
  check_live_gating = do
    reject_if (not (context.live_trading_enabled || settings.live_trading_enabled))
        RiskReasonCode.live_trading_disabled
    halt_if (context.kill_switch_enabled || settings.kill_switch_enabled)
        RiskReasonCode.kill_switch_active
    reject_if (not (context.has_exchange_credentials || settings.has_exchange_credentials))
        RiskReasonCode.invalid_credentials
    reject_if (not s.risk_engine_healthy) RiskReasonCode.risk_engine_unhealthy
    reject_if (not s.market_data_healthy) RiskReasonCode.market_data_unhealthy
    reject_if (not s.database_healthy) RiskReasonCode.database_unhealthy
    reject_if (not s.reconciliation_healthy) RiskReasonCode.reconciliation_unhealthy
    reject_if (not context.live_approval_valid) RiskReasonCode.invalid_live_approval

  -- the halts, and the gating of live mode
  unfoldable pub check_halts : Check (Unit {0})
  check_halts = do
    halt_if (not s.risk_engine_healthy) RiskReasonCode.risk_engine_unhealthy
    halt_if kill_switch_on RiskReasonCode.kill_switch_active
    halt_if s.circuit_breaker_open RiskReasonCode.circuit_breaker_open
    when is_live check_live_gating

  -- the symbol, the side and the leverage; a side is always one of the two that are supported
  unfoldable pub check_permissions : OrderRequest → Check (Unit {0})
  check_permissions request = do
    reject_if
        (not (is_empty settings.allowed_symbols)
          && not (contains request.symbol settings.allowed_symbols))
        RiskReasonCode.symbol_not_allowed
    reject_if
        (is_sell request.side
          && not request.reduce_only
          && not (holds_long request.symbol context.portfolio.open_positions))
        RiskReasonCode.short_selling_disabled
    reject_if (not (eq settings.default_leverage one)) RiskReasonCode.leverage_not_allowed

  unfoldable pub check_health : Check (Unit {0})
  check_health = do
    reject_if (not s.market_data_healthy) RiskReasonCode.market_data_unhealthy
    reject_if (not s.database_healthy) RiskReasonCode.database_unhealthy
    reject_if (not s.reconciliation_healthy) RiskReasonCode.reconciliation_unhealthy

  -- `context.market_data_ts or self.state.last_market_data_ts`, against the clock
  unfoldable pub is_stale : ℕ → Bool
  is_stale now = elim (first_known context.market_data_ts s.last_market_data_ts) [
    | none ↦ false
    | some ts ↦ ltb (ts + settings.market_data_stale_seconds * 1_000_000) now
  ]

  unfoldable pub check_fresh : ℕ → OrderRequest → Check (Unit {0})
  check_fresh now request = do
    reject_if (is_stale now) RiskReasonCode.data_stale
    reject_if (contains request.idempotency_key s.seen_idempotency_keys)
        RiskReasonCode.duplicate_order

  -- The checks on quantity and prices yield the price that the rest computes with.
  unfoldable pub check_prices : OrderRequest → Check Decimal
  check_prices request = do
    reject_if (le request.quantity zero) RiskReasonCode.invalid_quantity
    reject_if (is_limit request.order_type && not_positive request.price)
        RiskReasonCode.invalid_price
    reject_if
        (is_triggered request.order_type
          && not_positive (or_else request.price (or_else request.stop_loss request.take_profit)))
        RiskReasonCode.invalid_price
    reject_if (bad_mark context.mark_price) RiskReasonCode.invalid_price
    let price = first_known request.price context.mark_price
    reject_if (not_positive price) RiskReasonCode.invalid_price
    or_fault price

-- `step > 0` and the quantity is no multiple of the step
unfoldable pub check_step : Decimal → Decimal → Check (Unit {0})
check_step qty step = when (not (le step zero)) (do
  steps ← or_fault (div qty step)
  reject_if (not (eq (mul (to_integral_value down steps) step) qty))
      RiskReasonCode.precision_invalid)

-- the limit price is no multiple of the tick
unfoldable pub check_tick : Option Decimal → Decimal → Check (Unit {0})
check_tick none tick = go tt
check_tick (some price) tick = when (not (le tick zero)) (do
  ticks ← or_fault (div price tick)
  reject_if (not (eq ticks (to_integral_value half_even ticks))) RiskReasonCode.precision_invalid)

unfoldable pub check_size : Settings → OrderRequest → Decimal → Option SymbolInfo → Check (Unit {0})
check_size settings request price none =
    reject_if (lt (mul request.quantity price) settings.min_order_notional)
      RiskReasonCode.min_order_size
check_size settings request price (some info) = do
  check_step request.quantity info.step_size
  reject_if (lt request.quantity info.min_quantity) RiskReasonCode.min_order_size
  reject_if (lt (mul request.quantity price) (max info.min_notional settings.min_order_notional))
      RiskReasonCode.min_order_size
  check_tick request.price info.tick_size

-- everything up to the order frequency; it changes no state
unfoldable pub check_gates :
    Settings → RiskContext → RiskEngineState → ℕ → OrderRequest → Check Decimal
check_gates settings context s now request = do
  check_halts settings context s
  check_permissions settings context s request
  check_health settings context s
  check_fresh settings context s now request
  price ← check_prices settings context s request
  check_size settings request price context.symbol_info
  go price
