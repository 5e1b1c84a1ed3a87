-- ===== src/Paper/Resting.antt =====
-- Orders that rest: `_try_trigger_resting`, `set_mark_price`, `cancel` and `expire`.
use live_auto_trading.Prelude.{
  ℕ, String, nat_key, string_key, ◌==◌, Bool, true, false, not, ◌||◌, Option, none, some, List, [],
  ◌∷◌, if◌then◌else◌,
}
use live_auto_trading.Decimal.{Decimal, zero, one, sub, mul, lt, le, quantize, down}
use live_auto_trading.Dict.{lookup, insert, values}
use live_auto_trading.Domain.Enums.{OrderSide, OrderType, OrderStatus, RiskDecision, RiskReasonCode}
use live_auto_trading.Domain.Trading.{Order, OrderRequest, Metadata, Position, RiskEvaluation}
use live_auto_trading.Paper.State.{order_cancelled, order_expired}
use live_auto_trading.Paper.Action.{
  Action, key_error, decimal_error, pure, gets, modify, or_raise, ◌>>=◌, ◌>>◌,
}
use live_auto_trading.Paper.Ledger.{places, log_event, release_buy_reservation}
use live_auto_trading.Paper.Filling.{is_limit, fill_price, apply_fill, conclude}
use live_auto_trading.Paper.Orders.{holds_back}

abbrev pub no_metadata : Metadata
no_metadata = record {
  reserved_notional = none;
  reserved_remaining = none;
  reservation_open = false;
  error = none;
  exit_pair_id = none;
}

-- `risk = RiskEvaluation(...)`, from what the order carries
unfoldable pub resting_risk : Order → Decimal → RiskEvaluation
resting_risk order remaining = record {
  decision = elim order.risk_decision [ some d ↦ d | none ↦ RiskDecision.approved ];
  reason_code = elim order.risk_reason_code [ some c ↦ c | none ↦ RiskReasonCode.ok ];
  approved_quantity = some remaining;
}

-- the synthetic request for the remaining quantity; nothing reads its idempotency key
unfoldable pub resting_request : Order → Decimal → OrderRequest
resting_request order remaining = record {
  symbol = order.symbol;
  side = order.side;
  order_type = order.order_type;
  quantity = remaining;
  price = order.price;
  stop_loss = none;
  take_profit = none;
  strategy_name = order.strategy_name;
  signal_id = none;
  idempotency_key = "resting";
  reduce_only = false;
  metadata = no_metadata;
}

-- `order.status in (SUBMITTED, PARTIALLY_FILLED)`
abbrev pub is_working : OrderStatus → Bool
is_working OrderStatus.submitted = true
is_working OrderStatus.partially_filled = true
is_working _ = false

-- The order is of a kind that rests, and the market has reached its price.
unfoldable pub is_reached : OrderType → OrderSide → Option Decimal → Decimal → Bool
is_reached OrderType.market side price mark = false
is_reached order_type side none mark = false
is_reached order_type side (some price) mark = not (holds_back order_type side mark price)

-- the quantity of one resting fill
unfoldable pub resting_quantity : Decimal → Decimal → Option Decimal
resting_quantity fraction remaining =
    if lt fraction one then quantize places down (mul remaining fraction) else some remaining

unfoldable pub fill_resting_of :
    Order → RiskEvaluation → Decimal → Decimal → Decimal → Action (Unit {0})
fill_resting_of order risk remaining price qty = if le qty zero then pure tt else do
  filled ← apply_fill order qty price risk (is_limit order.order_type)
  _ ← conclude filled risk qty remaining
  pure tt

unfoldable pub fill_resting : Decimal → Order → Decimal → Action (Unit {0})
fill_resting mark order remaining = do
  config ← gets (λ s. s.config)
  price ← or_raise decimal_error (fill_price config mark (resting_request order remaining))
  qty ← or_raise decimal_error (resting_quantity config.partial_fill_fraction remaining)
  fill_resting_of order (resting_risk order remaining) remaining price qty

unfoldable pub trigger_resting : String → Decimal → Order → Action (Unit {0})
trigger_resting symbol mark order =
    let remaining = sub order.quantity order.filled_quantity in
    if not (order.symbol == symbol)
      || not (is_working order.status)
      || le remaining zero
      || not (is_reached order.order_type order.side order.price mark)
    then pure tt
    else fill_resting mark order remaining

-- `for order in list(self.state.orders.values())`
unfoldable pub trigger_all : String → Decimal → List Order → Action (Unit {0})
trigger_all symbol mark [] = pure tt
trigger_all symbol mark (order ∷ rest) = do
  trigger_resting symbol mark order
  trigger_all symbol mark rest

unfoldable pub marked_position : Decimal → Position → Position
marked_position price p = record p {
  current_price = price;
  unrealized_pnl = mul (sub price p.entry_price) p.quantity;
}

unfoldable pub mark_position : String → Decimal → Option Position → Action (Unit {0})
mark_position symbol price none = pure tt
mark_position symbol price (some p) =
    modify (λ s. record s { positions = insert symbol (marked_position price p) s.positions })

unfoldable pub set_mark_price : String → Decimal → Action (Unit {0})
set_mark_price symbol price = do
  modify (λ s. record s {
    config = record s.config { mark_prices = insert symbol price s.config.mark_prices };
  })
  positions ← gets (λ s. s.positions)
  mark_position symbol price (lookup symbol positions)
  orders ← gets (λ s. s.orders)
  trigger_all symbol price (values orders)

-- the statuses that `cancel` ends
abbrev pub is_cancellable : OrderStatus → Bool
is_cancellable OrderStatus.created = true
is_cancellable OrderStatus.risk_pending = true
is_cancellable OrderStatus.approved = true
is_cancellable OrderStatus.submitted = true
is_cancellable OrderStatus.partially_filled = true
is_cancellable _ = false

-- the statuses that `expire` ends
abbrev pub is_expirable : OrderStatus → Bool
is_expirable OrderStatus.submitted = true
is_expirable OrderStatus.partially_filled = true
is_expirable OrderStatus.approved = true
is_expirable _ = false

unfoldable pub cancel_open : ℕ → Order → Action Order
cancel_open order_id order = do
  released ← release_buy_reservation order none
  let updated = record released { status = OrderStatus.cancelled }
  modify (λ s. record s { orders = insert order_id updated s.orders })
  log_event (order_cancelled order_id)
  pure updated

unfoldable pub cancel_order : ℕ → Order → Action Order
cancel_order order_id order =
    if is_cancellable order.status then cancel_open order_id order else pure order

unfoldable pub cancel : ℕ → Action Order
cancel order_id = do
  orders ← gets (λ s. s.orders)
  order ← or_raise key_error (lookup order_id orders)
  cancel_order order_id order

unfoldable pub expire_open : ℕ → Order → Action Order
expire_open order_id order = do
  released ← release_buy_reservation order none
  let updated = record released { status = OrderStatus.expired }
  modify (λ s. record s { orders = insert order_id updated s.orders })
  log_event (order_expired order_id)
  pure updated

unfoldable pub expire_order : ℕ → Order → Action Order
expire_order order_id order =
    if is_expirable order.status then expire_open order_id order else pure order

unfoldable pub expire : ℕ → Action Order
expire order_id = do
  orders ← gets (λ s. s.orders)
  order ← or_raise key_error (lookup order_id orders)
  expire_order order_id order
