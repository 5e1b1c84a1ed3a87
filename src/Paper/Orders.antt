-- ===== src/Paper/Orders.antt =====
-- Order entry of the paper engine: `submit`, with `place_order` for what follows the idempotency
-- check. `latency_ms` is 0, its default: nothing runs between the check and the entry of the key.
use live_auto_trading.Prelude.{
  ℕ, nat_key, string_key, ◌+◌, Bool, true, false, Option, none, some, if◌then◌else◌,
}
use live_auto_trading.Decimal.{Decimal, zero, lt, le, or_else, truthy}
use live_auto_trading.Dict.{lookup, insert}
use live_auto_trading.Domain.Enums.{OrderSide, OrderType, OrderStatus, RiskDecision}
use live_auto_trading.Domain.Trading.{
  Order, OrderRequest, OrderError, RiskEvaluation, insufficient_liquidity, no_mark, no_stop_trigger,
  no_tp_trigger,
}
use live_auto_trading.Paper.State.{order_created}
use live_auto_trading.Paper.Action.{Action, key_error, pure, gets, modify, or_raise, ◌>>=◌, ◌>>◌}
use live_auto_trading.Paper.Ledger.{
  log_event, store_order, update, reserve_price, reserve_buy, release_buy_reservation,
}
use live_auto_trading.Paper.Filling.{new_uuid, execute_fill}

unfoldable pub new_order : ℕ → OrderRequest → Order
new_order id request = record {
  id = id;
  idempotency_key = request.idempotency_key;
  symbol = request.symbol;
  side = request.side;
  order_type = request.order_type;
  quantity = request.quantity;
  filled_quantity = zero;
  price = request.price;
  average_fill_price = none;
  status = OrderStatus.risk_pending;
  strategy_name = request.strategy_name;
  signal_id = request.signal_id;
  risk_decision = none;
  risk_reason_code = none;
  fees = zero;
  metadata = request.metadata;
}

-- `risk.decision in (REJECTED, HALTED)`
abbrev pub is_refused : RiskDecision → Bool
is_refused RiskDecision.rejected = true
is_refused RiskDecision.halted = true
is_refused _ = false

-- The market has not reached the order's price.
unfoldable pub holds_back : OrderType → OrderSide → Decimal → Decimal → Bool
holds_back OrderType.market side mark trigger = false
holds_back OrderType.limit OrderSide.buy mark trigger = lt trigger mark
holds_back OrderType.limit OrderSide.sell mark trigger = lt mark trigger
holds_back OrderType.stop_loss OrderSide.buy mark trigger = lt mark trigger
holds_back OrderType.stop_loss OrderSide.sell mark trigger = lt trigger mark
holds_back OrderType.take_profit OrderSide.buy mark trigger = lt trigger mark
holds_back OrderType.take_profit OrderSide.sell mark trigger = lt mark trigger

-- The optional simulation of a lack of liquidity.
unfoldable pub roll_reject : Action Bool
roll_reject = do
  odds ← gets (λ s. s.config.reject_probability)
  if le odds zero then pure false else do
    roll ← gets (λ s. s.rolls s.rolled)
    modify (λ s. record s { rolled = s.rolled + 1 })
    pure (lt roll odds)

-- `risk.approved_quantity or request.quantity`
abbrev pub approved_or : Option Decimal → Decimal → Decimal
approved_or none qty = qty
approved_or (some d) qty = if truthy d then d else qty

-- Lock the notional of a BUY, where there is a price to lock it at.
unfoldable pub reserve_for :
    OrderSide → Order → OrderRequest → RiskEvaluation → Option Decimal → Action (Order × Bool)
reserve_for OrderSide.sell order request risk price = pure (order, true)
reserve_for OrderSide.buy order request risk none = pure (order, true)
reserve_for OrderSide.buy order request risk (some price) =
    reserve_buy order (approved_or risk.approved_quantity request.quantity) price risk

-- Fill the order, unless the market has not reached its trigger.
unfoldable pub fill_or_rest :
    Order → OrderRequest → RiskEvaluation → Decimal → Decimal → Action Order
fill_or_rest order request risk mark trigger =
    if holds_back request.order_type request.side mark trigger
    then pure order
    else execute_fill order request risk mark

unfoldable pub reject_order : Order → RiskEvaluation → OrderError → Action Order
reject_order order risk error = do
  released ← release_buy_reservation order none
  update released OrderStatus.rejected risk (some error)

-- A limit order without a price fills at the market.
unfoldable pub limit_order :
    Order → OrderRequest → RiskEvaluation → Decimal → Option Decimal → Action Order
limit_order order request risk mark none = execute_fill order request risk mark
limit_order order request risk mark (some price) = fill_or_rest order request risk mark price

-- A stop or take-profit order without a trigger is rejected.
unfoldable pub triggered_order :
    Order → OrderRequest → RiskEvaluation → Decimal → OrderError → Option Decimal → Action Order
triggered_order order request risk mark error none = reject_order order risk error
triggered_order order request risk mark error (some trigger) =
    fill_or_rest order request risk mark trigger

unfoldable pub trigger_order :
    OrderType → Order → OrderRequest → RiskEvaluation → Decimal → Action Order
trigger_order OrderType.market order request risk mark = execute_fill order request risk mark
trigger_order OrderType.limit order request risk mark =
    limit_order order request risk mark request.price
trigger_order OrderType.stop_loss order request risk mark =
    triggered_order order request risk mark no_stop_trigger
      (or_else request.price request.stop_loss)
trigger_order OrderType.take_profit order request risk mark =
    triggered_order order request risk mark no_tp_trigger
      (or_else request.price request.take_profit)

-- the mark price, or the order's own price for a limit order on an unknown market
unfoldable pub effective_mark : OrderType → Option Decimal → Option Decimal → Option Decimal
effective_mark order_type price (some mark) = some mark
effective_mark OrderType.limit price none = price
effective_mark _ price none = none

-- An order on a market with no price rests, with its buying power locked, or fails.
unfoldable pub rest_unmarked : Order → OrderRequest → RiskEvaluation → Action Order
rest_unmarked order request risk = do
  reserved ← reserve_for request.side order request risk (reserve_price request none)
  pure reserved.0

unfoldable pub route_unmarked : OrderType → Order → OrderRequest → RiskEvaluation → Action Order
route_unmarked OrderType.market order request risk =
    update order OrderStatus.failed risk (some no_mark)
route_unmarked OrderType.limit order request risk =
    update order OrderStatus.failed risk (some no_mark)
route_unmarked OrderType.stop_loss order request risk = rest_unmarked order request risk
route_unmarked OrderType.take_profit order request risk = rest_unmarked order request risk

unfoldable pub route : Order → OrderRequest → RiskEvaluation → Option Decimal → Action Order
route order request risk none = route_unmarked request.order_type order request risk
route order request risk (some mark) = do
  reserved ← reserve_for request.side order request risk (reserve_price request (some mark))
  if reserved.1
      then trigger_order request.order_type reserved.0 request risk mark
      else pure reserved.0

unfoldable pub route_order : Order → OrderRequest → RiskEvaluation → Action Order
route_order order request risk = do
  marks ← gets (λ s. s.config.mark_prices)
  route order request risk
      (effective_mark request.order_type request.price (lookup request.symbol marks))

unfoldable pub try_order : Order → OrderRequest → RiskEvaluation → Action Order
try_order order request risk = do
  unlucky ← roll_reject
  if unlucky
      then update order OrderStatus.rejected risk (some insufficient_liquidity)
      else route_order order request risk

unfoldable pub accept_order : Order → OrderRequest → RiskEvaluation → Action Order
accept_order order request risk = do
  approved ← update order OrderStatus.approved risk none
  submitted ← update approved OrderStatus.submitted risk none
  try_order submitted request risk

unfoldable pub enter_order : OrderRequest → Action Order
enter_order request = do
  id ← new_uuid
  let order = new_order id request
  log_event (order_created id)
  store_order order
  modify
      (λ s. record s { idempotency_index = insert request.idempotency_key id s.idempotency_index })
  pure order

unfoldable pub place_order : OrderRequest → RiskEvaluation → Action Order
place_order request risk = do
  order ← enter_order request
  if is_refused risk.decision
      then update order OrderStatus.rejected risk none
      else accept_order order request risk

unfoldable pub known_or_new : OrderRequest → RiskEvaluation → Option ℕ → Action Order
known_or_new request risk none = place_order request risk
known_or_new request risk (some id) = do
  orders ← gets (λ s. s.orders)
  or_raise key_error (lookup id orders)

unfoldable pub submit : OrderRequest → RiskEvaluation → Action Order
submit request risk = do
  index ← gets (λ s. s.idempotency_index)
  known_or_new request risk (lookup request.idempotency_key index)
