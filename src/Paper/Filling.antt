-- ===== src/Paper/Filling.antt =====
-- Fills of the paper engine: `_fee_rate`, `_fill_price`, `_apply_fill`, `_execute_fill`.
use live_auto_trading.Prelude.{
  ℕ, nat_key, string_key, ◌+◌, Bool, true, false, not, ◌&&◌, Option, none, some, [], ◌∷◌, ◌++◌,
  if◌then◌else◌,
}
use live_auto_trading.Decimal.{
  Decimal, zero, two, add, sub, mul, div, lt, le, eq, quantize, half_even, down,
}
use live_auto_trading.Dict.{lookup, insert, erase}
use live_auto_trading.Domain.Enums.{OrderSide, OrderType, OrderStatus}
use live_auto_trading.Domain.Trading.{
  Order, OrderRequest, Fill, Position, RiskEvaluation, insufficient, no_position,
}
use live_auto_trading.Paper.State.{PaperConfig, fill}
use live_auto_trading.Paper.Action.{
  Action, decimal_error, pure, gets, modify, or_raise, ◌>>=◌, ◌>>◌,
}
use live_auto_trading.Paper.Ledger.{places, log_event, update, refuse, release_buy_reservation}

-- `uuid4()`
unfoldable pub new_uuid : Action ℕ
new_uuid = do
  id ← gets (λ s. s.uuids s.drawn)
  modify (λ s. record s { drawn = s.drawn + 1 })
  pure id

unfoldable pub fee_rate : PaperConfig → Bool → Decimal
fee_rate config true = elim config.maker_fee_rate [ some rate ↦ rate | none ↦ config.fee_rate ]
fee_rate config false = elim config.taker_fee_rate [ some rate ↦ rate | none ↦ config.fee_rate ]

-- the market price moved against the order by half the spread and the slippage
unfoldable pub moved_price : PaperConfig → Decimal → OrderSide → Option Decimal
moved_price config mark side =
    let slip = mul mark config.slippage_rate in
    let moved : Decimal → Decimal = λ half_spread. elim side [
      | OrderSide.buy ↦ add (add mark half_spread) slip
      | OrderSide.sell ↦ sub (sub mark half_spread) slip
    ] in
    elim (div (mul mark config.spread_rate) two) [ none ↦ none | some h ↦ some (moved h) ]

abbrev pub limit_price : OrderType → Option Decimal → Option Decimal
limit_price OrderType.limit price = price
limit_price _ price = none

unfoldable pub fill_price : PaperConfig → Decimal → OrderRequest → Option Decimal
fill_price config mark request = elim (limit_price request.order_type request.price) [
  | some price ↦ some price
  | none ↦ moved_price config mark request.side
]

-- `Decimal(str(meta.get("reserved_notional", "0")))`
abbrev pub reserved_total : Option Decimal → Decimal
reserved_total none = zero
reserved_total (some d) = d

unfoldable pub release_part : Order → Decimal → Decimal → Action Order
release_part order total qty = do
  share ← or_raise decimal_error (div (mul total qty) order.quantity)
  consume ← or_raise decimal_error (quantize places half_even share)
  release_buy_reservation order (some consume)

-- Give back the share of the reservation that the filled quantity used.
unfoldable pub release_share : Order → Decimal → Action Order
release_share order qty =
    let total = reserved_total order.metadata.reserved_notional in
    if not (le total zero) && order.metadata.reservation_open && not (le order.quantity zero)
    then release_part order total qty
    else pure order

unfoldable pub open_position : Order → Decimal → Decimal → Position
open_position order qty price = record {
  symbol = order.symbol;
  quantity = qty;
  entry_price = price;
  current_price = price;
  unrealized_pnl = zero;
  realized_pnl = zero;
  strategy_name = order.strategy_name;
  stop_loss = none;
  take_profit = none;
}

-- A further buy averages the entry price. The positions' dict is keyed by the order's symbol.
unfoldable pub extend_position : Order → Decimal → Decimal → Option Position → Action (Unit {0})
extend_position order qty price none =
    modify (λ s. record s {
      positions = insert order.symbol (open_position order qty price) s.positions;
    })
extend_position order qty price (some held) = do
  let new_qty = add held.quantity qty
  new_entry ←
      or_raise decimal_error
        (div (add (mul held.entry_price held.quantity) (mul price qty)) new_qty)
  modify (λ s. record s {
    positions =
        insert order.symbol
          (record held {
            quantity = new_qty;
            entry_price = new_entry;
            current_price = price;
            unrealized_pnl = mul (sub price new_entry) new_qty;
          })
          s.positions;
  })

unfoldable pub pay : Decimal → Action (Unit {0})
pay cost = modify (λ s. record s { cash = sub s.cash cost })

-- The order fails where the available cash does not cover the fill.
unfoldable pub fail_buy : Order → RiskEvaluation → Action (Order × Bool)
fail_buy order risk = do
  released ← release_buy_reservation order none
  refuse released risk OrderStatus.failed insufficient

unfoldable pub take_position : Order → Decimal → Decimal → Action (Order × Bool)
take_position order qty price = do
  positions ← gets (λ s. s.positions)
  extend_position order qty price (lookup order.symbol positions)
  pure (order, true)

unfoldable pub pay_and_take : Order → Decimal → Decimal → Decimal → Action (Order × Bool)
pay_and_take order qty price cost = do pay cost; take_position order qty price

unfoldable pub buy_for :
    Decimal → Decimal → Decimal → RiskEvaluation → Order → Action (Order × Bool)
buy_for qty price cost risk order = do
  cash ← gets (λ s. s.cash)
  if lt cash cost then fail_buy order risk else pay_and_take order qty price cost

-- the BUY branch of `_apply_fill`; false beside the order means that the order has failed
unfoldable pub apply_buy :
    Order → Decimal → Decimal → Decimal → RiskEvaluation → Action (Order × Bool)
apply_buy order qty price fee risk = do
  order' ← release_share order qty
  buy_for qty price (add (mul price qty) fee) risk order'

-- what is left of a position after a sale
unfoldable pub reduced_position : Position → Decimal → Decimal → Decimal → Position
reduced_position held remaining price realized = record held {
  quantity = remaining;
  current_price = price;
  unrealized_pnl = mul (sub price held.entry_price) remaining;
  realized_pnl = add held.realized_pnl realized;
}

unfoldable pub sell_from : Order → Decimal → Decimal → Decimal → Position → Action (Order × Bool)
sell_from order qty price fee held = do
  let realized = sub (mul (sub price held.entry_price) qty) fee
  let remaining = sub held.quantity qty
  modify (λ s. record s {
    cash = add s.cash (sub (mul price qty) fee);
    realized_pnl = add s.realized_pnl realized;
    positions =
        if eq remaining zero
        then erase order.symbol s.positions
        else insert order.symbol (reduced_position held remaining price realized) s.positions;
  })
  pure (order, true)

-- the SELL branch of `_apply_fill`
unfoldable pub apply_sell :
    Order → Decimal → Decimal → Decimal → RiskEvaluation → Option Position → Action (Order × Bool)
apply_sell order qty price fee risk none = refuse order risk OrderStatus.failed no_position
apply_sell order qty price fee risk (some held) =
    if lt held.quantity qty
    then refuse order risk OrderStatus.failed no_position
    else sell_from order qty price fee held

-- the order with the fill counted in
unfoldable pub filled_order : Order → Decimal → Decimal → Decimal → Option Decimal → Action Order
filled_order order qty price fee none = pure (record order {
  filled_quantity = add order.filled_quantity qty;
  average_fill_price = some price;
  fees = add order.fees fee;
})
filled_order order qty price fee (some average) = do
  let filled = add order.filled_quantity qty
  avg ←
      or_raise decimal_error (div (add (mul average order.filled_quantity) (mul price qty)) filled)
  pure (record order {
    filled_quantity = filled;
    average_fill_price = some avg;
    fees = add order.fees fee;
  })

unfoldable pub record_fill : Order → Decimal → Decimal → Decimal → Action (Unit {0})
record_fill order qty price fee = do
  id ← new_uuid
  let entry : Fill = record {
    id = id;
    order_id = order.id;
    symbol = order.symbol;
    side = order.side;
    quantity = qty;
    price = price;
    fee = fee;
  }
  modify (λ s. record s { fills = s.fills ++ entry ∷ [] })
  log_event (fill id)

unfoldable pub settle :
    OrderSide → Order → Decimal → Decimal → Decimal → RiskEvaluation → Action (Order × Bool)
settle OrderSide.buy order qty price fee risk = apply_buy order qty price fee risk
settle OrderSide.sell order qty price fee risk = do
  positions ← gets (λ s. s.positions)
  apply_sell order qty price fee risk (lookup order.symbol positions)

unfoldable pub settle_and_count :
    Order → Decimal → Decimal → Decimal → RiskEvaluation → Action Order
settle_and_count order qty price fee risk = do
  settled ← settle order.side order qty price fee risk
  if settled.1
      then filled_order settled.0 qty price fee settled.0.average_fill_price
      else pure settled.0

unfoldable pub apply_fill : Order → Decimal → Decimal → RiskEvaluation → Bool → Action Order
apply_fill order qty price risk is_maker = do
  config ← gets (λ s. s.config)
  fee ←
      or_raise decimal_error
        (quantize places half_even (mul (mul price qty) (fee_rate config is_maker)))
  record_fill order qty price fee
  settle_and_count order qty price fee risk

abbrev pub is_limit : OrderType → Bool
is_limit OrderType.limit = true
is_limit _ = false

abbrev pub is_failed : OrderStatus → Bool
is_failed OrderStatus.failed = true
is_failed _ = false

-- The whole order is filled: rounding dust of its reservation goes back.
unfoldable pub fill_up : Order → RiskEvaluation → Action Order
fill_up order risk = do
  released ← release_buy_reservation order none
  update released OrderStatus.filled risk none

-- The order's status after a fill of `qty` out of `wanted`.
unfoldable pub conclude : Order → RiskEvaluation → Decimal → Decimal → Action Order
conclude order risk qty wanted =
    if is_failed order.status
    then pure order
    else if lt qty wanted
    then update order OrderStatus.partially_filled risk none
    else fill_up order risk

unfoldable pub fill_checked :
    Order → OrderRequest → RiskEvaluation → Decimal → Decimal → Action Order
fill_checked order request risk price qty =
    if le qty zero then update order OrderStatus.failed risk none else do
      filled ← apply_fill order qty price risk (is_limit request.order_type)
      conclude filled risk qty request.quantity

unfoldable pub execute_fill : Order → OrderRequest → RiskEvaluation → Decimal → Action Order
execute_fill order request risk mark = do
  config ← gets (λ s. s.config)
  price ← or_raise decimal_error (fill_price config mark request)
  qty ←
      or_raise decimal_error
        (quantize places down (mul request.quantity config.partial_fill_fraction))
  fill_checked order request risk price qty
