-- ===== src/Paper/Ledger.antt =====
-- Bookkeeping of the paper engine: the journal, order updates, and the reservation of buying power
-- (`_journal`, `_update`, `_reserve_price`, `_reserve_buy`, `_release_buy_reservation`).
use live_auto_trading.Prelude.{
  ℕ, nat_key, Bool, true, false, Option, none, some, [], ◌∷◌, ◌++◌, if◌then◌else◌,
}
use live_auto_trading.Decimal.{
  Decimal, zero, add, sub, mul, lt, le, eq, min, quantize, half_even, or_else,
}
use live_auto_trading.Dict.{insert}
use live_auto_trading.Domain.Enums.{OrderType, OrderStatus}
use live_auto_trading.Domain.Trading.{
  Order, OrderRequest, OrderError, Metadata, RiskEvaluation, insufficient_for_reserve,
}
use live_auto_trading.Paper.State.{Event, reserve, reserve_release, order_status}
use live_auto_trading.Paper.Action.{
  Action, decimal_error, pure, gets, modify, or_raise, ◌>>=◌, ◌>>◌,
}

unfoldable pub log_event : Event → Action (Unit {0})
log_event e = modify (λ s. record s { journal = s.journal ++ e ∷ [] })

-- `self.state.orders[updated.id] = updated`
unfoldable pub store_order : Order → Action (Unit {0})
store_order o = modify (λ s. record s { orders = insert o.id o s.orders })

-- `{**order.metadata, **(extra or {})}`
abbrev pub with_error : Metadata → Option OrderError → Metadata
with_error m none = m
with_error m (some e) = record m { error = some e }

unfoldable pub updated_order : Order → OrderStatus → RiskEvaluation → Option OrderError → Order
updated_order order status risk extra = record order {
  status = status;
  risk_decision = some risk.decision;
  risk_reason_code = some risk.reason_code;
  metadata = with_error order.metadata extra;
}

unfoldable pub update : Order → OrderStatus → RiskEvaluation → Option OrderError → Action Order
update order status risk extra = do
  let updated = updated_order order status risk extra
  store_order updated
  log_event (order_status updated.id status)
  pure updated

-- the reference price at which a BUY locks its notional
unfoldable pub reserve_price : OrderRequest → Option Decimal → Option Decimal
reserve_price request mark = by_type request.order_type request.price
  where
    triggered : Option Decimal
    triggered = or_else request.price (or_else request.stop_loss (or_else request.take_profit mark))

    by_type : OrderType → Option Decimal → Option Decimal
    by_type OrderType.limit (some price) = some price
    by_type OrderType.limit none = mark
    by_type OrderType.market _ = mark
    by_type OrderType.stop_loss _ = triggered
    by_type OrderType.take_profit _ = triggered

abbrev pub places : ℕ
places = 8

abbrev pub reserved_metadata : Metadata → Decimal → Metadata
reserved_metadata m amount = record m {
  reserved_notional = some amount;
  reserved_remaining = some amount;
  reservation_open = true;
}

-- Lock `amount`: it leaves the available cash for `reserved_cash`.
unfoldable pub lock : Order → Decimal → Action (Order × Bool)
lock order amount = do
  modify (λ s. record s { cash = sub s.cash amount; reserved_cash = add s.reserved_cash amount })
  log_event (reserve order.id amount)
  let updated = record order { metadata = reserved_metadata order.metadata amount }
  store_order updated
  pure (updated, true)

unfoldable pub refuse : Order → RiskEvaluation → OrderStatus → OrderError → Action (Order × Bool)
refuse order risk status error = do
  failed ← update order status risk (some error)
  pure (failed, false)

unfoldable pub lock_or_refuse : Order → Decimal → RiskEvaluation → Action (Order × Bool)
lock_or_refuse order amount risk = do
  cash ← gets (λ s. s.cash)
  if lt cash amount
      then refuse order risk OrderStatus.failed insufficient_for_reserve
      else lock order amount

unfoldable pub reserve_amount : Order → RiskEvaluation → Decimal → Action (Order × Bool)
reserve_amount order risk amount =
    if le amount zero then pure (order, true) else lock_or_refuse order amount risk

-- `_reserve_buy`: false beside the order means that the order has failed.
unfoldable pub reserve_buy : Order → Decimal → Decimal → RiskEvaluation → Action (Order × Bool)
reserve_buy order qty price risk =
    if order.metadata.reservation_open then pure (order, true) else do
      amount ← or_raise decimal_error (quantize places half_even (mul qty price))
      reserve_amount order risk amount

-- `meta.get("reserved_remaining", meta.get("reserved_notional", "0"))`
abbrev pub remaining_of : Metadata → Decimal
remaining_of m = elim m.reserved_remaining [
  | some d ↦ d
  | none ↦ elim m.reserved_notional [ some d ↦ d | none ↦ zero ]
]

abbrev pub closed_metadata : Metadata → Metadata
closed_metadata m = record m { reserved_remaining = some zero; reservation_open = false }

-- what one release returns to the available cash
unfoldable pub release_amount : Option Decimal → Decimal → Decimal → Decimal
release_amount amount remaining reserved =
    let asked : Decimal = elim amount [ none ↦ remaining | some a ↦ min a remaining ] in
    if lt reserved asked then reserved else asked

-- `if reserved == 0: reserved = Decimal("0")`
abbrev pub plain_zero : Decimal → Decimal
plain_zero d = if eq d zero then zero else d

-- the metadata after a release that leaves `left`
abbrev pub released_metadata : Metadata → Decimal → Metadata
released_metadata m left =
    if le left zero then closed_metadata m else record m { reserved_remaining = some left }

unfoldable pub give_back : Order → Decimal → Decimal → Action Order
give_back order release left = do
  modify (λ s. record s {
    reserved_cash = plain_zero (sub s.reserved_cash release);
    cash = add s.cash release;
  })
  log_event (reserve_release order.id release (if le left zero then zero else left))
  let updated = record order { metadata = released_metadata order.metadata left }
  store_order updated
  pure updated

unfoldable pub close_reservation : Order → Action Order
close_reservation order = do
  let updated = record order { metadata = closed_metadata order.metadata }
  store_order updated
  pure updated

unfoldable pub release_some : Order → Option Decimal → Decimal → Action Order
release_some order amount remaining = do
  reserved ← gets (λ s. s.reserved_cash)
  let release = release_amount amount remaining reserved
  give_back order release (sub remaining release)

unfoldable pub release_remaining : Order → Option Decimal → Decimal → Action Order
release_remaining order amount remaining =
    if le remaining zero then close_reservation order else release_some order amount remaining

-- `_release_buy_reservation`: `none` releases all that remains.
unfoldable pub release_buy_reservation : Order → Option Decimal → Action Order
release_buy_reservation order amount =
    if order.metadata.reservation_open
    then release_remaining order amount (remaining_of order.metadata)
    else pure order
