-- ===== src/Paper/Identity.antt =====
-- The id and the side of the market of an order, through fills and triggers.
use live_auto_trading.Prelude.{
  string_key, refl, ◌∙◌, Bool, true, false, Option, none, some, if◌then◌else◌,
}
use live_auto_trading.Decimal.{Decimal, zero, add, mul, div, lt, le}
use live_auto_trading.Domain.Enums.{OrderSide, OrderType, OrderStatus}
use live_auto_trading.Domain.Trading.{Order, OrderError, OrderRequest, Position, RiskEvaluation}
use live_auto_trading.Paper.Action.{
  Action, Result, ok, raised, pure, or_raise, decimal_error, ◌>>=◌,
}
use live_auto_trading.Paper.Ledger.{update, release_buy_reservation}
use live_auto_trading.Paper.Filling.{
  release_part, release_share, fail_buy, take_position, pay_and_take, buy_for, apply_buy, sell_from,
  apply_sell, filled_order, settle, settle_and_count, apply_fill, fill_up, conclude, fill_checked,
  execute_fill, is_failed,
}
use live_auto_trading.Paper.Orders.{
  reserve_for, fill_or_rest, reject_order, limit_order, triggered_order, trigger_order,
  rest_unmarked, route_unmarked, route, route_order, try_order, accept_order,
}
use live_auto_trading.Paper.Keeps.{
  OnOk, Yields, Yields-pure, Yields-if, Yields-bind, Yields-bind_with, yields_rules,
}
use live_auto_trading.Paper.Same.{
  SameOrder, SameOrder-refl, update-SameOrder, refuse-SameOrder, release-SameOrder,
  reserve_for-SameOrder,
}

SameOrder-trans : (a b c : Order) → SameOrder a b → SameOrder b c → SameOrder a c
SameOrder-trans a b c h k = record { id = k.id ∙ h.id; side = k.side ∙ h.side }

Yields-weaken :
    {A : Type 0} {Q R : A → Type 0} (m : Action A) → ((a : A) → Q a → R a) → Yields Q m → Yields R m
Yields-weaken {A} {Q} {R} m k y = record { at = λ s. after (m s).0 (y.at s) }
  where
    after : (r : Result A) → OnOk Q r → OnOk R r
    after (ok a) q = k a q
    after (raised e) q = tt

-- One step after another on the same order.
module _ {A B : Type 0} (o : Order) (f : A → Order) (g : B → Order) where
  same_bind :
      (m : Action A) (n : A → Action B)
      → Yields (λ a. SameOrder o (f a)) m
      → ((a : A) → Yields (λ b. SameOrder (f a) (g b)) (n a))
      → Yields (λ b. SameOrder o (g b)) (m >>= n)
  same_bind m n h k =
      Yields-bind_with m n h
        λ a same. Yields-weaken (n a) (λ b. SameOrder-trans o (f a) (g b) same) (k a)

abbrev itself : Order → Order
itself o = o

abbrev order_of : Order × Bool → Order
order_of r = r.0

module _ (o : Order) where
  share-SameOrder : (qty : Decimal) → Yields (SameOrder o) (release_share o qty)
  unfolding release_share release_part
  share-SameOrder qty =
      Yields-if _ (release_part o _ qty) (pure o) (search (yields_rules, release-SameOrder) depth 8)
        (Yields-pure o (SameOrder-refl o))

  fail_buy-SameOrder : (risk : RiskEvaluation) → Yields (λ r. SameOrder o r.0) (fail_buy o risk)
  unfolding fail_buy
  fail_buy-SameOrder risk =
      same_bind o itself order_of (release_buy_reservation o none) _ (release-SameOrder o none)
        (λ released. refuse-SameOrder released risk _ _)

  take-SameOrder :
      (qty price cost : Decimal) → Yields (λ r. SameOrder o r.0) (pay_and_take o qty price cost)
  unfolding pay_and_take take_position
  take-SameOrder qty price cost = search (yields_rules, SameOrder-refl) depth 9

  buy_for-SameOrder :
      (qty price cost : Decimal) (risk : RiskEvaluation)
      → Yields (λ r. SameOrder o r.0) (buy_for qty price cost risk o)
  unfolding buy_for
  buy_for-SameOrder qty price cost risk = search (yields_rules, fail_buy-SameOrder, take-SameOrder)

  sell_from-SameOrder :
      (qty price fee : Decimal) (held : Position)
      → Yields (λ r. SameOrder o r.0) (sell_from o qty price fee held)
  unfolding sell_from
  sell_from-SameOrder qty price fee held = record { at = λ s. SameOrder-refl o }

  apply_sell-SameOrder :
      (qty price fee : Decimal) (risk : RiskEvaluation) (held : Option Position)
      → Yields (λ r. SameOrder o r.0) (apply_sell o qty price fee risk held)
  unfolding apply_sell
  apply_sell-SameOrder qty price fee risk none = refuse-SameOrder o risk _ _
  apply_sell-SameOrder qty price fee risk (some p) =
      Yields-if (lt p.quantity qty) _ _ (refuse-SameOrder o risk _ _)
        (sell_from-SameOrder qty price fee p)

  filled-SameOrder :
      (qty price fee : Decimal) (average : Option Decimal)
      → Yields (SameOrder o) (filled_order o qty price fee average)
  unfolding filled_order
  filled-SameOrder qty price fee none = record { at = λ s. record { id = refl; side = refl } }
  filled-SameOrder qty price fee (some a) =
      Yields-bind
        (or_raise decimal_error
          (div (add (mul a o.filled_quantity) (mul price qty)) (add o.filled_quantity qty)))
        (λ avg. pure (record o {
          filled_quantity = add o.filled_quantity qty;
          average_fill_price = some avg;
          fees = add o.fees fee;
        }))
        (λ avg. record { at = λ s. record { id = refl; side = refl } })

module _ (o : Order) where
  settle-SameOrder :
      (side : OrderSide) (qty price fee : Decimal) (risk : RiskEvaluation)
      → Yields (λ r. SameOrder o r.0) (settle side o qty price fee risk)
  unfolding settle apply_buy
  settle-SameOrder OrderSide.buy qty price fee risk =
      same_bind o itself order_of (release_share o qty) _ (share-SameOrder o qty)
        (λ o'. buy_for-SameOrder o' qty price _ risk)
  settle-SameOrder OrderSide.sell qty price fee risk = search (yields_rules, apply_sell-SameOrder o)

  settled-SameOrder :
      (qty price fee : Decimal) (settled : Order × Bool)
      → Yields (SameOrder settled.0) (
          if settled.1
          then filled_order settled.0 qty price fee settled.0.average_fill_price
          else pure settled.0)
  settled-SameOrder qty price fee (o', true) = filled-SameOrder o' qty price fee _
  settled-SameOrder qty price fee (o', false) = Yields-pure o' (SameOrder-refl o')

  counted-SameOrder :
      (qty price fee : Decimal) (risk : RiskEvaluation)
      → Yields (SameOrder o) (settle_and_count o qty price fee risk)
  unfolding settle_and_count
  counted-SameOrder qty price fee risk =
      same_bind o order_of itself (settle o.side o qty price fee risk) _
        (settle-SameOrder o.side qty price fee risk) (settled-SameOrder qty price fee)

  apply_fill-SameOrder :
      (qty price : Decimal) (risk : RiskEvaluation) (is_maker : Bool)
      → Yields (SameOrder o) (apply_fill o qty price risk is_maker)
  unfolding apply_fill
  apply_fill-SameOrder qty price risk is_maker = search (yields_rules, counted-SameOrder) depth 8

  fill_up-SameOrder : (risk : RiskEvaluation) → Yields (SameOrder o) (fill_up o risk)
  unfolding fill_up
  fill_up-SameOrder risk =
      same_bind o itself itself (release_buy_reservation o none) _ (release-SameOrder o none)
        (λ released. update-SameOrder released _ risk none)

  conclude-SameOrder :
      (risk : RiskEvaluation) (qty wanted : Decimal)
      → Yields (SameOrder o) (conclude o risk qty wanted)
  unfolding conclude
  conclude-SameOrder risk qty wanted =
      Yields-if (is_failed o.status) (pure o) _ (Yields-pure o (SameOrder-refl o)) (
        Yields-if (lt qty wanted) _ (fill_up o risk) (update-SameOrder o _ risk none)
          (fill_up-SameOrder risk))

module _ (o : Order) (request : OrderRequest) (risk : RiskEvaluation) where
  checked-SameOrder :
      (price qty : Decimal) → Yields (SameOrder o) (fill_checked o request risk price qty)
  unfolding fill_checked
  checked-SameOrder price qty = Yields-if (le qty zero) _ _ (update-SameOrder o _ risk none) (
      same_bind o itself itself (apply_fill o qty price risk _) _
        (apply_fill-SameOrder o qty price risk _)
        (λ filled. conclude-SameOrder filled risk qty request.quantity))

  execute-SameOrder : (mark : Decimal) → Yields (SameOrder o) (execute_fill o request risk mark)
  unfolding execute_fill
  execute-SameOrder mark = search (yields_rules, checked-SameOrder) depth 8

  rest-SameOrder :
      (mark trigger : Decimal) → Yields (SameOrder o) (fill_or_rest o request risk mark trigger)
  unfolding fill_or_rest
  rest-SameOrder mark trigger =
      Yields-if _ (pure o) _ (Yields-pure o (SameOrder-refl o)) (execute-SameOrder mark)

  limit-SameOrder :
      (mark : Decimal) (price : Option Decimal)
      → Yields (SameOrder o) (limit_order o request risk mark price)
  unfolding limit_order
  limit-SameOrder mark none = execute-SameOrder mark
  limit-SameOrder mark (some p) = rest-SameOrder mark p

  triggered-SameOrder :
      (mark : Decimal) (e : OrderError) (trigger : Option Decimal)
      → Yields (SameOrder o) (triggered_order o request risk mark e trigger)
  unfolding triggered_order reject_order
  triggered-SameOrder mark e none =
      same_bind o itself itself (release_buy_reservation o none) _ (release-SameOrder o none)
        (λ released. update-SameOrder released _ risk _)
  triggered-SameOrder mark e (some t) = rest-SameOrder mark t

  trigger-SameOrder :
      (order_type : OrderType) (mark : Decimal)
      → Yields (SameOrder o) (trigger_order order_type o request risk mark)
  unfolding trigger_order
  trigger-SameOrder OrderType.market mark = execute-SameOrder mark
  trigger-SameOrder OrderType.limit mark = limit-SameOrder mark _
  trigger-SameOrder OrderType.stop_loss mark = triggered-SameOrder mark _ _
  trigger-SameOrder OrderType.take_profit mark = triggered-SameOrder mark _ _

module _ (o : Order) (request : OrderRequest) (risk : RiskEvaluation) where
  unmarked-SameOrder :
      (order_type : OrderType) → Yields (SameOrder o) (route_unmarked order_type o request risk)
  unfolding route_unmarked rest_unmarked
  unmarked-SameOrder OrderType.market = update-SameOrder o _ risk _
  unmarked-SameOrder OrderType.limit = update-SameOrder o _ risk _
  unmarked-SameOrder _ =
      same_bind o order_of itself (reserve_for request.side o request risk _) _
        (reserve_for-SameOrder o request.side request risk _)
        (λ r. Yields-pure r.0 (SameOrder-refl r.0))

  marked-SameOrder :
      (mark : Decimal) (r : Order × Bool)
      → Yields
          (SameOrder r.0)
          (if r.1 then trigger_order request.order_type r.0 request risk mark else pure r.0)
  marked-SameOrder mark (o', true) = trigger-SameOrder o' request risk request.order_type mark
  marked-SameOrder mark (o', false) = Yields-pure o' (SameOrder-refl o')

  route-SameOrder : (mark : Option Decimal) → Yields (SameOrder o) (route o request risk mark)
  unfolding route
  route-SameOrder none = unmarked-SameOrder request.order_type
  route-SameOrder (some mark) =
      same_bind o order_of itself (reserve_for request.side o request risk _) _
        (reserve_for-SameOrder o request.side request risk _) (marked-SameOrder mark)

  try-SameOrder : Yields (SameOrder o) (try_order o request risk)
  unfolding try_order route_order
  try-SameOrder = search (yields_rules, update-SameOrder, route-SameOrder) depth 8

pub accept-SameOrder :
    (o : Order) (request : OrderRequest) (risk : RiskEvaluation)
    → Yields (SameOrder o) (accept_order o request risk)
unfolding accept_order
accept-SameOrder o request risk =
    same_bind o itself itself (update o OrderStatus.approved risk none) _
      (update-SameOrder o _ risk none)
      λ a.
        same_bind a itself itself (update a OrderStatus.submitted risk none) _
          (update-SameOrder a _ risk none) (λ b. try-SameOrder b request risk)
