-- ===== src/Paper/OrdersSound.antt =====
-- The soundness of the ledger through order entry and through the life of resting orders.
use live_auto_trading.Prelude.{
  ℕ, ◌≡◌, refl, Bool, true, Option, none, some, Bool-cases, inl, inr, if◌then◌else◌,
}
use live_auto_trading.Decimal.{Decimal, zero, le}
use live_auto_trading.Domain.Enums.{OrderSide, OrderType, OrderStatus}
use live_auto_trading.Domain.Trading.{Order, OrderError, OrderRequest, RiskEvaluation}
use live_auto_trading.Paper.State.{Engine}
use live_auto_trading.Paper.Action.{pure, ◌>>=◌}
use live_auto_trading.Paper.Ledger.{
  log_event, store_order, reserve_price, release_buy_reservation, update,
}
use live_auto_trading.Paper.Filling.{new_uuid, execute_fill}
use live_auto_trading.Paper.Orders.{
  new_order, is_refused, roll_reject, reserve_for, fill_or_rest, limit_order, triggered_order,
  reject_order, trigger_order, rest_unmarked, route_unmarked, route, route_order, try_order,
  known_or_new, accept_order, enter_order, place_order, submit,
}
use live_auto_trading.Paper.Keeps.{
  IsSound, Yields, Keeps, Keeps-pure, Keeps-if, Keeps-bind, Keeps-bind_with, keeps_rules,
}
use live_auto_trading.Paper.Sound.{update-IsSound, reserve_buy-IsSound, release-IsSound}
use live_auto_trading.Paper.Same.{SameOrder, update-SameOrder, reserve_for-SameOrder}
use live_auto_trading.Paper.FillingSound.{Covers, execute_fill-IsSound}

module _ (b : Bool) where
  Covers-SameOrder : (o o' : Order) → SameOrder o o' → Covers b o.side → Covers b o'.side
  Covers-SameOrder o o' same c = rw same.side c

  roll_reject-IsSound : Keeps (IsSound b) roll_reject
  unfolding roll_reject
  roll_reject-IsSound = record {
    at = λ s h. elim (Bool-cases (le s.config.reject_probability zero)) [
      | inl e ↦ rw e h
      | inr e ↦ rw e (record { reserved = h.reserved; held = h.held; cash = h.cash })
    ];
  }

  reserve_for-IsSound :
      (side : OrderSide) (o : Order) (request : OrderRequest) (risk : RiskEvaluation)
      (price : Option Decimal)
      → Keeps (IsSound b) (reserve_for side o request risk price)
  unfolding reserve_for
  reserve_for-IsSound OrderSide.sell o request risk price = Keeps-pure (o, true)
  reserve_for-IsSound OrderSide.buy o request risk none = Keeps-pure (o, true)
  reserve_for-IsSound OrderSide.buy o request risk (some p) = reserve_buy-IsSound b o _ p risk

  module _ (o : Order) (request : OrderRequest) (risk : RiskEvaluation) (mark : Decimal) where
    fill_or_rest-IsSound :
        (trigger : Decimal)
        → Covers b o.side
        → Keeps (IsSound b) (fill_or_rest o request risk mark trigger)
    unfolding fill_or_rest
    fill_or_rest-IsSound trigger c =
        Keeps-if _ (pure o) (execute_fill o request risk mark) (Keeps-pure o)
          (execute_fill-IsSound b o request risk mark c)

    triggered-IsSound :
        (error : OrderError) (trigger : Option Decimal)
        → Covers b o.side
        → Keeps (IsSound b) (triggered_order o request risk mark error trigger)
    unfolding triggered_order reject_order
    triggered-IsSound error none c =
        Keeps-bind (release_buy_reservation o none)
          (λ released. update released OrderStatus.rejected risk (some error))
          (release-IsSound b o none tt)
          (λ released. update-IsSound b released OrderStatus.rejected risk (some error))
    triggered-IsSound error (some trigger) c = fill_or_rest-IsSound trigger c

    trigger_order-IsSound :
        (order_type : OrderType)
        → Covers b o.side
        → Keeps (IsSound b) (trigger_order order_type o request risk mark)
    unfolding trigger_order limit_order
    trigger_order-IsSound OrderType.market c = execute_fill-IsSound b o request risk mark c
    trigger_order-IsSound OrderType.limit c = limit request.price
      where
        limit : (p : Option Decimal) → Keeps (IsSound b) (limit_order o request risk mark p)
        limit none = execute_fill-IsSound b o request risk mark c
        limit (some p) = fill_or_rest-IsSound p c
    trigger_order-IsSound OrderType.stop_loss c = triggered-IsSound _ _ c
    trigger_order-IsSound OrderType.take_profit c = triggered-IsSound _ _ c

  route_unmarked-IsSound :
      (order_type : OrderType) (o : Order) (request : OrderRequest) (risk : RiskEvaluation)
      → Keeps (IsSound b) (route_unmarked order_type o request risk)
  unfolding route_unmarked rest_unmarked
  route_unmarked-IsSound OrderType.market o request risk = update-IsSound b o _ risk _
  route_unmarked-IsSound OrderType.limit o request risk = update-IsSound b o _ risk _
  route_unmarked-IsSound _ o request risk = search (keeps_rules, reserve_for-IsSound)

  route-IsSound :
      (o : Order) (request : OrderRequest) (risk : RiskEvaluation) (mark : Option Decimal)
      → Covers b o.side
      → Keeps (IsSound b) (route o request risk mark)
  unfolding route
  route-IsSound o request risk none c = route_unmarked-IsSound request.order_type o request risk
  route-IsSound o request risk (some mark) c =
      Keeps-bind_with (reserve_for request.side o request risk (reserve_price request (some mark)))
        (λ reserved.
          if reserved.1
          then trigger_order request.order_type reserved.0 request risk mark
          else pure reserved.0)
        (reserve_for-IsSound request.side o request risk _)
        (reserve_for-SameOrder o request.side request risk _)
        (λ reserved same.
          Keeps-if reserved.1 _ (pure reserved.0)
            (trigger_order-IsSound reserved.0 request risk mark request.order_type
              (Covers-SameOrder o reserved.0 same c))
            (Keeps-pure reserved.0))

  try_order-IsSound :
      (o : Order) (request : OrderRequest) (risk : RiskEvaluation)
      → Covers b o.side
      → Keeps (IsSound b) (try_order o request risk)
  unfolding try_order route_order
  try_order-IsSound o request risk c =
      search (keeps_rules, roll_reject-IsSound, update-IsSound, route-IsSound)

  accept_order-IsSound :
      (o : Order) (request : OrderRequest) (risk : RiskEvaluation)
      → Covers b o.side
      → Keeps (IsSound b) (accept_order o request risk)
  unfolding accept_order
  accept_order-IsSound o request risk c =
      Keeps-bind_with (update o OrderStatus.approved risk none)
        (λ approved. update approved OrderStatus.submitted risk none >>= λ submitted.
          try_order submitted request risk)
        (update-IsSound b o _ risk none) (update-SameOrder o _ risk none)
        (λ approved same.
          Keeps-bind_with (update approved OrderStatus.submitted risk none)
            (λ submitted. try_order submitted request risk) (update-IsSound b approved _ risk none)
            (update-SameOrder approved _ risk none)
            (λ submitted same'.
              try_order-IsSound submitted request risk
                (Covers-SameOrder approved submitted same' (Covers-SameOrder o approved same c))))

  enter_order-IsSound : (request : OrderRequest) → Keeps (IsSound b) (enter_order request)
  unfolding enter_order new_uuid log_event store_order
  enter_order-IsSound request = record {
    at = λ s h. record { reserved = h.reserved; held = h.held; cash = h.cash };
  }

  enter_order-side :
      (request : OrderRequest) → Yields (λ o. o.side ≡ request.side) (enter_order request)
  unfolding enter_order new_uuid log_event store_order new_order
  enter_order-side request = record { at = λ s. refl }

  place_order-IsSound :
      (request : OrderRequest) (risk : RiskEvaluation)
      → Covers b request.side
      → Keeps (IsSound b) (place_order request risk)
  unfolding place_order
  place_order-IsSound request risk c =
      Keeps-bind_with (enter_order request)
        (λ o.
          if is_refused risk.decision
          then update o OrderStatus.rejected risk none
          else accept_order o request risk)
        (enter_order-IsSound request) (enter_order-side request)
        (λ o side.
          Keeps-if (is_refused risk.decision) _ _ (update-IsSound b o _ risk none)
            (accept_order-IsSound o request risk (rw side c)))

  known_or_new-IsSound :
      (request : OrderRequest) (risk : RiskEvaluation) (known : Option ℕ)
      → Covers b request.side
      → Keeps (IsSound b) (known_or_new request risk known)
  unfolding known_or_new
  known_or_new-IsSound request risk none c = place_order-IsSound request risk c
  known_or_new-IsSound request risk (some id) c = search keeps_rules

  submit-Keeps :
      (request : OrderRequest) (risk : RiskEvaluation)
      → Covers b request.side
      → Keeps (IsSound b) (submit request risk)
  unfolding submit
  submit-Keeps request risk c = search (keeps_rules, known_or_new-IsSound)

-- Whatever the request, the risk decision and the configuration, `submit` keeps the ledger sound,
-- also where it raises: reserved cash does not go negative and every position stays long (nothing
-- is ever sold short). For a buy the available cash does not go negative either.
pub submit-IsSound :
    (solvent : Bool) (request : OrderRequest) (risk : RiskEvaluation) (s : Engine)
    → Covers solvent request.side
    → IsSound solvent s
    → IsSound solvent (submit request risk s).1
submit-IsSound solvent request risk s c h = (submit-Keeps solvent request risk c).at s h
