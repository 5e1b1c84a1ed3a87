-- ===== src/Paper/Index.antt =====
-- The idempotency index and the known orders.
use live_auto_trading.Prelude.{
  String, ℕ, nat_key, ◌≡◌, arith, Bool, true, false, Option, none, some, Bool-cases, inl, inr,
}
use live_auto_trading.Decimal.{Decimal, zero, add, mul, div, le}
use live_auto_trading.Dict.{Dict, lookup, insert, lookup-insert}
use live_auto_trading.Domain.Enums.{OrderSide, OrderType, OrderStatus}
use live_auto_trading.Domain.Trading.{Order, OrderError, OrderRequest, Position, RiskEvaluation}
use live_auto_trading.Paper.State.{Engine, Event}
use live_auto_trading.Paper.Action.{pure, or_raise, decimal_error}
use live_auto_trading.Paper.Ledger.{
  log_event, store_order, update, lock, refuse, lock_or_refuse, reserve_amount, reserve_buy,
  give_back, close_reservation, release_some, release_remaining, release_buy_reservation,
}
use live_auto_trading.Paper.Filling.{
  new_uuid, release_part, release_share, extend_position, pay, fail_buy, take_position,
  pay_and_take, buy_for, apply_buy, sell_from, apply_sell, filled_order, record_fill, settle,
  settle_and_count, apply_fill, fill_up, conclude, fill_checked, execute_fill, is_failed,
}
use live_auto_trading.Paper.Orders.{
  roll_reject, reserve_for, fill_or_rest, reject_order, limit_order, triggered_order, trigger_order,
  rest_unmarked, route_unmarked, route, route_order, try_order, accept_order,
}
use live_auto_trading.Paper.Keeps.{
  Keeps, Keeps-pure, Keeps-if, Keeps-bind, Keeps-or_raise, keeps_rules,
}

abbrev pub is_known : {A : Type 0} → Option A → Bool
is_known none = false
is_known (some a) = true

known-insert :
    (j k : ℕ) (v : Order) (d : Dict ℕ Order)
    → is_known (lookup j d) ≡ true
    → is_known (lookup j (insert k v d)) ≡ true
known-insert j k v d h = ground (arith, lookup-insert k j v d)

module _ (idx : Dict String ℕ) (id : ℕ) where
  -- the index is `idx`, and the order `id` is known
  abbrev pub HasIndex : Engine → Type 0
  HasIndex s = (s.idempotency_index ≡ idx) × (is_known (lookup id s.orders) ≡ true)

  log : (e : Event) → Keeps HasIndex (log_event e)
  unfolding log_event
  log e = record { at = λ s h. h }

  store : (o : Order) → Keeps HasIndex (store_order o)
  unfolding store_order
  store o = record { at = λ s h. (h.0, known-insert id o.id o s.orders h.1) }

  pub update-HasIndex :
      (o : Order) (status : OrderStatus) (risk : RiskEvaluation) (extra : Option OrderError)
      → Keeps HasIndex (update o status risk extra)
  unfolding update
  update-HasIndex o status risk extra = search (keeps_rules, log, store)

  refusal :
      (o : Order) (risk : RiskEvaluation) (status : OrderStatus) (e : OrderError)
      → Keeps HasIndex (refuse o risk status e)
  unfolding refuse
  refusal o risk status e = search (keeps_rules, update-HasIndex)

  locking : (o : Order) (amount : Decimal) → Keeps HasIndex (lock o amount)
  unfolding lock log_event store_order
  locking o amount = record { at = λ s h. (h.0, known-insert id o.id _ s.orders h.1) }

  reserving_amount :
      (o : Order) (risk : RiskEvaluation) (amount : Decimal)
      → Keeps HasIndex (reserve_amount o risk amount)
  unfolding reserve_amount lock_or_refuse
  reserving_amount o risk amount = search (keeps_rules, refusal, locking) depth 8

  reserving :
      (o : Order) (qty price : Decimal) (risk : RiskEvaluation)
      → Keeps HasIndex (reserve_buy o qty price risk)
  unfolding reserve_buy
  reserving o qty price risk = search (keeps_rules, reserving_amount)

  giving_back : (o : Order) (release left : Decimal) → Keeps HasIndex (give_back o release left)
  unfolding give_back log_event store_order
  giving_back o release left = record { at = λ s h. (h.0, known-insert id o.id _ s.orders h.1) }

  closing : (o : Order) → Keeps HasIndex (close_reservation o)
  unfolding close_reservation
  closing o = search (keeps_rules, store)

  releasing_some :
      (o : Order) (amount : Option Decimal) (remaining : Decimal)
      → Keeps HasIndex (release_some o amount remaining)
  unfolding release_some
  releasing_some o amount remaining = search (keeps_rules, giving_back)

  releasing_remaining :
      (o : Order) (amount : Option Decimal) (remaining : Decimal)
      → Keeps HasIndex (release_remaining o amount remaining)
  unfolding release_remaining
  releasing_remaining o amount remaining =
      Keeps-if (le remaining zero) (close_reservation o) _ (closing o)
        (releasing_some o amount remaining)

  releasing :
      (o : Order) (amount : Option Decimal) → Keeps HasIndex (release_buy_reservation o amount)
  unfolding release_buy_reservation
  releasing o amount =
      Keeps-if o.metadata.reservation_open _ (pure o) (releasing_remaining o amount _)
        (Keeps-pure o)

  releasing_share : (o : Order) (qty : Decimal) → Keeps HasIndex (release_share o qty)
  unfolding release_share release_part
  releasing_share o qty =
      Keeps-if _ (release_part o _ qty) (pure o) (search (keeps_rules, releasing) depth 8)
        (Keeps-pure o)

  failing_buy : (o : Order) (risk : RiskEvaluation) → Keeps HasIndex (fail_buy o risk)
  unfolding fail_buy
  failing_buy o risk = search (keeps_rules, releasing, refusal)

  extending :
      (o : Order) (qty price : Decimal) (held : Option Position)
      → Keeps HasIndex (extend_position o qty price held)
  unfolding extend_position
  extending o qty price none = record { at = λ s h. h }
  extending o qty price (some p) =
      Keeps-bind
        (or_raise decimal_error
          (div (add (mul p.entry_price p.quantity) (mul price qty)) (add p.quantity qty)))
        _ (Keeps-or_raise decimal_error _) (λ entry. record { at = λ s h. h })

  taking : (o : Order) (qty price : Decimal) → Keeps HasIndex (take_position o qty price)
  unfolding take_position
  taking o qty price = search (keeps_rules, extending) depth 8

  paying : (cost : Decimal) → Keeps HasIndex (pay cost)
  unfolding pay
  paying cost = record { at = λ s h. h }

  buying_for :
      (qty price cost : Decimal) (risk : RiskEvaluation) (o : Order)
      → Keeps HasIndex (buy_for qty price cost risk o)
  unfolding buy_for pay_and_take
  buying_for qty price cost risk o = search (keeps_rules, failing_buy, paying, taking) depth 8

  buying :
      (o : Order) (qty price fee : Decimal) (risk : RiskEvaluation)
      → Keeps HasIndex (apply_buy o qty price fee risk)
  unfolding apply_buy
  buying o qty price fee risk = search (keeps_rules, releasing_share, buying_for)

  selling_from :
      (o : Order) (qty price fee : Decimal) (held : Position)
      → Keeps HasIndex (sell_from o qty price fee held)
  unfolding sell_from
  selling_from o qty price fee held = record { at = λ s h. h }

  selling :
      (o : Order) (qty price fee : Decimal) (risk : RiskEvaluation) (held : Option Position)
      → Keeps HasIndex (apply_sell o qty price fee risk held)
  unfolding apply_sell
  selling o qty price fee risk none = refusal o risk _ _
  selling o qty price fee risk (some p) = search (keeps_rules, refusal, selling_from)

  settling :
      (side : OrderSide) (o : Order) (qty price fee : Decimal) (risk : RiskEvaluation)
      → Keeps HasIndex (settle side o qty price fee risk)
  unfolding settle
  settling OrderSide.buy o qty price fee risk = buying o qty price fee risk
  settling OrderSide.sell o qty price fee risk = search (keeps_rules, selling)

  recording : (o : Order) (qty price fee : Decimal) → Keeps HasIndex (record_fill o qty price fee)
  unfolding record_fill new_uuid log_event
  recording o qty price fee = record { at = λ s h. h }

  counting :
      (o : Order) (qty price fee : Decimal) (average : Option Decimal)
      → Keeps HasIndex (filled_order o qty price fee average)
  unfolding filled_order
  counting o qty price fee none = search keeps_rules
  counting o qty price fee (some a) = search keeps_rules

  applying :
      (o : Order) (qty price : Decimal) (risk : RiskEvaluation) (is_maker : Bool)
      → Keeps HasIndex (apply_fill o qty price risk is_maker)
  unfolding apply_fill settle_and_count
  applying o qty price risk is_maker = search (keeps_rules, recording, settling, counting) depth 8

  filling_up : (o : Order) (risk : RiskEvaluation) → Keeps HasIndex (fill_up o risk)
  unfolding fill_up
  filling_up o risk = search (keeps_rules, releasing, update-HasIndex)

  concluding :
      (o : Order) (risk : RiskEvaluation) (qty wanted : Decimal)
      → Keeps HasIndex (conclude o risk qty wanted)
  unfolding conclude
  concluding o risk qty wanted =
      Keeps-if (is_failed o.status) (pure o) _ (Keeps-pure o)
        (search (keeps_rules, update-HasIndex, filling_up))

  executing :
      (o : Order) (request : OrderRequest) (risk : RiskEvaluation) (mark : Decimal)
      → Keeps HasIndex (execute_fill o request risk mark)
  unfolding execute_fill fill_checked
  executing o request risk mark =
      search (keeps_rules, update-HasIndex, applying, concluding) depth 9

  resting :
      (o : Order) (request : OrderRequest) (risk : RiskEvaluation) (mark trigger : Decimal)
      → Keeps HasIndex (fill_or_rest o request risk mark trigger)
  unfolding fill_or_rest
  resting o request risk mark trigger =
      Keeps-if _ (pure o) _ (Keeps-pure o) (executing o request risk mark)

  limit :
      (o : Order) (request : OrderRequest) (risk : RiskEvaluation) (mark : Decimal)
      (price : Option Decimal)
      → Keeps HasIndex (limit_order o request risk mark price)
  unfolding limit_order
  limit o request risk mark none = executing o request risk mark
  limit o request risk mark (some p) = resting o request risk mark p

  triggered :
      (o : Order) (request : OrderRequest) (risk : RiskEvaluation) (mark : Decimal) (e : OrderError)
      (trigger : Option Decimal)
      → Keeps HasIndex (triggered_order o request risk mark e trigger)
  unfolding triggered_order reject_order
  triggered o request risk mark e none = search (keeps_rules, releasing, update-HasIndex)
  triggered o request risk mark e (some t) = resting o request risk mark t

  triggering :
      (order_type : OrderType) (o : Order) (request : OrderRequest) (risk : RiskEvaluation)
      (mark : Decimal)
      → Keeps HasIndex (trigger_order order_type o request risk mark)
  unfolding trigger_order
  triggering OrderType.market o request risk mark = executing o request risk mark
  triggering OrderType.limit o request risk mark = limit o request risk mark _
  triggering OrderType.stop_loss o request risk mark = triggered o request risk mark _ _
  triggering OrderType.take_profit o request risk mark = triggered o request risk mark _ _

  reserving_for :
      (side : OrderSide) (o : Order) (request : OrderRequest) (risk : RiskEvaluation)
      (price : Option Decimal)
      → Keeps HasIndex (reserve_for side o request risk price)
  unfolding reserve_for
  reserving_for OrderSide.sell o request risk price = Keeps-pure _
  reserving_for OrderSide.buy o request risk none = Keeps-pure _
  reserving_for OrderSide.buy o request risk (some p) = reserving o _ p risk

  unmarked :
      (order_type : OrderType) (o : Order) (request : OrderRequest) (risk : RiskEvaluation)
      → Keeps HasIndex (route_unmarked order_type o request risk)
  unfolding route_unmarked rest_unmarked
  unmarked OrderType.market o request risk = update-HasIndex o _ risk _
  unmarked OrderType.limit o request risk = update-HasIndex o _ risk _
  unmarked _ o request risk = search (keeps_rules, reserving_for)

  routing :
      (o : Order) (request : OrderRequest) (risk : RiskEvaluation) (mark : Option Decimal)
      → Keeps HasIndex (route o request risk mark)
  unfolding route
  routing o request risk none = unmarked _ o request risk
  routing o request risk (some mark) = search (keeps_rules, reserving_for, triggering) depth 8

  rolling : Keeps HasIndex roll_reject
  unfolding roll_reject
  rolling = record {
    at = λ s h. elim (Bool-cases (le s.config.reject_probability zero)) [
      | inl e ↦ rw e h
      | inr e ↦ rw e h
    ];
  }

  pub accept_order-HasIndex :
      (o : Order) (request : OrderRequest) (risk : RiskEvaluation)
      → Keeps HasIndex (accept_order o request risk)
  unfolding accept_order try_order route_order
  accept_order-HasIndex o request risk =
      search (keeps_rules, update-HasIndex, rolling, routing) depth 12
