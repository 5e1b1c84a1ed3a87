-- ===== src/Paper/Tests.antt =====
-- Runs of the paper engine, and its theorems at concrete inputs.
use live_auto_trading.Prelude.{ℕ, nat_key, ◌+◌, ◌≡◌, refl, true, false, none, some, [], ◌∷◌}
use live_auto_trading.Integer.{pos}
use live_auto_trading.Decimal
use live_auto_trading.Decimal.{Decimal, zero, one}
use live_auto_trading.Dict.{lookup, insert}
use live_auto_trading.Domain.Enums.{OrderSide, OrderType, RiskDecision, RiskReasonCode}
use live_auto_trading.Domain.Trading.{Order, OrderRequest, RiskEvaluation}
use live_auto_trading.Paper.State.{PaperConfig, Engine, new_engine}
use live_auto_trading.Paper.Action.{Result, ok, raised}
use live_auto_trading.Paper.Ledger.{
  log_event, store_order, update, updated_order, reserve_price, lock, lock_or_refuse,
  reserve_amount, reserve_buy,
}
use live_auto_trading.Paper.Ledger.{
  release_buy_reservation, release_remaining, release_some, release_amount, give_back,
}
use live_auto_trading.Paper.Filling.{new_uuid}
use live_auto_trading.Paper.Orders.{
  submit, known_or_new, place_order, enter_order, new_order, accept_order, try_order, roll_reject,
  route_order, route, effective_mark, reserve_for, trigger_order, limit_order, fill_or_rest,
  holds_back,
}
use live_auto_trading.Paper.Idempotent.{submit_idempotent}
use live_auto_trading.Paper.Resting.{
  no_metadata, set_mark_price, is_cancellable, cancel, cancel_order, cancel_open, expire,
}
use live_auto_trading.Paper.Final.{cancel_final}
use live_auto_trading.Paper.Keeps.{IsSound}
use live_auto_trading.Paper.OrdersSound.{submit-IsSound}
use live_auto_trading.Paper.RestingSound.{set_mark_price-IsSound, cancel-IsSound, expire-IsSound}

abbrev pub cents : ℕ → Decimal
cents n = record { coeff = pos n; places = 2 }

-- the defaults of `PaperConfig`, with one mark price of 100
abbrev config : PaperConfig
config = record {
  initial_cash = cents 1000000;
  fee_rate = record { coeff = pos 1; places = 3 };
  maker_fee_rate = none;
  taker_fee_rate = none;
  slippage_rate = record { coeff = pos 5; places = 4 };
  spread_rate = record { coeff = pos 2; places = 4 };
  partial_fill_fraction = one;
  reject_probability = zero;
  mark_prices = ("BTC/USDT", cents 10000) ∷ [];
}

abbrev pub engine : Engine
engine = new_engine config (λ n. n + 1000) (λ n. zero)

abbrev order_of : OrderSide → OrderType → ℕ → OrderRequest
order_of side order_type price = record {
  symbol = "BTC/USDT";
  side = side;
  order_type = order_type;
  quantity = cents 200;
  price = some (cents price);
  stop_loss = none;
  take_profit = none;
  strategy_name = none;
  signal_id = none;
  idempotency_key = "k1";
  reduce_only = false;
  metadata = no_metadata;
}

abbrev approving : RiskEvaluation
approving = record {
  decision = RiskDecision.approved;
  reason_code = RiskReasonCode.ok;
  approved_quantity = some (cents 200);
}

abbrev market_buy : OrderRequest
market_buy = order_of OrderSide.buy OrderType.market 10000

abbrev pub limit_buy : OrderRequest
limit_buy = order_of OrderSide.buy OrderType.limit 9000

-- A limit buy at 90 rests, with 180 locked.
rests :
    (submit limit_buy approving engine).1.reserved_cash
    ≡ record { coeff = pos 18000000000; places = 8 }
unfolding submit known_or_new place_order enter_order new_uuid log_event store_order new_order
    accept_order update updated_order try_order roll_reject route_order route effective_mark
    reserve_for reserve_price reserve_buy reserve_amount lock_or_refuse lock trigger_order
    limit_order fill_or_rest holds_back lookup insert Decimal.add Decimal.sub Decimal.mul Decimal.lt
    Decimal.le Decimal.quantize Decimal.truthy
rests = refl

pub empty-IsSound : IsSound true engine
empty-IsSound = record { reserved = refl; held = tt; cash = refl }

submit-IsSound_example : IsSound true (submit market_buy approving engine).1
submit-IsSound_example = submit-IsSound true market_buy approving engine tt empty-IsSound

set_mark_price-IsSound_example : IsSound true (set_mark_price "BTC/USDT" (cents 8900) engine).1
set_mark_price-IsSound_example =
    set_mark_price-IsSound true "BTC/USDT" (cents 8900) engine tt empty-IsSound

cancel-IsSound_example : IsSound true (cancel 1000 engine).1
cancel-IsSound_example = cancel-IsSound true 1000 engine empty-IsSound

expire-IsSound_example : IsSound true (expire 1000 engine).1
expire-IsSound_example = expire-IsSound true 1000 engine empty-IsSound

-- the order that a call returned
abbrev returned : Order → Result Order → Order
returned default (ok o) = o
returned default (raised e) = default

abbrev first_order : Order
first_order = returned (new_order 0 limit_buy) (submit limit_buy approving engine).0

first_submit :
    submit limit_buy approving engine ≡ (ok first_order, (submit limit_buy approving engine).1)
unfolding submit known_or_new place_order enter_order new_uuid log_event store_order new_order
    accept_order update updated_order try_order roll_reject route_order route effective_mark
    reserve_for reserve_price reserve_buy reserve_amount lock_or_refuse lock trigger_order
    limit_order fill_or_rest holds_back lookup insert Decimal.add Decimal.sub Decimal.mul Decimal.lt
    Decimal.le Decimal.quantize Decimal.truthy
first_submit = refl

submit_idempotent_example :
    let s' = (submit limit_buy approving engine).1 in
    (again : Order) × (submit market_buy approving s' ≡ (ok again, s'))
    × (lookup first_order.id s'.orders ≡ some again)
unfolding lookup
submit_idempotent_example =
    submit_idempotent limit_buy market_buy approving approving engine refl refl first_submit

abbrev rested : Engine
rested = (submit limit_buy approving engine).1

abbrev cancelled_order : Order
cancelled_order = returned first_order (cancel 1000 rested).0

-- The cancelled order gives its 180 back.
first_cancel : cancel 1000 rested ≡ (ok cancelled_order, (cancel 1000 rested).1)
unfolding submit known_or_new place_order enter_order new_uuid log_event store_order new_order
    accept_order update updated_order try_order roll_reject route_order route effective_mark
    reserve_for reserve_price reserve_buy reserve_amount lock_or_refuse lock trigger_order
    limit_order fill_or_rest holds_back lookup insert Decimal.add Decimal.sub Decimal.mul Decimal.lt
    Decimal.le Decimal.quantize Decimal.truthy cancel cancel_order cancel_open
    release_buy_reservation release_remaining release_some release_amount give_back
first_cancel = refl

cancel_final_example :
    (is_cancellable cancelled_order.status ≡ false)
    × (cancel 1000 (cancel 1000 rested).1 ≡ (ok cancelled_order, (cancel 1000 rested).1))
    × (expire 1000 (cancel 1000 rested).1 ≡ (ok cancelled_order, (cancel 1000 rested).1))
cancel_final_example = cancel_final 1000 rested first_cancel
