-- ===== src/Gateway/Tests.antt =====
-- Runs of the order gateway, and its theorems at concrete inputs.
use live_auto_trading.Prelude.{string_key, nat_key, ◌≡◌, refl}
use live_auto_trading.Dict.{lookup, insert}
use live_auto_trading.Domain.Trading.{Order}
use live_auto_trading.Decimal
use live_auto_trading.Paper.Orders as paper
use live_auto_trading.Paper.Filling as filling
use live_auto_trading.Paper.Ledger as ledger
use live_auto_trading.Paper.Tests.{engine}
use live_auto_trading.Risk.Gates as gates
use live_auto_trading.Risk.Limits as limits
use live_auto_trading.Risk.Engine as risk
use live_auto_trading.Risk.Tests.{settings, context, healthy, request}
use live_auto_trading.Gateway.Submit.{
  OrderGateway, Outcome, submitted, resized, tagged, send, dispatch, judged, submit,
}
use live_auto_trading.Gateway.Safety.{Comes, submit_cases, submit_once}

abbrev pub gateway : OrderGateway
gateway = record { backend = engine; risk_engine = healthy }

abbrev sent : Outcome × OrderGateway
sent = submit settings request context 2_000_000 2_000_001 gateway

abbrev order_in : Order → Outcome → Order
order_in default (submitted o) = o
order_in default _ = default

abbrev order : Order
order = order_in (paper.new_order 0 request) sent.0

-- The order for two units is reduced to one, which the paper engine fills.
first_sent : sent ≡ (submitted order, sent.1)
unfolding submit judged dispatch send resized tagged risk.evaluate risk.weigh risk.conclude
    risk.record_acceptance gates.check_gates gates.check_halts gates.kill_switch_on gates.is_live
    gates.check_permissions gates.holds_long gates.check_health gates.check_fresh gates.is_stale
    gates.check_prices gates.check_size limits.check_limits limits.check_rate limits.recent
    limits.cooling_down limits.check_losses limits.daily_loss limits.equity_of limits.open_notional
    limits.units_in limits.size_by_fraction limits.size_by_risk limits.cap_position
    limits.cap_portfolio limits.check_final Decimal.add Decimal.sub Decimal.mul Decimal.div
    Decimal.lt Decimal.min Decimal.le Decimal.eq Decimal.quantize Decimal.sum_from Decimal.truthy
    paper.submit paper.known_or_new paper.place_order paper.enter_order paper.new_order
    paper.accept_order paper.try_order paper.roll_reject paper.route_order paper.route
    paper.effective_mark paper.reserve_for paper.trigger_order paper.holds_back filling.new_uuid
    filling.execute_fill filling.fill_price filling.moved_price filling.fill_checked
    filling.conclude filling.fill_up filling.apply_fill filling.fee_rate filling.record_fill
    filling.settle filling.settle_and_count filling.apply_buy filling.release_share
    filling.release_part filling.buy_for filling.pay_and_take filling.pay filling.take_position
    filling.extend_position filling.filled_order ledger.log_event ledger.store_order ledger.update
    ledger.updated_order ledger.reserve_price ledger.reserve_buy ledger.reserve_amount
    ledger.lock_or_refuse ledger.lock ledger.release_buy_reservation ledger.release_remaining
    ledger.release_some ledger.release_amount ledger.give_back lookup insert
first_sent = refl

submit_cases_example : Comes settings context 2_000_000 2_000_001 request gateway sent
submit_cases_example = submit_cases settings request context 2_000_000 2_000_001 gateway

submit_once_example :
    (submit settings request context 3_000_000 3_000_001 sent.1).1.backend ≡ sent.1.backend
submit_once_example =
    submit_once settings settings request request context context 2_000_000 2_000_001 3_000_000
      3_000_001 gateway refl first_sent refl
