-- ===== src/Accounting/Tests.antt =====
-- Runs of the accounting checks, and their theorems at concrete inputs.
use live_auto_trading.Prelude.{string_key, nat_key, ◌≡◌, refl, true, false, none, [], ◌∷◌}
use live_auto_trading.Decimal
use live_auto_trading.Decimal.{Decimal, zero}
use live_auto_trading.Dict.{All, values}
use live_auto_trading.Domain.Enums.{OrderStatus}
use live_auto_trading.Domain.Trading.{Order, Position}
use live_auto_trading.Paper.Ledger.{reserved_metadata}
use live_auto_trading.Paper.Orders.{new_order}
use live_auto_trading.Paper.Tests.{engine, limit_buy, cents, empty-IsSound}
use live_auto_trading.Accounting.Invariants.{
  LedgerView, report_if, each, equity_from_cash_and_positions, add_reservation, open_reservations,
  position_violations, fill_violations, has_sibling, exits_twice, order_violations, violations_of,
  no_critical, check_cycle_invariants,
}
use live_auto_trading.Accounting.Consistent.{IsConsistent, check-IsConsistent}
use live_auto_trading.Accounting.Sound.{ledger_view, IsOther, check-IsOther}

-- a buy at 90 that rests, with its 180 reserved
abbrev resting : Order
resting =
    let order = new_order 7 limit_buy in
    record order {
      status = OrderStatus.submitted;
      metadata = reserved_metadata order.metadata (cents 18000);
    }

abbrev pub held : Position
held = record {
  symbol = "BTC/USDT";
  quantity = cents 100;
  entry_price = cents 9000;
  current_price = cents 9500;
  unrealized_pnl = cents 500;
  realized_pnl = zero;
  strategy_name = none;
  stop_loss = none;
  take_profit = none;
}

abbrev ledger : LedgerView
ledger = record {
  cash = cents 982000;
  positions = ("BTC/USDT", held) ∷ [];
  fills = [];
  orders = (7, resting) ∷ [];
  reserved_cash = cents 18000;
  allow_negative_cash = false;
  equity_tolerance = zero;
}

ledger_ok : (check_cycle_invariants ledger).ok ≡ true
unfolding check_cycle_invariants violations_of report_if each equity_from_cash_and_positions
    add_reservation open_reservations position_violations fill_violations has_sibling exits_twice
    order_violations no_critical new_order values Decimal.add Decimal.sub Decimal.mul Decimal.lt
    Decimal.abs Decimal.sum_from
ledger_ok = refl

check-IsConsistent_example : IsConsistent ledger
check-IsConsistent_example = check-IsConsistent ledger ledger_ok

check-IsOther_example : All IsOther (check_cycle_invariants (ledger_view zero engine)).violations
check-IsOther_example = check-IsOther zero engine empty-IsSound
