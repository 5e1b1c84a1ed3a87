-- ===== src/Reconciliation/Run.antt =====
-- `run_paper_reconciliation`, over the paper session's engine and risk engine, which a gateway holds,
-- and the flags of the module, `_STATE`. The formatted amounts of a mismatch and what is persisted are
-- left out.
use live_auto_trading.Prelude.{
  ℕ, nat_key, string_key, ◌==◌, String, Bool, true, false, not, ◌&&◌, ◌||◌, Option, none, some,
  List, [], ◌∷◌, ◌++◌, map, if◌then◌else◌, is_empty, length,
}
use live_auto_trading.Integer.{pos}
use live_auto_trading.Decimal.{Decimal, zero, add, sub, mul, lt, le, abs, sum_from}
use live_auto_trading.Dict.{Dict, lookup, insert, values}
use live_auto_trading.Domain.Enums.{OrderSide}
use live_auto_trading.Domain.Trading.{Fill, Order, Position}
use live_auto_trading.Paper.State.{Engine}
use live_auto_trading.Accounting.Invariants.{Severity, critical, high, is_critical, tolerance}
use live_auto_trading.Gateway.Submit.{OrderGateway}

-- what a mismatch is about
pub data Field : Type 0 where
  cash_field cash_vs_fill_ledger : Field
  quantity_of price_of versus_fills : String → Field
  filled_qty_of : ℕ → Field

pub record Mismatch : Type 0 where
  pub field : Field
  pub severity : Severity

pub data Detail : Type 0 where
  reconciliation_disabled fine ok_with_warnings negative_cash invalid_state : Detail
  cash_drift : Decimal → Detail
  first_field : Field → Detail
  reconciliation_failed : Detail

pub record ReconciliationResult : Type 0 where
  pub healthy : Bool
  pub cash_ok : Bool
  pub positions_ok : Bool
  pub detail : Detail
  pub cash : Decimal
  pub position_count : ℕ
  pub mismatches : List Mismatch
  pub equity : Decimal
  pub reconstructed_cash : Decimal

-- `_STATE`
pub record Flags : Type 0 where
  pub healthy : Bool
  pub halted : Bool
  pub last_result : Option ReconciliationResult

abbrev pub is_reconciliation_healthy : Flags → Bool
is_reconciliation_healthy f = f.healthy && not f.halted

pub record Desk : Type 0 where
  pub flags : Flags
  pub session : OrderGateway

-- the two settings that it reads
pub record ReconciliationSettings : Type 0 where
  pub enable_reconciliation : Bool
  pub paper_starting_balance : Decimal

abbrev pub mismatch_if : Bool → Field → Severity → List Mismatch
mismatch_if true field severity = record { field = field; severity = severity } ∷ []
mismatch_if false field severity = []

unfoldable pub cash_is_ok : Engine → Bool
cash_is_ok s = le zero s.cash && le zero s.reserved_cash

abbrev pub bad_quantity : Position → Bool
bad_quantity p = lt p.quantity zero

abbrev pub bad_price : Position → Bool
bad_price p = le p.entry_price zero || lt p.current_price zero

unfoldable pub position_mismatches : Dict String Position → List Mismatch
position_mismatches [] = []
position_mismatches ((symbol, p) ∷ positions) =
    mismatch_if (bad_quantity p) (quantity_of symbol) critical
    ++ (mismatch_if (bad_price p) (price_of symbol) critical ++ position_mismatches positions)

unfoldable pub positions_are_ok : Dict String Position → Bool
positions_are_ok [] = true
positions_are_ok ((symbol, p) ∷ positions) =
    not (bad_quantity p) && (not (bad_price p) && positions_are_ok positions)

abbrev pub or_zero : Option Decimal → Decimal
or_zero none = zero
or_zero (some d) = d

-- One fill of the rebuilt ledger: the cash, and the net quantity of each symbol.
unfoldable pub replay_fill :
    OrderSide → Fill → Decimal × Dict String Decimal → Decimal × Dict String Decimal
replay_fill OrderSide.buy f (cash, net) = (
  sub cash (add (mul f.quantity f.price) f.fee),
  insert f.symbol (add (or_zero (lookup f.symbol net)) f.quantity) net,
)
replay_fill OrderSide.sell f (cash, net) = (
  add cash (sub (mul f.quantity f.price) f.fee),
  insert f.symbol (sub (or_zero (lookup f.symbol net)) f.quantity) net,
)

unfoldable pub replay_fills :
    List Fill → Decimal × Dict String Decimal → Decimal × Dict String Decimal
replay_fills [] ledger = ledger
replay_fills (f ∷ fills) ledger = replay_fills fills (replay_fill f.side f ledger)

abbrev pub unexplained : Dict String Decimal → String → Position → Bool
unexplained net symbol p = lt tolerance (abs (sub (or_zero (lookup symbol net)) p.quantity))

unfoldable pub fills_mismatches : Dict String Decimal → Dict String Position → List Mismatch
fills_mismatches net [] = []
fills_mismatches net ((symbol, p) ∷ positions) =
    mismatch_if (unexplained net symbol p) (versus_fills symbol) high
    ++ fills_mismatches net positions

unfoldable pub all_explained : Dict String Decimal → Dict String Position → Bool
all_explained net [] = true
all_explained net ((symbol, p) ∷ positions) =
    not (unexplained net symbol p) && all_explained net positions

abbrev pub is_absent : Option Position → Bool
is_absent none = true
is_absent (some p) = false

-- no symbol was bought, on balance, that has no position
unfoldable pub all_held : Dict String Position → Dict String Decimal → Bool
all_held positions [] = true
all_held positions ((symbol, qty) ∷ net) =
    not (lt zero qty && is_absent (lookup symbol positions)) && all_held positions net

unfoldable pub filled_of : ℕ → List Fill → List Decimal
filled_of order_id [] = []
filled_of order_id (f ∷ fills) =
    if f.order_id == order_id
    then f.quantity ∷ filled_of order_id fills
    else filled_of order_id fills

abbrev pub overfilled : List Fill → Order → Bool
overfilled fills order = lt order.quantity (sum_from zero (filled_of order.id fills))

unfoldable pub order_mismatches : List Fill → List Order → List Mismatch
order_mismatches fills [] = []
order_mismatches fills (order ∷ orders) =
    mismatch_if (overfilled fills order) (filled_qty_of order.id) critical
    ++ order_mismatches fills orders

unfoldable pub orders_are_ok : List Fill → List Order → Bool
orders_are_ok fills [] = true
orders_are_ok fills (order ∷ orders) = not (overfilled fills order) && orders_are_ok fills orders

abbrev pub drift_limit : Decimal
drift_limit = record { coeff = pos 5; places = 2 }

unfoldable pub no_critical : List Mismatch → Bool
no_critical [] = true
no_critical (m ∷ ms) = not (is_critical m.severity) && no_critical ms

-- the first critical mismatch, or the first of all
unfoldable pub first_critical : Detail → List Mismatch → Detail
first_critical default [] = default
first_critical default (m ∷ ms) =
    if is_critical m.severity then first_field m.field else first_critical default ms

abbrev pub default_detail : List Mismatch → Detail
default_detail [] = reconciliation_failed
default_detail (m ∷ ms) = first_field m.field

unfoldable pub detail_of : Bool → Bool → Bool → Bool → Decimal → List Mismatch → Detail
detail_of true cash_ok positions_ok drift_ok drift ms =
    if is_empty ms then fine else ok_with_warnings
detail_of false cash_ok positions_ok drift_ok drift ms =
    if not cash_ok
    then negative_cash
    else if not positions_ok
    then invalid_state
    else if not drift_ok
    then cash_drift drift
    else first_critical (default_detail ms) ms

unfoldable pub reconcile : Decimal → Engine → ReconciliationResult
reconcile starting_balance s =
    let ledger = replay_fills s.fills (starting_balance, []) in
    let total_cash = add s.cash s.reserved_cash in
    let complete = all_explained ledger.1 s.positions && all_held s.positions ledger.1 in
    let drift = abs (sub ledger.0 total_cash) in
    let drift_ok = is_empty s.fills || (not complete || le drift drift_limit) in
    let positions_ok = positions_are_ok s.positions && orders_are_ok s.fills (values s.orders) in
    let mismatches =
      mismatch_if (not (cash_is_ok s)) cash_field critical
      ++ (position_mismatches s.positions
          ++ (fills_mismatches ledger.1 s.positions
              ++ (mismatch_if (not drift_ok) cash_vs_fill_ledger critical
                  ++ order_mismatches s.fills (values s.orders)))) in
    let healthy = cash_is_ok s && (positions_ok && (drift_ok && no_critical mismatches)) in
    record {
      healthy = healthy;
      cash_ok = cash_is_ok s && drift_ok;
      positions_ok = positions_ok;
      detail = detail_of healthy (cash_is_ok s) positions_ok drift_ok drift mismatches;
      cash = total_cash;
      position_count = length s.positions;
      mismatches = mismatches;
      equity =
          add total_cash
            (sum_from zero (map (λ p. mul p.quantity p.current_price) (values s.positions)));
      reconstructed_cash = if is_empty s.fills then total_cash else ledger.0;
    }

abbrev pub disabled_result : ReconciliationResult
disabled_result = record {
  healthy = true;
  cash_ok = true;
  positions_ok = true;
  detail = reconciliation_disabled;
  cash = zero;
  position_count = 0;
  mismatches = [];
  equity = zero;
  reconstructed_cash = zero;
}

-- The result goes into the flags and into the risk engine.
unfoldable pub published : ReconciliationResult → Desk → Desk
published r d = record {
  flags = record { healthy = r.healthy; halted = not r.healthy; last_result = some r };
  session = record d.session {
    risk_engine = record d.session.risk_engine { reconciliation_healthy = r.healthy };
  };
}

unfoldable pub run_paper_reconciliation :
    ReconciliationSettings → Desk → ReconciliationResult × Desk
run_paper_reconciliation settings d =
    if settings.enable_reconciliation
    then (let r = reconcile settings.paper_starting_balance d.session.backend in (r, published r d))
    else (
      disabled_result,
      record d {
        flags = record { healthy = true; halted = false; last_result = some disabled_result };
      },
    )

-- `clear_reconciliation_halt`
unfoldable pub clear_reconciliation_halt : Desk → Desk
clear_reconciliation_halt d = record {
  flags = record d.flags { healthy = true; halted = false };
  session = record d.session {
    risk_engine = record d.session.risk_engine { reconciliation_healthy = true };
  };
}

-- `apply_halt_from_storage`
unfoldable pub apply_halt_from_storage : Bool → Desk → Desk
apply_halt_from_storage halted d = record d {
  flags = record d.flags { healthy = not halted; halted = halted };
}
