-- ===== src/Accounting/Invariants.antt =====
-- `check_cycle_invariants`: the violations that it finds in a paper ledger, in its order. Messages
-- are left out, and so is the sum of fees, which it drops.
use live_auto_trading.Prelude.{
  ℕ, String, nat_key, string_key, ◌==◌, Bool, true, false, not, ◌&&◌, ◌||◌, Option, none, some,
  List, [], ◌∷◌, ◌++◌, map, if◌then◌else◌,
}
use live_auto_trading.Integer.{pos}
use live_auto_trading.Decimal.{Decimal, zero, add, sub, mul, lt, abs, sum_from}
use live_auto_trading.Dict.{Dict, values}
use live_auto_trading.Domain.Enums.{OrderStatus}
use live_auto_trading.Domain.Trading.{Fill, Order, Position}
use live_auto_trading.Paper.Ledger.{remaining_of}

pub data Severity : Type 0 where
  critical high : Severity

pub data ViolationCode : Type 0 where
  equity_identity negative_cash negative_reserved reservation_mismatch negative_position :
      ViolationCode
  negative_price unrealized_mismatch duplicate_fill double_exit stale_reservation : ViolationCode

pub record InvariantViolation : Type 0 where
  pub code : ViolationCode
  pub severity : Severity

pub record InvariantReport : Type 0 where
  pub ok : Bool
  pub equity : Decimal
  pub cash : Decimal
  pub reserved_cash : Decimal
  pub marked_position_value : Decimal
  pub violations : List InvariantViolation

-- what the function is called with
pub record LedgerView : Type 0 where
  pub cash : Decimal
  pub positions : Dict String Position
  pub fills : List Fill
  pub orders : Dict ℕ Order
  pub reserved_cash : Decimal
  pub allow_negative_cash : Bool
  pub equity_tolerance : Decimal

unfoldable pub report_if : Bool → ViolationCode → Severity → List InvariantViolation
report_if true code severity = record { code = code; severity = severity } ∷ []
report_if false code severity = []

-- the violations of a list of objects, one after the other
unfoldable pub each :
    {A : Type 0} → (A → List InvariantViolation) → List A → List InvariantViolation
each f [] = []
each f (a ∷ rest) = f a ++ each f rest

-- `equity_from_cash_and_positions`: the equity beside the value of the positions
unfoldable pub equity_from_cash_and_positions :
    Decimal → Dict String Position → Decimal → Decimal × Decimal
equity_from_cash_and_positions cash positions reserved_cash =
    let marked = sum_from zero (map (λ p. mul p.quantity p.current_price) (values positions)) in
    (add (add cash reserved_cash) marked, marked)

unfoldable pub add_reservation : Decimal → Order → Decimal
add_reservation total order =
    if order.metadata.reservation_open then add total (remaining_of order.metadata) else total

unfoldable pub open_reservations : Decimal → List Order → Decimal
open_reservations total [] = total
open_reservations total (order ∷ orders) = open_reservations (add_reservation total order) orders

-- the tolerances of the reservations and of the unrealised profit
abbrev pub tolerance : Decimal
tolerance = record { coeff = pos 1; places = 8 }

abbrev pub cent : Decimal
cent = record { coeff = pos 1; places = 2 }

unfoldable pub position_violations : Position → List InvariantViolation
position_violations p =
    let expected = mul (sub p.current_price p.entry_price) p.quantity in
    report_if (lt p.quantity zero) negative_position critical
    ++ (report_if (lt p.entry_price zero || lt p.current_price zero) negative_price critical
        ++ (report_if (lt cent (abs (sub expected p.unrealized_pnl))) unrealized_mismatch high))

abbrev pub has_id : ℕ → List ℕ → Bool
has_id id [] = false
has_id id (seen ∷ ids) = id == seen || has_id id ids

-- `seen_fill_ids` is the first argument
unfoldable pub fill_violations : List ℕ → List Fill → List InvariantViolation
fill_violations seen [] = []
fill_violations seen (fill ∷ fills) =
    report_if (has_id fill.id seen) duplicate_fill critical
    ++ fill_violations (fill.id ∷ seen) fills

abbrev pub is_filled : OrderStatus → Bool
is_filled OrderStatus.filled = true
is_filled _ = false

abbrev pub is_terminal : OrderStatus → Bool
is_terminal OrderStatus.filled = true
is_terminal OrderStatus.cancelled = true
is_terminal OrderStatus.expired = true
is_terminal OrderStatus.rejected = true
is_terminal OrderStatus.failed = true
is_terminal _ = false

abbrev pub has_pair : String → Option String → Bool
has_pair pair none = false
has_pair pair (some other) = other == pair

-- another filled order of the same pair
unfoldable pub has_sibling : String → Order → List Order → Bool
has_sibling pair order [] = false
has_sibling pair order (o ∷ orders) =
    (has_pair pair o.metadata.exit_pair_id && is_filled o.status && not (o.id == order.id))
    || has_sibling pair order orders

unfoldable pub exits_twice : List Order → Order → Bool
exits_twice orders order = elim order.metadata.exit_pair_id [
  | none ↦ false
  | some pair ↦ not (pair == "") && is_filled order.status && has_sibling pair order orders
]

unfoldable pub order_violations : List Order → Order → List InvariantViolation
order_violations orders order =
    report_if (exits_twice orders order) double_exit critical
    ++ report_if (is_terminal order.status && order.metadata.reservation_open) stale_reservation
        critical

unfoldable pub violations_of : LedgerView → List InvariantViolation
violations_of v =
    let (equity, marked) = equity_from_cash_and_positions v.cash v.positions v.reserved_cash in
    let recomputed = add (add v.cash v.reserved_cash) marked in
    let reserved = open_reservations zero (values v.orders) in
    report_if (lt v.equity_tolerance (abs (sub equity recomputed))) equity_identity critical
    ++ (report_if (not v.allow_negative_cash && lt v.cash zero) negative_cash critical
        ++ (report_if (lt v.reserved_cash zero) negative_reserved critical
            ++ (report_if (lt tolerance (abs (sub reserved v.reserved_cash))) reservation_mismatch
                  critical
                ++ (each position_violations (values v.positions)
                    ++ (fill_violations [] v.fills
                        ++ (each (order_violations (values v.orders)) (values v.orders)))))))

abbrev pub is_critical : Severity → Bool
is_critical critical = true
is_critical high = false

-- `len(critical) == 0`
unfoldable pub no_critical : List InvariantViolation → Bool
no_critical [] = true
no_critical (v ∷ vs) = not (is_critical v.severity) && no_critical vs

unfoldable pub check_cycle_invariants : LedgerView → InvariantReport
check_cycle_invariants v =
    let (equity, marked) = equity_from_cash_and_positions v.cash v.positions v.reserved_cash in
    let violations = violations_of v in
    record {
      ok = no_critical violations;
      equity = equity;
      cash = v.cash;
      reserved_cash = v.reserved_cash;
      marked_position_value = marked;
      violations = violations;
    }

-- `assert_cycle_invariants`: none stands for `AccountingInvariantError`.
unfoldable pub assert_cycle_invariants : LedgerView → Option InvariantReport
assert_cycle_invariants v =
    let report = check_cycle_invariants v in if report.ok then some report else none
