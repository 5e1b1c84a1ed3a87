-- ===== src/Accounting/Consistent.antt =====
-- The ledger behind a report of `check_cycle_invariants` without critical violations.
use live_auto_trading.Prelude.{
  ℕ, nat_key, string_key, ◌==◌, ◌≡◌, refl, sym, ap, ◌∙◌, ◌⊎◌, inl, inr, String, Bool, true, false,
  not, ◌&&◌, ◌||◌, Option, none, some, List, [], ◌∷◌, ◌++◌, map, if◌then◌else◌, Bool-cases, arith,
}
use mathlib.Core.Bool.{false≢true}
use live_auto_trading.Decimal.{Decimal, sum_from, zero, add, sub, lt, abs}
use live_auto_trading.Dict.{All, values}
use live_auto_trading.Paper.Ledger.{remaining_of}
use live_auto_trading.Domain.Enums.{OrderStatus}
use live_auto_trading.Domain.Trading.{Fill, Order, Position}
use live_auto_trading.Accounting.Invariants.{
  critical, ViolationCode, equity_identity, negative_cash, negative_reserved, reservation_mismatch,
  negative_position, negative_price, duplicate_fill, double_exit, stale_reservation,
  InvariantViolation, LedgerView, report_if, each, equity_from_cash_and_positions,
  open_reservations, add_reservation, is_filled, has_pair, has_sibling, tolerance,
  position_violations, has_id, fill_violations, is_terminal, exits_twice, order_violations,
  violations_of, no_critical, check_cycle_invariants,
}

-- A position is held, and at prices, that are not negative.
pub record IsSane (p : Position) : Type 0 where
  pub quantity : lt p.quantity zero ≡ false
  pub entry_price : lt p.entry_price zero ≡ false
  pub current_price : lt p.current_price zero ≡ false

-- The ids of the fills differ from one another.
abbrev pub AreDistinct : List Fill → Type 0
AreDistinct [] = Unit
AreDistinct (f ∷ fills) = All (λ g. ¬ (f.id ≡ g.id)) fills × AreDistinct fills

-- The order `other` is of another pair, or not filled, or the order `o` itself.
abbrev pub IsAlone : String → Order → Order → Type 0
IsAlone pair o other =
    ¬ (other.metadata.exit_pair_id ≡ some pair)
    ⊎ ¬ (other.status ≡ OrderStatus.filled)
    ⊎ (other.id ≡ o.id)

abbrev pub IsOver : OrderStatus → Type 0
IsOver s =
    (s ≡ OrderStatus.filled)
    ⊎ (s ≡ OrderStatus.cancelled)
    ⊎ (s ≡ OrderStatus.expired)
    ⊎ (s ≡ OrderStatus.rejected)
    ⊎ (s ≡ OrderStatus.failed)

-- A filled order of an exit pair is alone in it, and an order that is over has no open reservation.
pub record IsSettled (orders : List Order) (o : Order) : Type 0 where
  pub once :
      (o.metadata.exit_pair_id ≡ none)
      ⊎ (o.metadata.exit_pair_id ≡ some "")
      ⊎ ¬ (o.status ≡ OrderStatus.filled)
      ⊎ ((pair : String) × (o.metadata.exit_pair_id ≡ some pair) × All (IsAlone pair o) orders)
  pub closed : (o.metadata.reservation_open ≡ false) ⊎ ¬ IsOver o.status

abbrev pub open_ones : List Order → List Order
open_ones [] = []
open_ones (o ∷ orders) =
    if o.metadata.reservation_open then o ∷ open_ones orders else open_ones orders

-- the cash that open reservations hold
abbrev pub held_back : List Order → Decimal
held_back orders = sum_from zero (map (λ o. remaining_of o.metadata) (open_ones orders))

pub record IsConsistent (v : LedgerView) : Type 0 where
  pub solvent : (v.allow_negative_cash || not (lt v.cash zero)) ≡ true
  pub reserved : lt v.reserved_cash zero ≡ false
  pub matched : lt tolerance (abs (sub (held_back (values v.orders)) v.reserved_cash)) ≡ false
  pub positions : All IsSane (values v.positions)
  pub fills : AreDistinct v.fills
  pub orders : All (IsSettled (values v.orders)) (values v.orders)

-- nothing critical is reported
abbrev pub IsClean : List InvariantViolation → Type 0
IsClean vs = no_critical vs ≡ true

append-IsClean : (vs ws : List InvariantViolation) → IsClean (vs ++ ws) → IsClean vs × IsClean ws
unfolding no_critical
append-IsClean [] ws h = (refl, h)
append-IsClean (v ∷ vs) ws h =
    let (first, rest) = append-IsClean vs ws (ground arith) in (ground arith, rest)

-- A condition that is reported as critical does not hold, and the rest is clean.
report-IsClean :
    (c : Bool) (code : ViolationCode) (ws : List InvariantViolation)
    → IsClean (report_if c code critical ++ ws)
    → (c ≡ false) × IsClean ws
unfolding no_critical report_if
report-IsClean true code ws h = absurd (false≢true h)
report-IsClean false code ws h = (refl, h)

report_last-IsClean :
    (c : Bool) (code : ViolationCode) → IsClean (report_if c code critical) → c ≡ false
unfolding no_critical report_if
report_last-IsClean true code h = sym h
report_last-IsClean false code h = refl

each-IsClean :
    {A : Type 0} (P : A → Type 0) (f : A → List InvariantViolation)
    → ((a : A) → IsClean (f a) → P a)
    → (xs : List A) → IsClean (each f xs)
    → All P xs
unfolding each
each-IsClean P f k [] h = tt
each-IsClean P f k (a ∷ rest) h =
    let (first, later) = append-IsClean (f a) (each f rest) h in
    (k a first, each-IsClean P f k rest later)

position-IsSane : (p : Position) → IsClean (position_violations p) → IsSane p
unfolding position_violations
position-IsSane p h =
    let (quantity, h1) = report-IsClean (lt p.quantity zero) negative_position _ h in
    let (price, h2) =
      report-IsClean (lt p.entry_price zero || lt p.current_price zero) negative_price _ h1 in
    record { quantity = quantity; entry_price = ground arith; current_price = ground arith }

-- The ids are none of `seen`, and are seen themselves from then on.
abbrev AreNew : List ℕ → List Fill → Type 0
AreNew seen [] = Unit
AreNew seen (fill ∷ fills) = (has_id fill.id seen ≡ false) × AreNew (fill.id ∷ seen) fills

fills-AreNew :
    (seen : List ℕ) (fills : List Fill) → IsClean (fill_violations seen fills) → AreNew seen fills
unfolding fill_violations
fills-AreNew seen [] h = tt
fills-AreNew seen (fill ∷ fills) h =
    let (new, rest) = report-IsClean (has_id fill.id seen) duplicate_fill _ h in
    (new, fills-AreNew (fill.id ∷ seen) fills rest)

-- No fill that is new has an id that was seen.
new_differ :
    (id : ℕ) (seen : List ℕ) (fills : List Fill)
    → has_id id seen ≡ true
    → AreNew seen fills
    → All (λ g. ¬ (id ≡ g.id)) fills
new_differ id seen [] h n = tt
new_differ id seen (g ∷ fills) h (new, n) = (
  (λ e. false≢true (sym new ∙ (rw e at h))),
  new_differ id (g.id ∷ seen) fills (rw h (ground arith)) n,
)

new-AreDistinct : (seen : List ℕ) (fills : List Fill) → AreNew seen fills → AreDistinct fills
new-AreDistinct seen [] h = tt
new-AreDistinct seen (f ∷ fills) (new, h) = (
  new_differ f.id (f.id ∷ seen) fills (rw ((nat_key.decides f.id f.id).1 refl) refl) h,
  new-AreDistinct (f.id ∷ seen) fills h,
)

not_filled : (s : OrderStatus) → is_filled s ≡ false → ¬ (s ≡ OrderStatus.filled)
not_filled s h e = false≢true (sym h ∙ ap is_filled e)

not-IsOver : (s : OrderStatus) → is_terminal s ≡ false → ¬ IsOver s
not-IsOver s h over = false≢true (
    sym h ∙ elim over [
      | inl e ↦ ap is_terminal e
      | inr (inl e) ↦ ap is_terminal e
      | inr (inr (inl e)) ↦ ap is_terminal e
      | inr (inr (inr (inl e))) ↦ ap is_terminal e
      | inr (inr (inr (inr e))) ↦ ap is_terminal e
    ])

no_sibling-IsAlone :
    (pair : String) (o : Order) (orders : List Order)
    → has_sibling pair o orders ≡ false
    → All (IsAlone pair o) orders
unfolding has_sibling
no_sibling-IsAlone pair o [] h = tt
no_sibling-IsAlone pair o (other ∷ orders) h = (
  elim (Bool-cases (has_pair pair other.metadata.exit_pair_id)) [
    | inr e ↦ inl (λ same.
        false≢true (sym e ∙ ap (has_pair pair) same ∙ (string_key.decides pair pair).1 refl))
    | inl e ↦ elim (Bool-cases (is_filled other.status)) [
      | inr f ↦ inr (inl (not_filled other.status f))
      | inl f ↦ inr (inr ((nat_key.decides other.id o.id).0 (ground arith)))
    ]
  ],
  no_sibling-IsAlone pair o orders (ground arith),
)

once_lem :
    (orders : List Order) (o : Order) (m : Option String)
    → o.metadata.exit_pair_id ≡ m
    → exits_twice orders o ≡ false
    → (m ≡ none)
      ⊎ (m ≡ some "")
      ⊎ ¬ (o.status ≡ OrderStatus.filled)
      ⊎ ((pair : String) × (m ≡ some pair) × All (IsAlone pair o) orders)
unfolding exits_twice has_sibling
once_lem orders o none e h = inl refl
once_lem orders o (some pair) e h = elim (Bool-cases (pair == "")) [
  | inl blank ↦ inr (inl (ap some ((string_key.decides pair "").0 blank)))
  | inr named ↦ elim (Bool-cases (is_filled o.status)) [
    | inr f ↦ inr (inr (inl (not_filled o.status f)))
    | inl f ↦ inr (inr (inr (pair, refl, no_sibling-IsAlone pair o orders (rw (e, named, f) at h))))
  ]
]

closed_lem :
    (o : Order)
    → (is_terminal o.status && o.metadata.reservation_open) ≡ false
    → (o.metadata.reservation_open ≡ false) ⊎ ¬ IsOver o.status
closed_lem o h = elim (Bool-cases o.metadata.reservation_open) [
  | inr e ↦ inl e
  | inl e ↦ inr (not-IsOver o.status (ground arith))
]

order-IsSettled :
    (orders : List Order) (o : Order) → IsClean (order_violations orders o) → IsSettled orders o
unfolding order_violations
order-IsSettled orders o h =
    let (once, rest) = report-IsClean (exits_twice orders o) double_exit _ h in
    record {
      once = once_lem orders o o.metadata.exit_pair_id refl once;
      closed = closed_lem o (
          report_last-IsClean (is_terminal o.status && o.metadata.reservation_open)
            stale_reservation rest);
    }

open_reservations-sum :
    (total : Decimal) (orders : List Order)
    → open_reservations total orders
      ≡ sum_from total (map (λ o. remaining_of o.metadata) (open_ones orders))
unfolding open_reservations add_reservation sum_from
open_reservations-sum total [] = refl
open_reservations-sum total (o ∷ orders) = elim (Bool-cases o.metadata.reservation_open) [
  | inl e ↦
      rw (open_reservations, open_ones, e)
        (open_reservations-sum (add total (remaining_of o.metadata)) orders)
  | inr e ↦ rw (open_reservations, open_ones, e) (open_reservations-sum total orders)
]

-- A report that is ok has checked the ledger: the cash is not negative unless that is allowed, the reserved
-- cash is not negative and is, within 0.00000001, the sum of what the open reservations still hold, no
-- position and no price is negative, the ids of the fills differ from one another, no order that is over
-- keeps a reservation open, and a filled order of an exit pair is the only filled one of that pair.
pub check-IsConsistent : (v : LedgerView) → (check_cycle_invariants v).ok ≡ true → IsConsistent v
unfolding check_cycle_invariants violations_of
check-IsConsistent v h =
    let (equity, marked) = equity_from_cash_and_positions v.cash v.positions v.reserved_cash in
    let recomputed = add (add v.cash v.reserved_cash) marked in
    let (_, h1) =
      report-IsClean (lt v.equity_tolerance (abs (sub equity recomputed))) equity_identity _ h in
    let (solvent, h2) =
      report-IsClean (not v.allow_negative_cash && lt v.cash zero) negative_cash _ h1 in
    let (reserved, h3) = report-IsClean (lt v.reserved_cash zero) negative_reserved _ h2 in
    let (matched, h4) =
      report-IsClean
        (lt tolerance (abs (sub (open_reservations zero (values v.orders)) v.reserved_cash)))
        reservation_mismatch _ h3 in
    let (positions, h5) = append-IsClean (each position_violations (values v.positions)) _ h4 in
    let (fills, orders) = append-IsClean (fill_violations [] v.fills) _ h5 in
    record {
      solvent = ground arith;
      reserved = reserved;
      matched = rw (open_reservations-sum zero (values v.orders)) at matched;
      positions = each-IsClean IsSane position_violations position-IsSane _ positions;
      fills = new-AreDistinct [] v.fills (fills-AreNew [] v.fills fills);
      orders =
          each-IsClean (IsSettled (values v.orders)) _ (order-IsSettled (values v.orders)) _ orders;
    }
