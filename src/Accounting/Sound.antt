-- ===== src/Accounting/Sound.antt =====
-- `check_cycle_invariants` on a paper engine.
use live_auto_trading.Prelude.{
  ℕ, ◌≡◌, ◌⊎◌, inl, inr, refl, sym, Bool, true, false, List, [], ◌∷◌, ◌++◌, arith,
}
use mathlib.Core.Bool.{false≢true}
use live_auto_trading.Integer as Z
use live_auto_trading.Integer.{ℤ, ltb_ℤ, pos, negsuc}
use live_auto_trading.Decimal.{Decimal, zero, lt}
use live_auto_trading.Decimal.Sign.{IsNonneg, IsNonneg-of_pos, lt-zero}
use live_auto_trading.Dict.{All, All-values, values}
use live_auto_trading.Domain.Trading.{Fill, Order, Position}
use live_auto_trading.Paper.State.{Engine}
use live_auto_trading.Paper.Keeps.{IsLong, IsSound}
use live_auto_trading.Accounting.Invariants.{
  Severity, critical, high, ViolationCode, equity_identity, negative_cash, negative_reserved,
  reservation_mismatch, negative_position, negative_price, unrealized_mismatch, duplicate_fill,
  double_exit, stale_reservation, InvariantViolation, LedgerView, report_if, each,
  position_violations, fill_violations, order_violations, violations_of, check_cycle_invariants,
}

-- the ledger of an engine, as the paper session passes it to the check
abbrev pub ledger_view : Decimal → Engine → LedgerView
ledger_view equity_tolerance s = record {
  cash = s.cash;
  positions = s.positions;
  fills = s.fills;
  orders = s.orders;
  reserved_cash = s.reserved_cash;
  allow_negative_cash = false;
  equity_tolerance = equity_tolerance;
}

-- the violations of the sign of an amount
abbrev pub is_sign_code : ViolationCode → Bool
is_sign_code negative_cash = true
is_sign_code negative_reserved = true
is_sign_code negative_position = true
is_sign_code _ = false

abbrev pub IsOther : InvariantViolation → Type 0
IsOther v = is_sign_code v.code ≡ false

report-IsOther :
    (c : Bool) (code : ViolationCode) (severity : Severity)
    → (c ≡ false) ⊎ (is_sign_code code ≡ false)
    → All IsOther (report_if c code severity)
unfolding report_if
report-IsOther true code severity (inl h) = absurd (false≢true (sym h))
report-IsOther true code severity (inr h) = (h, tt)
report-IsOther false code severity h = tt

All-append :
    (vs ws : List InvariantViolation) → All IsOther vs → All IsOther ws → All IsOther (vs ++ ws)
All-append [] ws h k = k
All-append (v ∷ vs) ws (first, h) k = (first, All-append vs ws h k)

each-IsOther :
    {A : Type 0} (P : A → Type 0) (f : A → List InvariantViolation)
    → ((a : A) → P a → All IsOther (f a))
    → (xs : List A) → All P xs
    → All IsOther (each f xs)
unfolding each
each-IsOther P f k [] h = tt
each-IsOther P f k (a ∷ rest) (p, h) =
    All-append (f a) (each f rest) (k a p) (each-IsOther P f k rest h)

lt-zero-IsNonneg : (d : Decimal) → IsNonneg d → lt d zero ≡ false
lt-zero-IsNonneg d h = rw (lt-zero d) (nonneg d.coeff h)
  where
    nonneg : (z : ℤ) → Z.IsNonneg z → ltb_ℤ z (pos 0) ≡ false
    nonneg (pos n) h = ground arith
    nonneg (negsuc n) h = ground arith

position-IsOther : (p : Position) → IsLong p → All IsOther (position_violations p)
unfolding position_violations
position-IsOther p long =
    All-append _ _
      (report-IsOther _ negative_position critical
        (inl (lt-zero-IsNonneg p.quantity (IsNonneg-of_pos p.quantity long))))
      (All-append _ _ (report-IsOther _ negative_price critical (inr refl))
        (report-IsOther _ unrealized_mismatch high (inr refl)))

fills-IsOther : (seen : List ℕ) (fills : List Fill) → All IsOther (fill_violations seen fills)
unfolding fill_violations
fills-IsOther seen [] = tt
fills-IsOther seen (fill ∷ fills) =
    All-append _ _ (report-IsOther _ duplicate_fill critical (inr refl))
      (fills-IsOther (fill.id ∷ seen) fills)

order-IsOther : (orders : List Order) (o : Order) → All IsOther (order_violations orders o)
unfolding order_violations
order-IsOther orders o =
    All-append _ _ (report-IsOther _ double_exit critical (inr refl))
      (report-IsOther _ stale_reservation critical (inr refl))

All-Unit : {A : Type 0} (xs : List A) → All (λ a. Unit {0}) xs
All-Unit [] = tt
All-Unit (x ∷ xs) = (tt, All-Unit xs)

-- Of a paper engine whose ledger is sound, cash included, the check reports no NEGATIVE_CASH, no
-- NEGATIVE_RESERVED and no NEGATIVE_POSITION.
pub check-IsOther :
    (equity_tolerance : Decimal) (s : Engine)
    → IsSound true s
    → All IsOther (check_cycle_invariants (ledger_view equity_tolerance s)).violations
unfolding check_cycle_invariants violations_of
check-IsOther equity_tolerance s h =
    All-append _ _ (report-IsOther _ equity_identity critical (inr refl)) (
      All-append _ _
        (report-IsOther _ negative_cash critical (inl (lt-zero-IsNonneg s.cash h.cash)))
        (All-append _ _
          (report-IsOther _ negative_reserved critical
            (inl (lt-zero-IsNonneg s.reserved_cash h.reserved)))
          (All-append _ _ (report-IsOther _ reservation_mismatch critical (inr refl)) (
            All-append _ _
              (each-IsOther IsLong position_violations position-IsOther (values s.positions)
                (All-values IsLong s.positions h.held))
              (All-append _ _ (fills-IsOther [] s.fills) (
                each-IsOther (λ o. Unit) (order_violations (values s.orders))
                  (λ o u. order-IsOther (values s.orders) o) (values s.orders)
                  (All-Unit (values s.orders))))))))
