-- ===== src/Paper/Sound.antt =====
-- The soundness of the ledger through the bookkeeping of the paper engine.
use live_auto_trading.Prelude.{
  ◌≡◌, refl, Bool, false, Option, none, some, Bool-cases, inl, inr, if◌then◌else◌,
}
use live_auto_trading.Decimal.{Decimal, zero, lt, le, eq, sub, min}
use live_auto_trading.Decimal.Sign.{
  IsNonneg, add-IsNonneg, sub-IsNonneg, le_of_not_lt, min-IsNonneg, IsPositive-of_le-zero,
  IsNonneg-of_pos, lt_irrefl,
}
use live_auto_trading.Domain.Enums.{OrderStatus}
use live_auto_trading.Domain.Trading.{Order, OrderError, RiskEvaluation}
use live_auto_trading.Paper.State.{Engine, Event}
use live_auto_trading.Paper.Action.{pure}
use live_auto_trading.Paper.Ledger.{
  log_event, store_order, update, lock, refuse, lock_or_refuse, reserve_amount, reserve_buy,
  give_back, release_amount, close_reservation, release_some, release_remaining,
  release_buy_reservation, remaining_of, plain_zero,
}
use live_auto_trading.Paper.Keeps.{
  IsSound, IsCovered-of_nonneg, add-IsCovered, Keeps, Keeps-pure, Keeps-if, keeps_rules,
}

-- An amount to release, if one is given, is not negative.
abbrev pub IsNonnegAmount : Option Decimal → Type 0
IsNonnegAmount none = Unit
IsNonnegAmount (some a) = IsNonneg a

plain_zero-IsNonneg : (d : Decimal) → IsNonneg d → IsNonneg (plain_zero d)
plain_zero-IsNonneg d h = elim (Bool-cases (eq d zero)) [ inl e ↦ rw e refl | inr e ↦ rw e h ]

capped :
    (reserved asked : Decimal)
    → IsNonneg asked
    → IsNonneg reserved
    → IsNonneg (if lt reserved asked then reserved else asked)
capped reserved asked h k = elim (Bool-cases (lt reserved asked)) [
  | inl e ↦ rw e k
  | inr e ↦ rw e h
]

capped_le :
    (reserved asked : Decimal) → lt reserved (if lt reserved asked then reserved else asked) ≡ false
capped_le reserved asked = elim (Bool-cases (lt reserved asked)) [
  | inl e ↦ rw e (lt_irrefl reserved)
  | inr e ↦ rw e e
]

release_amount-IsNonneg :
    (amount : Option Decimal) (remaining reserved : Decimal)
    → IsNonnegAmount amount
    → IsNonneg remaining
    → IsNonneg reserved
    → IsNonneg (release_amount amount remaining reserved)
unfolding release_amount
release_amount-IsNonneg none remaining reserved n p h = capped reserved remaining p h
release_amount-IsNonneg (some a) remaining reserved n p h =
    capped reserved (min a remaining) (min-IsNonneg a remaining n p) h

-- A release never exceeds the reserved cash.
release_amount_le :
    (amount : Option Decimal) (remaining reserved : Decimal)
    → lt reserved (release_amount amount remaining reserved) ≡ false
unfolding release_amount
release_amount_le none remaining reserved = capped_le reserved remaining
release_amount_le (some a) remaining reserved = capped_le reserved (min a remaining)

module _ (b : Bool) where
  pub log_event-IsSound : (e : Event) → Keeps (IsSound b) (log_event e)
  unfolding log_event
  log_event-IsSound e = record {
    at = λ s h. record { reserved = h.reserved; held = h.held; cash = h.cash };
  }

  pub store_order-IsSound : (o : Order) → Keeps (IsSound b) (store_order o)
  unfolding store_order
  store_order-IsSound o = record {
    at = λ s h. record { reserved = h.reserved; held = h.held; cash = h.cash };
  }

  pub update-IsSound :
      (o : Order) (status : OrderStatus) (risk : RiskEvaluation) (extra : Option OrderError)
      → Keeps (IsSound b) (update o status risk extra)
  unfolding update
  update-IsSound o status risk extra = search (keeps_rules, log_event-IsSound, store_order-IsSound)

  pub refuse-IsSound :
      (o : Order) (risk : RiskEvaluation) (status : OrderStatus) (e : OrderError)
      → Keeps (IsSound b) (refuse o risk status e)
  unfolding refuse
  refuse-IsSound o risk status e = search (keeps_rules, update-IsSound)

  -- What is locked was available.
  lock-IsSound :
      (o : Order) (amount : Decimal) (s : Engine)
      → IsNonneg amount
      → lt s.cash amount ≡ false
      → IsSound b s
      → IsSound b (lock o amount s).1
  unfolding lock log_event store_order
  lock-IsSound o amount s n c h = record {
    reserved = add-IsNonneg _ _ h.reserved n;
    held = h.held;
    cash = IsCovered-of_nonneg b (sub s.cash amount) (sub-IsNonneg _ _ (le_of_not_lt _ _ c));
  }

  reserve_amount-IsSound :
      (o : Order) (risk : RiskEvaluation) (amount : Decimal)
      → Keeps (IsSound b) (reserve_amount o risk amount)
  unfolding reserve_amount lock_or_refuse
  reserve_amount-IsSound o risk amount = record {
    at = λ s h. elim (Bool-cases (le amount zero)) [
      | inl e ↦ rw e h
      | inr e ↦ elim (Bool-cases (lt s.cash amount)) [
        | inl f ↦ rw (e, f) ((refuse-IsSound o risk _ _).at s h)
        | inr f ↦
            rw (e, f)
              (lock-IsSound o amount s (IsNonneg-of_pos amount (IsPositive-of_le-zero amount e)) f
                h)
      ]
    ];
  }

  pub reserve_buy-IsSound :
      (o : Order) (qty price : Decimal) (risk : RiskEvaluation)
      → Keeps (IsSound b) (reserve_buy o qty price risk)
  unfolding reserve_buy
  reserve_buy-IsSound o qty price risk = search (keeps_rules, reserve_amount-IsSound)

  -- What is given back is no more than what is reserved.
  give_back-IsSound :
      (o : Order) (release left : Decimal) (s : Engine)
      → IsNonneg release
      → lt s.reserved_cash release ≡ false
      → IsSound b s
      → IsSound b (give_back o release left s).1
  unfolding give_back log_event store_order
  give_back-IsSound o release left s n c h = record {
    reserved = plain_zero-IsNonneg _ (sub-IsNonneg _ _ (le_of_not_lt _ _ c));
    held = h.held;
    cash = add-IsCovered b s.cash release h.cash n;
  }

  close_reservation-IsSound : (o : Order) → Keeps (IsSound b) (close_reservation o)
  unfolding close_reservation
  close_reservation-IsSound o = search (keeps_rules, store_order-IsSound)

  release_some-IsSound :
      (o : Order) (amount : Option Decimal) (remaining : Decimal)
      → IsNonnegAmount amount
      → IsNonneg remaining
      → Keeps (IsSound b) (release_some o amount remaining)
  unfolding release_some
  release_some-IsSound o amount remaining n p = record {
    at = λ s h.
        give_back-IsSound o (release_amount amount remaining s.reserved_cash) _ s
          (release_amount-IsNonneg amount remaining s.reserved_cash n p h.reserved)
          (release_amount_le amount remaining s.reserved_cash) h;
  }

  release_remaining-IsSound :
      (o : Order) (amount : Option Decimal) (remaining : Decimal)
      → IsNonnegAmount amount
      → Keeps (IsSound b) (release_remaining o amount remaining)
  unfolding release_remaining
  release_remaining-IsSound o amount remaining n = elim (Bool-cases (le remaining zero)) [
    | inl e ↦ rw e (close_reservation-IsSound o)
    | inr e ↦ rw e (
        release_some-IsSound o amount remaining n
          (IsNonneg-of_pos remaining (IsPositive-of_le-zero remaining e)))
  ]

  pub release-IsSound :
      (o : Order) (amount : Option Decimal)
      → IsNonnegAmount amount
      → Keeps (IsSound b) (release_buy_reservation o amount)
  unfolding release_buy_reservation
  release-IsSound o amount n =
      Keeps-if o.metadata.reservation_open (release_remaining o amount (remaining_of o.metadata))
        (pure o) (release_remaining-IsSound o amount (remaining_of o.metadata) n) (Keeps-pure o)
