-- ===== src/Paper/Same.antt =====
-- The order that the calls of the paper engine return.
use live_auto_trading.Prelude.{◌≡◌, refl, true, Option, none, some}
use live_auto_trading.Decimal.{Decimal, zero, sub, le}
use live_auto_trading.Domain.Enums.{OrderSide, OrderStatus}
use live_auto_trading.Domain.Trading.{Order, OrderError, OrderRequest, RiskEvaluation}
use live_auto_trading.Paper.Ledger.{
  log_event, store_order, update, updated_order, lock, refuse, lock_or_refuse, reserve_amount,
  reserve_buy, give_back, close_reservation, release_some, release_remaining,
  release_buy_reservation, remaining_of, release_amount,
}
use live_auto_trading.Paper.Action.{pure, gets}
use live_auto_trading.Paper.Orders.{reserve_for}
use live_auto_trading.Paper.Keeps.{Yields, Yields-pure, Yields-if, Yields-bind, yields_rules}

-- the same order, further on
pub record SameOrder (a b : Order) : Type 0 where
  pub id : b.id ≡ a.id
  pub side : b.side ≡ a.side

pub SameOrder-refl : (o : Order) → SameOrder o o
SameOrder-refl o = record { id = refl; side = refl }

module _ (o : Order) where
  pub update-SameOrder :
      (status : OrderStatus) (risk : RiskEvaluation) (extra : Option OrderError)
      → Yields (SameOrder o) (update o status risk extra)
  unfolding update updated_order store_order log_event
  update-SameOrder status risk extra = record { at = λ s. record { id = refl; side = refl } }

  pub refuse-SameOrder :
      (risk : RiskEvaluation) (status : OrderStatus) (e : OrderError)
      → Yields (λ r. SameOrder o r.0) (refuse o risk status e)
  unfolding refuse update updated_order store_order log_event
  refuse-SameOrder risk status e = record { at = λ s. record { id = refl; side = refl } }

  lock-SameOrder : (amount : Decimal) → Yields (λ r. SameOrder o r.0) (lock o amount)
  unfolding lock store_order log_event
  lock-SameOrder amount = record { at = λ s. record { id = refl; side = refl } }

  pub reserve_buy-SameOrder :
      (qty price : Decimal) (risk : RiskEvaluation)
      → Yields (λ r. SameOrder o r.0) (reserve_buy o qty price risk)
  unfolding reserve_buy reserve_amount lock_or_refuse
  reserve_buy-SameOrder qty price risk =
      search (yields_rules, refuse-SameOrder, lock-SameOrder, SameOrder-refl) depth 9

  pub reserve_for-SameOrder :
      (side : OrderSide) (request : OrderRequest) (risk : RiskEvaluation) (price : Option Decimal)
      → Yields (λ r. SameOrder o r.0) (reserve_for side o request risk price)
  unfolding reserve_for
  reserve_for-SameOrder OrderSide.sell request risk price = Yields-pure (o, true) (SameOrder-refl o)
  reserve_for-SameOrder OrderSide.buy request risk none = Yields-pure (o, true) (SameOrder-refl o)
  reserve_for-SameOrder OrderSide.buy request risk (some p) = reserve_buy-SameOrder _ p risk

  give_back-SameOrder : (release left : Decimal) → Yields (SameOrder o) (give_back o release left)
  unfolding give_back store_order log_event
  give_back-SameOrder release left = record { at = λ s. record { id = refl; side = refl } }

  close-SameOrder : Yields (SameOrder o) (close_reservation o)
  unfolding close_reservation store_order
  close-SameOrder = record { at = λ s. record { id = refl; side = refl } }

  pub release-SameOrder :
      (amount : Option Decimal) → Yields (SameOrder o) (release_buy_reservation o amount)
  unfolding release_buy_reservation release_remaining release_some
  release-SameOrder amount =
      Yields-if o.metadata.reservation_open _ (pure o)
        (Yields-if (le (remaining_of o.metadata) zero) _ _ close-SameOrder (
          Yields-bind (gets (λ s. s.reserved_cash))
            (λ reserved. give_back o (release_amount amount (remaining_of o.metadata) reserved) (
              sub (remaining_of o.metadata)
                (release_amount amount (remaining_of o.metadata) reserved)))
            (λ reserved. give_back-SameOrder _ _)))
        (Yields-pure o (SameOrder-refl o))
