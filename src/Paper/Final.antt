-- ===== src/Paper/Final.antt =====
-- Calls of `cancel` and `expire` on an order that is over.
use live_auto_trading.Prelude.{
  ℕ, nat_key, ◌≡◌, refl, sym, Bool, true, false, Option, none, some, if◌then◌else◌,
}
use mathlib.Core.Path.{subst}
use mathlib.Core.Bool.{false≢true}
use live_auto_trading.Dict.{lookup, insert, lookup-insert_self}
use live_auto_trading.Domain.Enums.{OrderStatus}
use live_auto_trading.Domain.Trading.{Order}
use live_auto_trading.Paper.State.{Engine, order_cancelled}
use live_auto_trading.Paper.Action.{
  Result, ok, raised, key_error, pure, modify, or_raise, continue, ◌>>=◌, ◌>>◌,
}
use live_auto_trading.Paper.Ledger.{log_event, release_buy_reservation}
use live_auto_trading.Paper.Resting.{
  is_cancellable, is_expirable, cancel_open, cancel_order, cancel, expire_order, expire,
}

-- The order is known under the id, and over.
record IsOver (id : ℕ) (o : Order) (s : Engine) : Type 0 where
  known : lookup id s.orders ≡ some o
  over : is_cancellable o.status ≡ false

abbrev LeavesOver : ℕ → Result Order × Engine → Type 0
LeavesOver id (ok o, s) = IsOver id o s
LeavesOver id (raised e, s) = Unit

cancel_open-LeavesOver :
    (id : ℕ) (order : Order) (s : Engine) → LeavesOver id (cancel_open id order s)
unfolding cancel_open log_event
cancel_open-LeavesOver id order s = closed (release_buy_reservation order none s)
  where
    closed :
        (m : Result Order × Engine)
        → LeavesOver id (
            continue m.0
              (λ released.
                (let updated = record released { status = OrderStatus.cancelled } in
                  modify (λ t. record t { orders = insert id updated t.orders })
                  >> (log_event (order_cancelled id) >> pure updated)))
              m.1)
    closed (ok released, t) = record { known = lookup-insert_self id _ t.orders; over = refl }
    closed (raised e, t) = tt

cancel-LeavesOver : (id : ℕ) (s : Engine) → LeavesOver id (cancel id s)
unfolding cancel cancel_order
cancel-LeavesOver id s = found (lookup id s.orders) refl
  where
    unless_over :
        (order : Order) (c : Bool)
        → lookup id s.orders ≡ some order
        → is_cancellable order.status ≡ c
        → LeavesOver id ((if c then cancel_open id order else pure order) s)
    unless_over order true e h = cancel_open-LeavesOver id order s
    unless_over order false e h = record { known = e; over = h }

    found :
        (k : Option Order)
        → lookup id s.orders ≡ k
        → LeavesOver id ((or_raise key_error k >>= cancel_order id) s)
    found none e = tt
    found (some order) e = unless_over order (is_cancellable order.status) e refl

-- What can expire can be cancelled.
over_expirable :
    (status : OrderStatus) → is_cancellable status ≡ false → is_expirable status ≡ false
over_expirable OrderStatus.created h = refl
over_expirable OrderStatus.risk_pending h = refl
over_expirable OrderStatus.approved h = absurd (false≢true (sym h))
over_expirable OrderStatus.submitted h = absurd (false≢true (sym h))
over_expirable OrderStatus.partially_filled h = absurd (false≢true (sym h))
over_expirable OrderStatus.filled h = refl
over_expirable OrderStatus.rejected h = refl
over_expirable OrderStatus.cancelled h = refl
over_expirable OrderStatus.expired h = refl
over_expirable OrderStatus.failed h = refl

-- After `cancel` has returned an order, that order is over: a further `cancel` and an `expire` of it
-- return it as it is and leave the whole engine as it is.
pub cancel_final :
    (id : ℕ) (s : Engine) {o : Order} {s' : Engine}
    → cancel id s ≡ (ok o, s')
    → (is_cancellable o.status ≡ false) × (cancel id s' ≡ (ok o, s')) × (expire id s' ≡ (ok o, s'))
unfolding cancel cancel_order expire expire_order
cancel_final id s {o} {s'} e = stays (subst (LeavesOver id) e (cancel-LeavesOver id s))
  where
    stays :
        IsOver id o s'
        → (is_cancellable o.status ≡ false)
          × (cancel id s' ≡ (ok o, s'))
          × (expire id s' ≡ (ok o, s'))
    stays over = (
      over.over,
      rw (over.known, over.over) refl,
      rw (over.known, over_expirable o.status over.over) refl,
    )
