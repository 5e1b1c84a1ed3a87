-- ===== src/Reconciliation/Healthy.antt =====
-- The ledger behind a healthy result of the reconciliation.
use live_auto_trading.Prelude.{
  nat_key, string_key, ◌≡◌, refl, ◌⊎◌, inl, inr, String, Bool, true, false, not, ◌&&◌, ◌||◌, List,
  [], ◌∷◌, arith, is_empty, Bool-cases,
}
use mathlib.Core.Bool.{false≢true}
use live_auto_trading.Decimal.{Decimal, zero, add, sub, lt, le, abs}
use live_auto_trading.Dict.{lookup, Dict, All, AllValues, values}
use live_auto_trading.Domain.Trading.{Fill, Order, Position}
use live_auto_trading.Paper.State.{Engine}
use live_auto_trading.Reconciliation.Run.{
  cash_is_ok, positions_are_ok, overfilled, orders_are_ok, replay_fills, all_explained, all_held,
  drift_limit, reconcile,
}
use live_auto_trading.Reconciliation.Replay.{
  cash_after, filled_quantity, HasOff, HasUnheld, Nets, replay_fills-cash, replay_fills-net,
  replay_fills-Distinct, filled_of-quantity, unexplained-HasOff, unheld-HasUnheld,
}

-- nothing negative is held, at a price that was paid
pub record IsValid (p : Position) : Type 0 where
  pub quantity : lt p.quantity zero ≡ false
  pub entry_price : le p.entry_price zero ≡ false
  pub current_price : lt p.current_price zero ≡ false

pub record IsReconciled (start : Decimal) (s : Engine) : Type 0 where
  pub cash : le zero s.cash ≡ true
  pub reserved : le zero s.reserved_cash ≡ true
  pub positions : AllValues IsValid s.positions
  pub orders :
      All (λ o. lt o.quantity (filled_quantity o.id zero s.fills) ≡ false) (values s.orders)
  pub drift :
      (s.fills ≡ [])
      ⊎ HasOff s.fills s.positions
      ⊎ HasUnheld s.fills s.positions
      ⊎ (le (abs (sub (cash_after start s.fills) (add s.cash s.reserved_cash))) drift_limit ≡ true)

positions-IsValid :
    (positions : Dict String Position)
    → positions_are_ok positions ≡ true
    → AllValues IsValid positions
unfolding positions_are_ok
positions-IsValid [] h = tt
positions-IsValid ((symbol, p) ∷ positions) h = (
  record { quantity = ground arith; entry_price = ground arith; current_price = ground arith },
  positions-IsValid positions (ground arith),
)

orders_ok :
    (fills : List Fill) (orders : List Order)
    → orders_are_ok fills orders ≡ true
    → All (λ o. lt o.quantity (filled_quantity o.id zero fills) ≡ false) orders
unfolding orders_are_ok
orders_ok fills [] h = tt
orders_ok fills (o ∷ orders) h = (
  rw (filled_of-quantity o.id zero fills) at (below (overfilled fills o) _ h),
  orders_ok fills orders (ground arith),
)
  where
    below : (c d : Bool) → (not c && d) ≡ true → c ≡ false
    below c d e = ground arith

-- A healthy result means a reconciled ledger: neither the cash nor what is reserved is negative, every
-- position is valid, no order is filled beyond its quantity, and unless there are no fills, or they do not
-- explain the positions, the cash that they leave is within 0.05 of the cash on the books. They do not
-- explain the positions where a position is not what was bought of its symbol less what was sold, or a
-- symbol that was bought on balance has no position.
pub reconcile-IsReconciled :
    (start : Decimal) (s : Engine) → (reconcile start s).healthy ≡ true → IsReconciled start s
unfolding reconcile cash_is_ok lookup
reconcile-IsReconciled start s h = record {
  cash = ground arith;
  reserved = ground arith;
  positions = positions-IsValid s.positions (ground arith);
  orders = orders_ok s.fills (values s.orders) (ground arith);
  drift =
      explained (all_explained net s.positions) refl (all_held s.positions net) refl (ground arith);
}
  where
    net : Dict String Decimal
    net = (replay_fills s.fills (start, [])).1

    nets : Nets s.fills net
    nets k = replay_fills-net k s.fills start []

    no_fills : (fills : List Fill) → is_empty fills ≡ true → fills ≡ []
    no_fills [] e = refl
    no_fills (f ∷ fills) e = absurd (false≢true e)

    explained :
        (c : Bool)
        → all_explained net s.positions ≡ c
        → (d : Bool) → all_held s.positions net ≡ d
        → (is_empty s.fills
            || (not (c && d)
                || le
                    (abs (sub (replay_fills s.fills (start, [])).0 (add s.cash s.reserved_cash)))
                    drift_limit))
          ≡ true
        → (s.fills ≡ [])
          ⊎ HasOff s.fills s.positions
          ⊎ HasUnheld s.fills s.positions
          ⊎ (le (abs (sub (cash_after start s.fills) (add s.cash s.reserved_cash))) drift_limit
              ≡ true)
    explained false e d f k = inr (inl (unexplained-HasOff s.fills net s.positions nets e))
    explained true e false f k = inr (
        inr (
          inl (
            unheld-HasUnheld s.fills net s.positions nets
              (replay_fills-Distinct s.fills start [] tt) f)))
    explained true e true f k = elim (Bool-cases (is_empty s.fills)) [
      | inl none_there ↦ inl (no_fills s.fills none_there)
      | inr some_there ↦
          inr (inr (inr (rw (replay_fills-cash s.fills start []) at (rw some_there at k))))
    ]
