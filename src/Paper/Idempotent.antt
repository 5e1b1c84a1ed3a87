-- ===== src/Paper/Idempotent.antt =====
-- `submit` under a key that it has seen: `idempotency_index` in app/execution/paper/engine.py.
use live_auto_trading.Prelude.{
  String, string_key, nat_key, ℕ, ◌≡◌, refl, sym, ap, ◌⊎◌, ◌∙◌, true, none, some, inl, inr,
  if◌then◌else◌, Option-cases,
}
use mathlib.Core.Path.{subst}
use mathlib.Core.Bool.{false≢true}
use live_auto_trading.Dict.{Dict, lookup, lookup-insert_self}
use live_auto_trading.Domain.Enums.{OrderStatus}
use live_auto_trading.Domain.Trading.{Order, OrderRequest, RiskEvaluation}
use live_auto_trading.Paper.State.{Engine}
use live_auto_trading.Paper.Action.{Action, Result, ok}
use live_auto_trading.Paper.Ledger.{log_event, store_order, update}
use live_auto_trading.Paper.Filling.{new_uuid}
use live_auto_trading.Paper.Orders.{
  is_refused, new_order, accept_order, enter_order, place_order, known_or_new, submit,
}
use live_auto_trading.Paper.Keeps.{OnOk, Keeps, Keeps-if, Yields, Yields-if}
use live_auto_trading.Paper.Same.{SameOrder, update-SameOrder}
use live_auto_trading.Paper.Index.{HasIndex, is_known, update-HasIndex, accept_order-HasIndex}
use live_auto_trading.Paper.Identity.{accept-SameOrder}

-- what `place_order` does with the order that it has entered
abbrev decide : OrderRequest → RiskEvaluation → Order → Action Order
decide request risk o =
    if is_refused risk.decision
    then update o OrderStatus.rejected risk none
    else accept_order o request risk

decide-HasIndex :
    (idx : Dict String ℕ) (id : ℕ) (request : OrderRequest) (risk : RiskEvaluation) (o : Order)
    → Keeps (HasIndex idx id) (decide request risk o)
decide-HasIndex idx id request risk o =
    Keeps-if (is_refused risk.decision) _ _ (update-HasIndex idx id o _ risk none)
      (accept_order-HasIndex idx id o request risk)

decide-SameOrder :
    (request : OrderRequest) (risk : RiskEvaluation) (o : Order)
    → Yields (SameOrder o) (decide request risk o)
decide-SameOrder request risk o =
    Yields-if (is_refused risk.decision) _ _ (update-SameOrder o _ risk none)
      (accept-SameOrder o request risk)

-- The key leads to the order, and the order is known.
pub record IsEntered (key : String) (o : Order) (s : Engine) : Type 0 where
  pub indexed : lookup key s.idempotency_index ≡ some o.id
  pub known : is_known (lookup o.id s.orders) ≡ true

-- An order that is decided on stays entered.
decide-IsEntered :
    (request : OrderRequest) (risk : RiskEvaluation) (key : String) (o0 : Order) (s1 : Engine)
    {o : Order} {s' : Engine}
    → IsEntered key o0 s1
    → decide request risk o0 s1 ≡ (ok o, s')
    → IsEntered key o s'
decide-IsEntered request risk key o0 s1 {o} {s'} entered e = record {
  indexed = rw (index.0, same.id) entered.indexed;
  known = rw same.id index.1;
}
  where
    index : HasIndex s1.idempotency_index o0.id s'
    index =
        subst (λ (r : Result Order × Engine). HasIndex s1.idempotency_index o0.id r.1) e
          ((decide-HasIndex s1.idempotency_index o0.id request risk o0).at s1 (refl, entered.known))

    same : SameOrder o0 o
    same =
        subst (λ (r : Result Order × Engine). OnOk (SameOrder o0) r.0) e
          ((decide-SameOrder request risk o0).at s1)

place_order-IsEntered :
    (request : OrderRequest) (risk : RiskEvaluation) (s : Engine) {o : Order} {s' : Engine}
    → place_order request risk s ≡ (ok o, s')
    → IsEntered request.idempotency_key o s'
unfolding place_order enter_order new_uuid log_event store_order new_order
place_order-IsEntered request risk s e =
    decide-IsEntered request risk request.idempotency_key _ _
      (record {
        indexed = lookup-insert_self request.idempotency_key (s.uuids s.drawn) s.idempotency_index;
        known =
            ap is_known
              (lookup-insert_self (s.uuids s.drawn) (new_order (s.uuids s.drawn) request) s.orders);
      })
      e

-- A key is used once: after a `submit` under a new key has returned an order, every further
-- `submit` under that key, whatever else it asks for, returns an order that is known under the
-- first order's id, and leaves the whole engine as it is (no order, fill, reservation or payment).
pub submit_idempotent :
    (request request' : OrderRequest) (risk risk' : RiskEvaluation) (s : Engine) {o : Order}
    {s' : Engine}
    → lookup request.idempotency_key s.idempotency_index ≡ none
    → request'.idempotency_key ≡ request.idempotency_key
    → submit request risk s ≡ (ok o, s')
    → (again : Order) × (submit request' risk' s' ≡ (ok again, s'))
      × (lookup o.id s'.orders ≡ some again)
unfolding submit known_or_new
submit_idempotent request request' risk risk' s {o} {s'} new same e =
    found (Option-cases (lookup o.id s'.orders))
  where
    entered : IsEntered request.idempotency_key o s'
    entered = place_order-IsEntered request risk s (rw new at e)

    found :
        (lookup o.id s'.orders ≡ none) ⊎ ((a : Order) × (lookup o.id s'.orders ≡ some a))
        → (again : Order) × (submit request' risk' s' ≡ (ok again, s'))
          × (lookup o.id s'.orders ≡ some again)
    found (inl missing) = absurd (false≢true (sym (ap is_known missing) ∙ entered.known))
    found (inr (a, there)) = (a, rw (same, entered.indexed, there) refl, there)
