-- ===== src/Reconciliation/Replay.antt =====
-- The cash and the quantities that fills come to, as the reconciliation replays them.
use live_auto_trading.Prelude.{
  ℕ, nat_key, string_key, ◌==◌, ◌≡◌, refl, sym, ap, ◌∙◌, ◌⊎◌, inl, inr, String, true, false, ◌&&◌,
  Option, none, some, List, [], ◌∷◌, arith, if◌then◌else◌, Bool-cases,
}
use mathlib.Core.Path.{subst}
use mathlib.Core.Bool.{false≢true}
use mathlib.Core.Option.{none-ne-some}
use live_auto_trading.Decimal.{Decimal, zero, add, sub, mul, lt, abs, sum_from}
use live_auto_trading.Dict.{lookup, insert, lookup-insert, Dict}
use live_auto_trading.Domain.Enums.{OrderSide}
use live_auto_trading.Accounting.Invariants.{tolerance}
use live_auto_trading.Domain.Trading.{Fill, Position}
use live_auto_trading.Reconciliation.Run.{
  or_zero, unexplained, is_absent, filled_of, replay_fill, replay_fills, all_explained, all_held,
}

-- A purchase costs its value and its fee; a sale brings its value less the fee.
abbrev pub paid : OrderSide → Fill → Decimal → Decimal
paid OrderSide.buy f cash = sub cash (add (mul f.quantity f.price) f.fee)
paid OrderSide.sell f cash = add cash (sub (mul f.quantity f.price) f.fee)

-- the cash that fills leave
unfoldable pub cash_after : Decimal → List Fill → Decimal
cash_after cash [] = cash
cash_after cash (f ∷ fills) = cash_after (paid f.side f cash) fills

abbrev pub signed : OrderSide → Decimal → Decimal → Decimal
signed OrderSide.buy total qty = add total qty
signed OrderSide.sell total qty = sub total qty

-- what was bought of a symbol, less what was sold, from `total` on
unfoldable pub net_of : String → Decimal → List Fill → Decimal
net_of symbol total [] = total
net_of symbol total (f ∷ fills) = elim (f.symbol == symbol) [
  | true ↦ net_of symbol (signed f.side total f.quantity) fills
  | false ↦ net_of symbol total fills
]

-- the quantity of the fills of an order, from `total` on
unfoldable pub filled_quantity : ℕ → Decimal → List Fill → Decimal
filled_quantity id total [] = total
filled_quantity id total (f ∷ fills) = elim (f.order_id == id) [
  | true ↦ filled_quantity id (add total f.quantity) fills
  | false ↦ filled_quantity id total fills
]

-- a position whose quantity is not that of the fills
abbrev pub HasOff : List Fill → Dict String Position → Type 0
HasOff fills [] = true ≡ false
HasOff fills ((symbol, p) ∷ positions) =
    (lt tolerance (abs (sub (net_of symbol zero fills) p.quantity)) ≡ true) ⊎ HasOff fills positions

-- a symbol that was bought, on balance, and has no position
abbrev pub HasUnheld : List Fill → Dict String Position → Type 0
HasUnheld fills positions =
    (symbol : String) × (lt zero (net_of symbol zero fills) ≡ true)
    × (lookup symbol positions ≡ none)

replay_fill_lem :
    (side : OrderSide) (f : Fill) (cash : Decimal) (net : Dict String Decimal)
    → replay_fill side f (cash, net) ≡ (
      paid side f cash,
      insert f.symbol (signed side (or_zero (lookup f.symbol net)) f.quantity) net,
    )
unfolding replay_fill
replay_fill_lem OrderSide.buy f cash net = refl
replay_fill_lem OrderSide.sell f cash net = refl

replay_fills_cons :
    (f : Fill) (fills : List Fill) (cash : Decimal) (net : Dict String Decimal)
    → replay_fills (f ∷ fills) (cash, net)
      ≡ replay_fills fills (
        paid f.side f cash,
        insert f.symbol (signed f.side (or_zero (lookup f.symbol net)) f.quantity) net,
      )
unfolding replay_fills
replay_fills_cons f fills cash net = ap (replay_fills fills) (replay_fill_lem f.side f cash net)

pub replay_fills-cash :
    (fills : List Fill) (cash : Decimal) (net : Dict String Decimal)
    → (replay_fills fills (cash, net)).0 ≡ cash_after cash fills
unfolding replay_fills cash_after
replay_fills-cash [] cash net = refl
replay_fills-cash (f ∷ fills) cash net =
    ap (λ l. l.0) (replay_fills_cons f fills cash net) ∙ replay_fills-cash fills _ _

or_zero-insert :
    (k j : String) (q : Decimal) (net : Dict String Decimal)
    → or_zero (lookup j (insert k q net)) ≡ (if k == j then q else or_zero (lookup j net))
or_zero-insert k j q net = elim (Bool-cases (k == j)) [
  | inl e ↦ rw (lookup-insert k j q net, e) refl
  | inr e ↦ rw (lookup-insert k j q net, e) refl
]

net_step :
    (symbol : String) (f : Fill) (fills : List Fill) (net : Dict String Decimal)
    → net_of symbol
        (or_zero (
          lookup symbol
            (insert f.symbol (signed f.side (or_zero (lookup f.symbol net)) f.quantity) net)))
        fills
      ≡ net_of symbol (or_zero (lookup symbol net)) (f ∷ fills)
unfolding net_of
net_step symbol f fills net =
    let q = signed f.side (or_zero (lookup f.symbol net)) f.quantity in
    rw (or_zero-insert f.symbol symbol q net) (elim (Bool-cases (f.symbol == symbol)) [
      | inl e ↦ rw (net_of, e, sym ((string_key.decides f.symbol symbol).0 e)) refl
      | inr e ↦ rw (net_of, e) refl
    ])

pub replay_fills-net :
    (symbol : String) (fills : List Fill) (cash : Decimal) (net : Dict String Decimal)
    → or_zero (lookup symbol (replay_fills fills (cash, net)).1)
      ≡ net_of symbol (or_zero (lookup symbol net)) fills
unfolding replay_fills net_of
replay_fills-net symbol [] cash net = refl
replay_fills-net symbol (f ∷ fills) cash net =
    ap (λ l. or_zero (lookup symbol l.1)) (replay_fills_cons f fills cash net)
    ∙ replay_fills-net symbol fills _ _
    ∙ net_step symbol f fills net

abbrev pub Distinct : Dict String Decimal → Type 0
Distinct [] = Unit
Distinct ((k, v) ∷ d) = (lookup k d ≡ none) × Distinct d

insert-Distinct :
    (k : String) (v : Decimal) (d : Dict String Decimal) → Distinct d → Distinct (insert k v d)
unfolding insert lookup
insert-Distinct k v [] h = (refl, tt)
insert-Distinct k v ((j, w) ∷ d) (absent, h) = elim (Bool-cases (j == k)) [
  | inl e ↦ rw e (absent, h)
  | inr e ↦ rw e (fresh e, insert-Distinct k v d h)
]
  where
    fresh : (j == k) ≡ false → lookup j (insert k v d) ≡ none
    fresh e = elim (Bool-cases (k == j)) [
      | inl same ↦
          absurd (
            false≢true (sym e ∙ (string_key.decides j k).1 (sym ((string_key.decides k j).0 same))))
      | inr other ↦ rw (lookup-insert k j v d, other) absent
    ]

pub replay_fills-Distinct :
    (fills : List Fill) (cash : Decimal) (net : Dict String Decimal)
    → Distinct net
    → Distinct (replay_fills fills (cash, net)).1
unfolding replay_fills
replay_fills-Distinct [] cash net h = h
replay_fills-Distinct (f ∷ fills) cash net h =
    subst (λ l. Distinct l.1) (sym (replay_fills_cons f fills cash net))
      (replay_fills-Distinct fills _ _ (insert-Distinct f.symbol _ net h))

pub filled_of-quantity :
    (id : ℕ) (total : Decimal) (fills : List Fill)
    → sum_from total (filled_of id fills) ≡ filled_quantity id total fills
unfolding filled_of filled_quantity sum_from
filled_of-quantity id total [] = refl
filled_of-quantity id total (f ∷ fills) = elim (Bool-cases (f.order_id == id)) [
  | inl e ↦ rw (filled_of, filled_quantity, e) (filled_of-quantity id (add total f.quantity) fills)
  | inr e ↦ rw (filled_of, filled_quantity, e) (filled_of-quantity id total fills)
]

-- The net quantities come from the fills.
abbrev pub Nets : List Fill → Dict String Decimal → Type 0
Nets fills net = (k : String) → or_zero (lookup k net) ≡ net_of k zero fills

pub unexplained-HasOff :
    (fills : List Fill) (net : Dict String Decimal) (positions : Dict String Position)
    → Nets fills net
    → all_explained net positions ≡ false
    → HasOff fills positions
unfolding all_explained
unexplained-HasOff fills net [] nets h = h
unexplained-HasOff fills net ((k, p) ∷ positions) nets h = elim (Bool-cases (unexplained net k p)) [
  | inl e ↦ inl (rw (nets k) at e)
  | inr e ↦ inr (unexplained-HasOff fills net positions nets (rw e at h))
]

-- the item of a symbol that was bought and has no position
unheld_item :
    (positions : Dict String Position) (net : Dict String Decimal)
    → Distinct net
    → all_held positions net ≡ false
    → (k : String) × (q : Decimal) × (lookup k net ≡ some q)
      × (lt zero q ≡ true)
      × (lookup k positions ≡ none)
unfolding all_held lookup
unheld_item positions [] d h = absurd (false≢true (sym h))
unheld_item positions ((j, w) ∷ net) (absent, d) h =
    elim (Bool-cases (lt zero w && is_absent (lookup j positions))) [
      | inl e ↦ (
        j,
        w,
        rw ((string_key.decides j j).1 refl) refl,
        ground arith,
        missing (lookup j positions) (ground arith),
      )
      | inr e ↦
          let (k, q, there, bought, none_held) = unheld_item positions net d (ground arith) in
          (k, q, shifted k q there, bought, none_held)
    ]
  where
    missing : (o : Option Position) → is_absent o ≡ true → o ≡ none
    missing none e = refl
    missing (some p) e = absurd (false≢true e)

    shifted :
        (k : String) (q : Decimal)
        → lookup k net ≡ some q
        → (if j == k then some w else lookup k net) ≡ some q
    shifted k q there = elim (Bool-cases (j == k)) [
      | inl e ↦
          absurd (none-ne-some _ (sym absent ∙ (rw (sym ((string_key.decides j k).0 e)) at there)))
      | inr e ↦ rw e there
    ]

pub unheld-HasUnheld :
    (fills : List Fill) (net : Dict String Decimal) (positions : Dict String Position)
    → Nets fills net
    → Distinct net
    → all_held positions net ≡ false
    → HasUnheld fills positions
unheld-HasUnheld fills net positions nets d h =
    let (k, q, there, bought, none_held) = unheld_item positions net d h in
    (k, rw (sym (nets k), there) bought, none_held)
