-- ===== src/Paper/RestingSound.antt =====
-- The soundness of the ledger while orders rest: marks, cancellation, expiry.
use live_auto_trading.Prelude.{
  ℕ, String, string_key, ◌≡◌, refl, Bool, Option, none, some, List, [], ◌∷◌, Bool-cases, inl, inr,
}
use live_auto_trading.Decimal.{Decimal, zero, le}
use live_auto_trading.Decimal.Sign.{IsPositive-of_le-zero}
use live_auto_trading.Dict.{
  lookup, insert, values, All, AllValues, AllValues-insert, AllValues-lookup, All-values,
}
use live_auto_trading.Domain.Trading.{Order, Position, RiskEvaluation}
use live_auto_trading.Paper.State.{Engine}
use live_auto_trading.Paper.Action.{gets, pure, ◌>>=◌, ◌>>◌}
use live_auto_trading.Paper.Ledger.{log_event, release_buy_reservation}
use live_auto_trading.Paper.Filling.{apply_fill, conclude, is_limit}
use live_auto_trading.Paper.Resting.{
  fill_resting_of, fill_resting, trigger_resting, trigger_all, marked_position, mark_position,
  set_mark_price, cancel_open, cancel_order, cancel, expire_open, expire_order, expire,
}
use live_auto_trading.Paper.Keeps.{IsLong, IsSound, Keeps, Keeps-pure, Keeps-bind, keeps_rules}
use live_auto_trading.Paper.Sound.{release-IsSound}
use live_auto_trading.Paper.FillingSound.{Covers, apply_fill-IsSound, conclude-IsSound}

module _ (b : Bool) where
  fill_resting_of-IsSound :
      (o : Order) (risk : RiskEvaluation) (remaining price qty : Decimal)
      → Covers b o.side
      → Keeps (IsSound b) (fill_resting_of o risk remaining price qty)
  unfolding fill_resting_of
  fill_resting_of-IsSound o risk remaining price qty c = elim (Bool-cases (le qty zero)) [
    | inl e ↦ rw e (Keeps-pure tt)
    | inr e ↦ rw e (
        Keeps-bind (apply_fill o qty price risk (is_limit o.order_type))
          (λ filled. conclude filled risk qty remaining >>= λ _. pure tt)
          (apply_fill-IsSound b o qty price risk _ (IsPositive-of_le-zero qty e) c)
          (λ filled.
            Keeps-bind (conclude filled risk qty remaining) (λ _. pure tt)
              (conclude-IsSound b filled risk qty remaining) (λ _. Keeps-pure tt)))
  ]

  trigger_resting-IsSound :
      (symbol : String) (mark : Decimal) (o : Order)
      → Covers b o.side
      → Keeps (IsSound b) (trigger_resting symbol mark o)
  unfolding trigger_resting fill_resting
  trigger_resting-IsSound symbol mark o c = search (keeps_rules, fill_resting_of-IsSound) depth 8

  trigger_all-IsSound :
      (symbol : String) (mark : Decimal) (os : List Order)
      → All (λ o. Covers b o.side) os
      → Keeps (IsSound b) (trigger_all symbol mark os)
  unfolding trigger_all
  trigger_all-IsSound symbol mark [] c = Keeps-pure tt
  trigger_all-IsSound symbol mark (o ∷ os) c =
      Keeps-bind (trigger_resting symbol mark o) (λ _. trigger_all symbol mark os)
        (trigger_resting-IsSound symbol mark o c.0) (λ _. trigger_all-IsSound symbol mark os c.1)

  cancel_open-IsSound : (id : ℕ) (o : Order) → Keeps (IsSound b) (cancel_open id o)
  unfolding cancel_open log_event
  cancel_open-IsSound id o =
      Keeps-bind (release_buy_reservation o none) _ (release-IsSound b o none tt) λ released.
        record { at = λ s h. record { reserved = h.reserved; held = h.held; cash = h.cash } }

  expire_open-IsSound : (id : ℕ) (o : Order) → Keeps (IsSound b) (expire_open id o)
  unfolding expire_open log_event
  expire_open-IsSound id o =
      Keeps-bind (release_buy_reservation o none) _ (release-IsSound b o none tt) λ released.
        record { at = λ s h. record { reserved = h.reserved; held = h.held; cash = h.cash } }

  cancel-Keeps : (id : ℕ) → Keeps (IsSound b) (cancel id)
  unfolding cancel cancel_order
  cancel-Keeps id = search (keeps_rules, cancel_open-IsSound)

  expire-Keeps : (id : ℕ) → Keeps (IsSound b) (expire id)
  unfolding expire expire_order
  expire-Keeps id = search (keeps_rules, expire_open-IsSound)

-- A new mark price, with every resting order that it triggers, keeps the ledger sound: reserved
-- cash does not go negative and every position stays long. Where the resting orders are all buys,
-- the available cash does not go negative either.
pub set_mark_price-IsSound :
    (solvent : Bool) (symbol : String) (price : Decimal) (s : Engine)
    → AllValues (λ o. Covers solvent o.side) s.orders
    → IsSound solvent s
    → IsSound solvent (set_mark_price symbol price s).1
unfolding set_mark_price mark_position marked_position
set_mark_price-IsSound b symbol price s c h = marked (lookup symbol s.positions) refl
  where
    priced : Engine
    priced = record s {
      config = record s.config { mark_prices = insert symbol price s.config.mark_prices };
    }

    triggered :
        (t : Engine) → IsSound b t → IsSound b (trigger_all symbol price (values s.orders) t).1
    triggered t k =
        (trigger_all-IsSound b symbol price (values s.orders) (All-values _ s.orders c)).at t k

    marked :
        (held : Option Position)
        → lookup symbol s.positions ≡ held
        → IsSound b
            ((mark_position symbol price held
                >> (do orders ← gets (λ t. t.orders); trigger_all symbol price (values orders)))
              priced).1
    marked none e =
        triggered priced (record { reserved = h.reserved; held = h.held; cash = h.cash })
    marked (some p) e =
        triggered
          (record priced { positions = insert symbol (marked_position price p) s.positions })
          (record {
            reserved = h.reserved;
            held =
                AllValues-insert IsLong symbol (marked_position price p) s.positions
                  (AllValues-lookup IsLong symbol s.positions h.held e) h.held;
            cash = h.cash;
          })

-- Cancelling an order keeps the ledger sound, the available cash included, also where it raises.
pub cancel-IsSound :
    (solvent : Bool) (id : ℕ) (s : Engine) → IsSound solvent s → IsSound solvent (cancel id s).1
cancel-IsSound solvent id s h = (cancel-Keeps solvent id).at s h

-- The expiry of an order keeps the ledger sound, the available cash included, also where it raises.
pub expire-IsSound :
    (solvent : Bool) (id : ℕ) (s : Engine) → IsSound solvent s → IsSound solvent (expire id s).1
expire-IsSound solvent id s h = (expire-Keeps solvent id).at s h
