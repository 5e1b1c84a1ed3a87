-- ===== src/Paper/FillingSound.antt =====
-- The soundness of the ledger through fills.
use live_auto_trading.Prelude.{
  nat_key, string_key, ◌≡◌, refl, Bool, true, false, not, ◌&&◌, Option, none, some, Bool-cases, inl,
  inr, if◌then◌else◌,
}
use live_auto_trading.Decimal.{Decimal, zero, add, sub, mul, div, lt, le, eq, quantize, half_even}
use live_auto_trading.Decimal.Sign.{
  IsNonneg, IsPositive, sub-IsNonneg, le_of_not_lt, add-IsPositive, IsPositive-of_le-zero,
  IsNonneg-of_pos, sub-IsPositive, mul-IsNonneg, div-IsNonneg, quantize-IsNonneg,
}
use live_auto_trading.Dict.{lookup, insert, AllValues-insert, AllValues-erase, AllValues-lookup}
use live_auto_trading.Domain.Enums.{OrderSide, OrderStatus}
use live_auto_trading.Domain.Trading.{Order, OrderRequest, Position, RiskEvaluation}
use live_auto_trading.Paper.State.{Engine}
use live_auto_trading.Paper.Action.{Action, pure, modify, or_raise, decimal_error, ◌>>=◌}
use live_auto_trading.Paper.Ledger.{places, log_event, update, release_buy_reservation}
use live_auto_trading.Paper.Filling.{
  new_uuid, reserved_total, release_part, release_share, extend_position, open_position,
  reduced_position, pay, fail_buy, take_position, pay_and_take, fill_checked, fill_up, is_failed,
  buy_for, apply_buy, sell_from, apply_sell, filled_order, record_fill, settle, settle_and_count,
  apply_fill, conclude, execute_fill,
}
use live_auto_trading.Paper.Keeps.{
  IsLong, IsSound, IsCovered, IsCovered-of_nonneg, Keeps, Keeps-pure, Keeps-if, Keeps-bind,
  Keeps-bind_some, keeps_rules,
}
use live_auto_trading.Paper.Sound.{update-IsSound, refuse-IsSound, release-IsSound}

-- `solvent` is claimed of buys only: a sale adds its proceeds, less a fee.
abbrev pub Covers : Bool → OrderSide → Type 0
Covers b OrderSide.buy = Unit
Covers b OrderSide.sell = b ≡ false

uncovered : (b : Bool) (d : Decimal) → b ≡ false → IsCovered b d
uncovered true d h = cc
uncovered false d h = tt

module _ (b : Bool) where
  pub new_uuid-IsSound : Keeps (IsSound b) new_uuid
  unfolding new_uuid
  new_uuid-IsSound = record {
    at = λ s h. record { reserved = h.reserved; held = h.held; cash = h.cash };
  }

  pub record_fill-IsSound :
      (o : Order) (qty price fee : Decimal) → Keeps (IsSound b) (record_fill o qty price fee)
  unfolding record_fill new_uuid log_event
  record_fill-IsSound o qty price fee = record {
    at = λ s h. record { reserved = h.reserved; held = h.held; cash = h.cash };
  }

  filled_order-IsSound :
      (o : Order) (qty price fee : Decimal) (average : Option Decimal)
      → Keeps (IsSound b) (filled_order o qty price fee average)
  unfolding filled_order
  filled_order-IsSound o qty price fee none = search keeps_rules
  filled_order-IsSound o qty price fee (some a) = search keeps_rules

  release_part-IsSound :
      (o : Order) (total qty : Decimal)
      → IsPositive total
      → IsPositive qty
      → IsPositive o.quantity
      → Keeps (IsSound b) (release_part o total qty)
  unfolding release_part
  release_part-IsSound o total qty p q r =
      Keeps-bind_some decimal_error (div (mul total qty) o.quantity)
        (λ share. or_raise decimal_error (quantize places half_even share) >>= λ consume.
          release_buy_reservation o (some consume))
        (λ share e.
          Keeps-bind_some decimal_error (quantize places half_even share)
            (λ consume. release_buy_reservation o (some consume))
            (λ consume f.
              release-IsSound b o (some consume)
                (quantize-IsNonneg places half_even share (share_nonneg share e) f)))
    where
      share_nonneg :
          (share : Decimal) → div (mul total qty) o.quantity ≡ some share → IsNonneg share
      share_nonneg share e =
          div-IsNonneg (mul total qty) o.quantity
            (mul-IsNonneg total qty (IsNonneg-of_pos total p) (IsNonneg-of_pos qty q))
            (IsNonneg-of_pos o.quantity r) e

  release_share-IsSound :
      (o : Order) (qty : Decimal) → IsPositive qty → Keeps (IsSound b) (release_share o qty)
  unfolding release_share
  release_share-IsSound o qty q =
      guarded (reserved_total o.metadata.reserved_notional) o.metadata.reservation_open
    where
      guarded :
          (total : Decimal) (locked : Bool)
          → Keeps (IsSound b) (
              if not (le total zero) && locked && not (le o.quantity zero)
              then release_part o total qty
              else pure o)
      guarded total locked = elim (Bool-cases (le total zero)) [
        | inl e ↦ rw e (Keeps-pure o)
        | inr e ↦ elim (Bool-cases (le o.quantity zero)) [
          | inl f ↦ rw (e, f) (either locked)
          | inr f ↦
              rw (e, f)
                (Keeps-if _ _ _
                  (release_part-IsSound o total qty (IsPositive-of_le-zero total e) q
                    (IsPositive-of_le-zero o.quantity f))
                  (Keeps-pure o))
        ]
      ]
        where
          either :
              (c : Bool)
              → Keeps (IsSound b) (if c && false then release_part o total qty else pure o)
          either true = Keeps-pure o
          either false = Keeps-pure o

  fail_buy-IsSound : (o : Order) (risk : RiskEvaluation) → Keeps (IsSound b) (fail_buy o risk)
  unfolding fail_buy
  fail_buy-IsSound o risk = search (keeps_rules, release-IsSound b o none tt, refuse-IsSound)

  -- A buy leaves a long position.
  extend_position-IsSound :
      (o : Order) (qty price : Decimal) (held : Option Position) (s : Engine)
      → IsPositive qty
      → lookup o.symbol s.positions ≡ held
      → IsSound b s
      → IsSound b (extend_position o qty price held s).1
  unfolding extend_position open_position
  extend_position-IsSound o qty price none s q f h = record {
    reserved = h.reserved;
    held = AllValues-insert IsLong o.symbol _ s.positions q h.held;
    cash = h.cash;
  }
  extend_position-IsSound o qty price (some p) s q f h = averaged (div _ _)
    where
      extended : Decimal → Position
      extended new_entry = record p {
        quantity = add p.quantity qty;
        entry_price = new_entry;
        current_price = price;
        unrealized_pnl = mul (sub price new_entry) (add p.quantity qty);
      }

      averaged :
          (entry : Option Decimal)
          → IsSound b
              ((or_raise decimal_error entry >>= λ new_entry. modify (λ s'. record s' {
                positions = insert o.symbol (extended new_entry) s'.positions;
              }))
                s).1
      averaged none = h
      averaged (some new_entry) = record {
        reserved = h.reserved;
        held =
            AllValues-insert IsLong o.symbol (extended new_entry) s.positions
              (add-IsPositive p.quantity qty (AllValues-lookup IsLong o.symbol s.positions h.held f)
                q)
              h.held;
        cash = h.cash;
      }

  -- A sale leaves a long position, or none.
  sell_from-IsSound :
      (o : Order) (qty price fee : Decimal) (held : Position) (s : Engine)
      → b ≡ false
      → lt held.quantity qty ≡ false
      → IsSound b s
      → IsSound b (sell_from o qty price fee held s).1
  unfolding sell_from reduced_position
  sell_from-IsSound o qty price fee held s n f h = record {
    reserved = h.reserved;
    held = elim (Bool-cases (eq (sub held.quantity qty) zero)) [
      | inl e ↦ rw e (AllValues-erase IsLong o.symbol s.positions h.held)
      | inr e ↦ rw e (
          AllValues-insert IsLong o.symbol _ s.positions (sub-IsPositive held.quantity qty f e)
            h.held)
    ];
    cash = uncovered b _ n;
  }

  take_position-IsSound :
      (o : Order) (qty price : Decimal)
      → IsPositive qty
      → Keeps (IsSound b) (take_position o qty price)
  unfolding take_position
  take_position-IsSound o qty price q =
      Keeps-bind (extend_here) (λ _. pure (o, true))
        (record { at = λ s h. extend_position-IsSound o qty price _ s q refl h })
        (λ _. Keeps-pure (o, true))
    where
      extend_here : Action (Unit {0})
      extend_here s = extend_position o qty price (lookup o.symbol s.positions) s

  -- What is paid was available.
  pay_and_take-IsSound :
      (o : Order) (qty price cost : Decimal) (s : Engine)
      → IsPositive qty
      → lt s.cash cost ≡ false
      → IsSound b s
      → IsSound b (pay_and_take o qty price cost s).1
  unfolding pay_and_take pay
  pay_and_take-IsSound o qty price cost s q c h =
      (take_position-IsSound o qty price q).at (record s { cash = sub s.cash cost })
        (record {
          reserved = h.reserved;
          held = h.held;
          cash =
              IsCovered-of_nonneg b (sub s.cash cost)
                (sub-IsNonneg s.cash cost (le_of_not_lt _ _ c));
        })

  buy_for-IsSound :
      (qty price cost : Decimal) (risk : RiskEvaluation) (o : Order)
      → IsPositive qty
      → Keeps (IsSound b) (buy_for qty price cost risk o)
  unfolding buy_for
  buy_for-IsSound qty price cost risk o q = record {
    at = λ s h. elim (Bool-cases (lt s.cash cost)) [
      | inl e ↦ rw e ((fail_buy-IsSound o risk).at s h)
      | inr e ↦ rw e (pay_and_take-IsSound o qty price cost s q e h)
    ];
  }

  apply_buy-IsSound :
      (o : Order) (qty price fee : Decimal) (risk : RiskEvaluation)
      → IsPositive qty
      → Keeps (IsSound b) (apply_buy o qty price fee risk)
  unfolding apply_buy
  apply_buy-IsSound o qty price fee risk q =
      search (keeps_rules, release_share-IsSound o qty q, buy_for-IsSound)

  apply_sell-IsSound :
      (o : Order) (qty price fee : Decimal) (risk : RiskEvaluation) (held : Option Position)
      → b ≡ false
      → Keeps (IsSound b) (apply_sell o qty price fee risk held)
  unfolding apply_sell
  apply_sell-IsSound o qty price fee risk none n = refuse-IsSound b o risk _ _
  apply_sell-IsSound o qty price fee risk (some p) n = elim (Bool-cases (lt p.quantity qty)) [
    | inl e ↦ rw e (refuse-IsSound b o risk _ _)
    | inr e ↦ rw e (record { at = λ s h. sell_from-IsSound o qty price fee p s n e h })
  ]

  settle-IsSound :
      (side : OrderSide) (o : Order) (qty price fee : Decimal) (risk : RiskEvaluation)
      → IsPositive qty
      → Covers b side
      → Keeps (IsSound b) (settle side o qty price fee risk)
  unfolding settle
  settle-IsSound OrderSide.buy o qty price fee risk q c = apply_buy-IsSound o qty price fee risk q
  settle-IsSound OrderSide.sell o qty price fee risk q c = search (keeps_rules, apply_sell-IsSound)

  pub apply_fill-IsSound :
      (o : Order) (qty price : Decimal) (risk : RiskEvaluation) (is_maker : Bool)
      → IsPositive qty
      → Covers b o.side
      → Keeps (IsSound b) (apply_fill o qty price risk is_maker)
  unfolding apply_fill settle_and_count
  apply_fill-IsSound o qty price risk is_maker q c =
      search (keeps_rules, record_fill-IsSound, settle-IsSound, filled_order-IsSound) depth 8

  fill_up-IsSound : (o : Order) (risk : RiskEvaluation) → Keeps (IsSound b) (fill_up o risk)
  unfolding fill_up
  fill_up-IsSound o risk =
      Keeps-bind (release_buy_reservation o none)
        (λ released. update released OrderStatus.filled risk none) (release-IsSound b o none tt)
        (λ released. update-IsSound b released OrderStatus.filled risk none)

  pub conclude-IsSound :
      (o : Order) (risk : RiskEvaluation) (qty wanted : Decimal)
      → Keeps (IsSound b) (conclude o risk qty wanted)
  unfolding conclude
  conclude-IsSound o risk qty wanted = Keeps-if (is_failed o.status) (pure o) _ (Keeps-pure o) (
      Keeps-if (lt qty wanted) _ (fill_up o risk) (update-IsSound b o _ risk none)
        (fill_up-IsSound o risk))

  fill_checked-IsSound :
      (o : Order) (request : OrderRequest) (risk : RiskEvaluation) (price qty : Decimal)
      → Covers b o.side
      → Keeps (IsSound b) (fill_checked o request risk price qty)
  unfolding fill_checked
  fill_checked-IsSound o request risk price qty c = elim (Bool-cases (le qty zero)) [
    | inl e ↦ rw e (update-IsSound b o _ risk none)
    | inr e ↦ rw e (
        Keeps-bind (apply_fill o qty price risk _)
          (λ filled. conclude filled risk qty request.quantity)
          (apply_fill-IsSound o qty price risk _ (IsPositive-of_le-zero qty e) c)
          (λ filled. conclude-IsSound filled risk qty request.quantity))
  ]

  pub execute_fill-IsSound :
      (o : Order) (request : OrderRequest) (risk : RiskEvaluation) (mark : Decimal)
      → Covers b o.side
      → Keeps (IsSound b) (execute_fill o request risk mark)
  unfolding execute_fill
  execute_fill-IsSound o request risk mark c = search (keeps_rules, fill_checked-IsSound)
