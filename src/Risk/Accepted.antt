-- ===== src/Risk/Accepted.antt =====
-- `RiskEngine.evaluate` as a whole.
use live_auto_trading.Prelude.{ℕ, string_key, ◌≡◌, ◌⊎◌, refl, inl, inr, true, ◌||◌, List, arith}
use mathlib.Core.Path.{subst}
use live_auto_trading.Decimal.{Decimal, mul, le}
use live_auto_trading.Decimal.Sign.{IsPositive, IsPositive-of_le-zero, le_of_not_lt}
use live_auto_trading.Domain.Trading.{OrderRequest, RiskEvaluation}
use live_auto_trading.Risk.Check.{Check, go, stop, fault, >>=-eq_go, go_eq}
use live_auto_trading.Risk.State.{RiskEngineState, RiskContext, Settings}
use live_auto_trading.Risk.Gates.{is_sell, check_gates}
use live_auto_trading.Risk.Limits.{
  Sized, recent, check_rate, check_losses, equity_of, size_by_risk, cap_position, cap_portfolio,
  check_final, check_limits,
}
use live_auto_trading.Risk.Engine.{
  Verdict, evaluated, raised, approval, pruned, record_acceptance, conclude, weigh, evaluate,
}
use live_auto_trading.Risk.Refusals.{IsRefusal, Ends, IsSizing, gates-Meets, limits-Meets}
use live_auto_trading.Risk.Within.{IsWithin, limits-IsWithin}
use live_auto_trading.Risk.Cleared.{IsCleared, gates-IsCleared}

-- The final size is positive, and a buy is covered by the cash balance.
pub record IsCovered (context : RiskContext) (r : OrderRequest) (price qty : Decimal) : Type 0 where
  pub positive : IsPositive qty
  pub covered :
      (is_sell r.side || r.reduce_only || le (mul qty price) context.portfolio.cash_balance) ≡ true

final-IsCovered :
    (context : RiskContext) (r : OrderRequest) (price qty : Decimal) {u : Unit {0}}
    → check_final r context.portfolio price qty ≡ go u
    → IsCovered context r price qty
unfolding check_final
final-IsCovered context r price qty h = record {
  positive = IsPositive-of_le-zero qty (ground arith);
  covered = ground (arith, le_of_not_lt context.portfolio.cash_balance (mul qty price));
}

-- The size that `check_limits` yields is covered.
limits-IsCovered :
    (settings : Settings) (context : RiskContext) (now : ℕ) (times : List ℕ) (r : OrderRequest)
    (price : Decimal) {sized : Sized}
    → check_limits settings context now times r price ≡ go sized
    → IsCovered context r price sized.approved_qty
unfolding check_limits
limits-IsCovered settings context now times r price {sized} h =
    let equity = equity_of context.portfolio in
    let (_, _, h1) = >>=-eq_go (check_rate settings now times) _ h in
    let (_, _, h2) = >>=-eq_go (check_losses settings r context.portfolio) _ h1 in
    let (a, _, h3) = >>=-eq_go (size_by_risk settings r price equity) _ h2 in
    let (b, _, h4) = >>=-eq_go (cap_position settings price equity a) _ h3 in
    let (c, _, h5) = >>=-eq_go (cap_portfolio settings context price equity b) _ h4 in
    let (_, final, h6) = >>=-eq_go (check_final r context.portfolio price c.approved_qty) _ h5 in
    subst (λ t. IsCovered context r price t.approved_qty) (go_eq h6)
      (final-IsCovered context r price c.approved_qty final)

-- An accepted order: what came of the gates and of the limits, and what was recorded.
pub record IsAccepted (settings : Settings) (context : RiskContext) (s : RiskEngineState)
    (checked_at now : ℕ) (r : OrderRequest) (e : RiskEvaluation) (s' : RiskEngineState)
    : Type 0 where
  pub price : Decimal
  pub sized : Sized
  pub cleared : IsCleared settings context s checked_at r price
  pub covered : IsCovered context r price sized.approved_qty
  pub within : IsWithin settings context now (pruned now s).recent_order_times r price sized
  pub sizing : IsSizing r.quantity sized
  pub evaluation : e ≡ approval sized
  pub recorded : s' ≡ record_acceptance r.idempotency_key now (pruned now s)

-- A refused or failed evaluation has recorded no key and no order time; it has at most pruned the times.
pub record IsUnrecorded (now : ℕ) (s s' : RiskEngineState) : Type 0 where
  pub keys : s'.seen_idempotency_keys ≡ s.seen_idempotency_keys
  pub times :
      (s'.recent_order_times ≡ s.recent_order_times)
      ⊎ (s'.recent_order_times ≡ recent now s.recent_order_times)

module _ (settings : Settings) (context : RiskContext) (s : RiskEngineState) (checked_at now : ℕ)
    (r : OrderRequest) where
  -- what an evaluation comes to
  abbrev pub Decides : Verdict × RiskEngineState → Type 0
  Decides (evaluated e, s') =
      IsAccepted settings context s checked_at now r e s' ⊎ (IsRefusal e × IsUnrecorded now s s')
  Decides (raised, s') = IsUnrecorded now s s'

  pruned-IsUnrecorded : IsUnrecorded now s (pruned now s)
  pruned-IsUnrecorded = record { keys = refl; times = inr refl }

  conclude-Decides :
      (price : Decimal) (m : Check Sized)
      → check_gates settings context s checked_at r ≡ go price
      → check_limits settings context now (pruned now s).recent_order_times r price ≡ m
      → Ends (IsSizing r.quantity) m
      → Decides (conclude r now (pruned now s) m)
  unfolding conclude
  conclude-Decides price (go sized) g l q = inl (record {
    price = price;
    sized = sized;
    cleared = gates-IsCleared settings context s checked_at r g;
    covered = limits-IsCovered settings context now (pruned now s).recent_order_times r price l;
    within = limits-IsWithin settings context now (pruned now s).recent_order_times r price l;
    sizing = q;
    evaluation = refl;
    recorded = refl;
  })
  conclude-Decides price (stop e) g l q = inr (q, pruned-IsUnrecorded)
  conclude-Decides price fault g l q = pruned-IsUnrecorded

  weigh-Decides :
      (m : Check Decimal)
      → check_gates settings context s checked_at r ≡ m
      → Ends (λ p. Unit) m
      → Decides (weigh settings context now r s m)
  unfolding weigh
  weigh-Decides (go price) g q =
      conclude-Decides price _ g refl
        (limits-Meets settings context now (pruned now s).recent_order_times r price).ends
  weigh-Decides (stop e) g q = inr (q, record { keys = refl; times = inl refl })
  weigh-Decides fault g q = record { keys = refl; times = inl refl }

-- Every evaluation that does not raise either accepts the order or refuses it. It accepts only an order that
-- has passed the gates (health, kill switch, circuit breaker, live gating, allowed symbol, no short
-- sale, leverage 1, fresh data, unseen key, positive quantity and prices, step, tick and minimum sizes)
-- and is within the limits: order frequency and cooldown, daily loss, drawdown, losses in a row, open
-- positions; its size is what the risk per trade and then the caps on the position and on the portfolio
-- leave of the request, positive, and covered by the cash balance if it is a buy that opens; the decision
-- is APPROVED with the requested size, or REDUCED; and the key and the time are recorded. A refusal
-- approves no quantity and records nothing.
pub evaluate_cases :
    (settings : Settings) (r : OrderRequest) (context : RiskContext) (checked_at now : ℕ)
    (s : RiskEngineState)
    → Decides settings context s checked_at now r (evaluate settings r context checked_at now s)
unfolding evaluate
evaluate_cases settings r context checked_at now s =
    weigh-Decides settings context s checked_at now r (check_gates settings context s checked_at r)
      refl (gates-Meets settings context s checked_at r).ends
