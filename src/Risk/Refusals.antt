-- ===== src/Risk/Refusals.antt =====
-- The ends of the chains of checks: go on, refuse, fault.
use live_auto_trading.Prelude.{
  ℕ, ◌≡◌, refl, ◌⊎◌, inl, inr, Bool, true, false, Option, none, some, List, if◌then◌else◌,
}
use live_auto_trading.Decimal.{Decimal, zero, sub, mul, abs, lt, le}
use live_auto_trading.Domain.Enums.{RiskDecision, RiskReasonCode}
use live_auto_trading.Domain.Trading.{OrderRequest, PortfolioState, RiskEvaluation}
use live_auto_trading.Risk.Check.{Check, go, stop, fault, reject_if, halt_if, or_fault, when, ◌>>=◌}
use live_auto_trading.Risk.State.{RiskEngineState, RiskContext, Settings, SymbolInfo}
use live_auto_trading.Risk.Gates.{
  check_live_gating, check_halts, check_permissions, check_health, check_fresh, check_prices,
  check_step, check_tick, check_size, check_gates,
}
use live_auto_trading.Risk.Limits.{
  Sized, check_rate, check_losses, units_in, size_by_stop, size_by_fraction, size_by_risk,
  cap_position, cap_portfolio, check_final, check_limits, equity_of, positive_stop, reduced,
  as_requested,
}

-- a decision that lets nothing through
pub record IsRefusal (e : RiskEvaluation) : Type 0 where
  pub nothing : e.approved_quantity ≡ none
  pub decision : (e.decision ≡ RiskDecision.rejected) ⊎ (e.decision ≡ RiskDecision.halted)

abbrev pub Ends : {A : Type 0} → (A → Type 0) → Check A → Type 0
Ends Q (go a) = Q a
Ends Q (stop e) = IsRefusal e
Ends Q fault = Unit

-- `m` goes on with what has `Q`, or refuses, or faults.
pub record Meets {A : Type 0} (Q : A → Type 0) (m : Check A) : Type 0 where
  pub ends : Ends Q m

-- nothing is claimed of what a check yields
abbrev pub Any : {A : Type 0} → A → Type 0
Any a = Unit

Meets-reject_if : (c : Bool) (code : RiskReasonCode) → Meets Any (reject_if c code)
Meets-reject_if true code = record { ends = record { nothing = refl; decision = inl refl } }
Meets-reject_if false code = record { ends = tt }

Meets-halt_if : (c : Bool) (code : RiskReasonCode) → Meets Any (halt_if c code)
Meets-halt_if true code = record { ends = record { nothing = refl; decision = inr refl } }
Meets-halt_if false code = record { ends = tt }

Meets-when : (c : Bool) (m : Check (Unit {0})) → Meets Any m → Meets Any (when c m)
Meets-when true m h = h
Meets-when false m h = record { ends = tt }

module _ {A : Type 0} where
  Meets-or_fault : (o : Option A) → Meets Any (or_fault o)
  Meets-or_fault none = record { ends = tt }
  Meets-or_fault (some a) = record { ends = tt }

  Meets-go : (Q : A → Type 0) (a : A) → Q a → Meets Q (go a)
  Meets-go Q a h = record { ends = h }

  Meets-if :
      (Q : A → Type 0) (c : Bool) (m n : Check A)
      → Meets Q m
      → Meets Q n
      → Meets Q (if c then m else n)
  Meets-if Q true m n h k = h
  Meets-if Q false m n h k = k

module _ {A B : Type 0} where
  Meets-bind :
      (R : A → Type 0) (Q : B → Type 0) (m : Check A) (f : A → Check B)
      → Meets R m
      → ((a : A) → R a → Meets Q (f a))
      → Meets Q (m >>= f)
  Meets-bind R Q (go a) f h k = k a h.ends
  Meets-bind R Q (stop e) f h k = record { ends = h.ends }
  Meets-bind R Q fault f h k = record { ends = tt }

  Meets-then :
      (Q : B → Type 0) (m : Check A) (f : A → Check B)
      → Meets Any m
      → ((a : A) → Meets Q (f a))
      → Meets Q (m >>= f)
  Meets-then Q m f h k = Meets-bind Any Q m f h (λ a _. k a)

ruleset meets_rules = (Meets-reject_if, Meets-halt_if, Meets-when, Meets-or_fault, Meets-then)

module _ (settings : Settings) (context : RiskContext) (s : RiskEngineState) where
  live-Meets : Meets Any (check_live_gating settings context s)
  unfolding check_live_gating
  live-Meets = search meets_rules depth 10

  halts-Meets : Meets Any (check_halts settings context s)
  unfolding check_halts
  halts-Meets = search (meets_rules, live-Meets) depth 10

  permissions-Meets : (r : OrderRequest) → Meets Any (check_permissions settings context s r)
  unfolding check_permissions
  permissions-Meets r = search meets_rules depth 10

  health-Meets : Meets Any (check_health settings context s)
  unfolding check_health
  health-Meets = search meets_rules depth 10

  fresh-Meets : (now : ℕ) (r : OrderRequest) → Meets Any (check_fresh settings context s now r)
  unfolding check_fresh
  fresh-Meets now r = search meets_rules depth 10

  prices-Meets : (r : OrderRequest) → Meets Any (check_prices settings context s r)
  unfolding check_prices
  prices-Meets r = search meets_rules depth 10

step-Meets : (qty step : Decimal) → Meets Any (check_step qty step)
unfolding check_step
step-Meets qty step = search meets_rules depth 10

tick-Meets : (price : Option Decimal) (tick : Decimal) → Meets Any (check_tick price tick)
unfolding check_tick
tick-Meets none tick = record { ends = tt }
tick-Meets (some p) tick = search meets_rules depth 10

size-Meets :
    (settings : Settings) (r : OrderRequest) (price : Decimal) (info : Option SymbolInfo)
    → Meets Any (check_size settings r price info)
unfolding check_size
size-Meets settings r price none = search meets_rules
size-Meets settings r price (some i) = search (meets_rules, step-Meets, tick-Meets) depth 10

pub gates-Meets :
    (settings : Settings) (context : RiskContext) (s : RiskEngineState) (now : ℕ) (r : OrderRequest)
    → Meets Any (check_gates settings context s now r)
unfolding check_gates
gates-Meets settings context s now r =
    search
      (
        Meets-then,
        Meets-go Any,
        halts-Meets,
        permissions-Meets,
        health-Meets,
        fresh-Meets,
        prices-Meets,
        size-Meets,
      )
      depth 12

-- The size is the requested one and the decision APPROVED, or the decision is REDUCED.
abbrev pub IsSizing : Decimal → Sized → Type 0
IsSizing qty sized =
    ((sized.decision ≡ RiskDecision.approved) × (sized.approved_qty ≡ qty))
    ⊎ (sized.decision ≡ RiskDecision.reduced)

module _ (qty : Decimal) where
  sized-Meets :
      (c : Bool) (most : Decimal) → IsSizing qty (if c then reduced most else as_requested qty)
  sized-Meets true most = inr refl
  sized-Meets false most = inl (refl, refl)

  units-Meets : (budget unit : Decimal) → Meets Any (units_in budget unit)
  unfolding units_in
  units-Meets budget unit = search meets_rules

  by_stop-Meets :
      (budget price stop_price : Decimal)
      → Meets (IsSizing qty) (size_by_stop qty budget price stop_price)
  unfolding size_by_stop
  by_stop-Meets budget price stop_price =
      Meets-if (IsSizing qty) _ _ _ (Meets-go (IsSizing qty) (as_requested qty) (inl (refl, refl)))
        (Meets-then (IsSizing qty) (units_in budget (abs (sub price stop_price))) _
          (units-Meets _ _)
          λ most.
            Meets-then (IsSizing qty) (reject_if (le most zero) RiskReasonCode.max_risk_per_trade) _
              (Meets-reject_if _ _) λ _. Meets-go (IsSizing qty) _ (sized-Meets (lt most qty) most))

  by_fraction-Meets :
      (budget price : Decimal) → Meets (IsSizing qty) (size_by_fraction qty budget price)
  unfolding size_by_fraction
  by_fraction-Meets budget price =
      Meets-then (IsSizing qty) (units_in budget price) _ (units-Meets _ _)
        λ most. Meets-go (IsSizing qty) _ (sized-Meets (lt most qty) most)

  position-Meets :
      (settings : Settings) (price equity : Decimal) (sized : Sized)
      → IsSizing qty sized
      → Meets (IsSizing qty) (cap_position settings price equity sized)
  unfolding cap_position
  position-Meets settings price equity sized h =
      Meets-if (IsSizing qty) _ _ (go sized)
        (Meets-then (IsSizing qty) (units_in _ price) _ (units-Meets _ _) λ most.
          Meets-then (IsSizing qty) (reject_if (le most zero) _) _ (Meets-reject_if _ _)
            λ _. Meets-go (IsSizing qty) (reduced most) (inr refl))
        (Meets-go (IsSizing qty) sized h)

  portfolio-Meets :
      (settings : Settings) (context : RiskContext) (price equity : Decimal) (sized : Sized)
      → IsSizing qty sized
      → Meets (IsSizing qty) (cap_portfolio settings context price equity sized)
  unfolding cap_portfolio
  portfolio-Meets settings context price equity sized h =
      Meets-if (IsSizing qty) _ _ (go sized)
        (Meets-then (IsSizing qty) (reject_if (le _ zero) _) _ (Meets-reject_if _ _) λ _.
          Meets-then (IsSizing qty) (units_in _ price) _ (units-Meets _ _) λ most.
            Meets-then (IsSizing qty) (reject_if (le most zero) _) _ (Meets-reject_if _ _)
              λ _. Meets-go (IsSizing qty) (reduced most) (inr refl))
        (Meets-go (IsSizing qty) sized h)

by_risk-Meets :
    (settings : Settings) (r : OrderRequest) (price equity : Decimal)
    → Meets (IsSizing r.quantity) (size_by_risk settings r price equity)
unfolding size_by_risk
by_risk-Meets settings r price equity = by_stop (positive_stop r.stop_loss)
  where
    by_stop :
        (o : Option Decimal)
        → Meets (IsSizing r.quantity) (elim o [
          | some stop_price ↦
              size_by_stop r.quantity (mul equity settings.max_risk_per_trade) price stop_price
          | none ↦ size_by_fraction r.quantity (mul equity settings.max_risk_per_trade) price
        ])
    by_stop none = by_fraction-Meets r.quantity _ price
    by_stop (some d) = by_stop-Meets r.quantity _ price d

rate-Meets :
    (settings : Settings) (now : ℕ) (times : List ℕ) → Meets Any (check_rate settings now times)
unfolding check_rate
rate-Meets settings now times = search meets_rules

losses-Meets :
    (settings : Settings) (r : OrderRequest) (p : PortfolioState)
    → Meets Any (check_losses settings r p)
unfolding check_losses
losses-Meets settings r p = search meets_rules depth 10

final-Meets :
    (r : OrderRequest) (p : PortfolioState) (price qty : Decimal)
    → Meets Any (check_final r p price qty)
unfolding check_final
final-Meets r p price qty = search meets_rules

pub limits-Meets :
    (settings : Settings) (context : RiskContext) (now : ℕ) (times : List ℕ) (r : OrderRequest)
    (price : Decimal)
    → Meets (IsSizing r.quantity) (check_limits settings context now times r price)
unfolding check_limits
limits-Meets settings context now times r price =
    Meets-then Q (check_rate settings now times) _ (rate-Meets _ _ _) λ _.
      Meets-then Q (check_losses settings r context.portfolio) _ (losses-Meets _ _ _) λ _.
        Meets-bind Q Q (size_by_risk settings r price (equity_of context.portfolio)) _
          (by_risk-Meets _ _ _ _)
          λ s h.
            Meets-bind Q Q (cap_position settings price (equity_of context.portfolio) s) _
              (position-Meets _ _ _ _ s h)
              λ s h.
                Meets-bind Q Q
                  (cap_portfolio settings context price (equity_of context.portfolio) s) _
                  (portfolio-Meets _ _ _ _ _ s h)
                  λ s h.
                    Meets-then Q (check_final r context.portfolio price s.approved_qty) _
                      (final-Meets _ _ _ _) λ _. Meets-go Q s h
  where
    Q : Sized → Type 0
    Q = IsSizing r.quantity
