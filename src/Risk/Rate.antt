-- ===== src/Risk/Rate.antt =====
-- The order frequency of the risk engine over a sequence of evaluations.
use live_auto_trading.Prelude.{
  length, ℕ, ◌+◌, ◌≤◌, ◌<◌, ◌≡◌, ◌⊎◌, refl, sym, ◌∙◌, inl, inr, Bool, true, false, none, some, List,
  [], ◌∷◌, ◌++◌, ltb, if◌then◌else◌, arith,
}
use mathlib.Core.Path.{subst}
use mathlib.Core.Option.{none-ne-some}
use live_auto_trading.Decimal.{Decimal}
use live_auto_trading.Domain.Trading.{OrderRequest, RiskEvaluation}
use live_auto_trading.Risk.State.{RiskEngineState, RiskContext, Settings}
use live_auto_trading.Risk.Limits.{recent}
use live_auto_trading.Risk.Engine.{Verdict, evaluated, raised, record_acceptance, evaluate}
use live_auto_trading.Risk.Refusals.{IsRefusal}
use live_auto_trading.Risk.Accepted.{IsAccepted, IsUnrecorded, Decides, evaluate_cases}

-- the arguments of an evaluation
pub record Call : Type 0 where
  pub settings : Settings
  pub request : OrderRequest
  pub context : RiskContext
  pub checked_at : ℕ
  pub now : ℕ

abbrev pub answer : Call → RiskEngineState → Verdict × RiskEngineState
answer c s = evaluate c.settings c.request c.context c.checked_at c.now s

-- The clock does not go back, from the one instant to the other.
abbrev pub IsOrdered : ℕ → List Call → ℕ → Type 0
IsOrdered from [] to = from ≤ to
IsOrdered from (c ∷ cs) to = (from ≤ c.now) × IsOrdered c.now cs to

abbrev pub approves : Verdict → Bool
approves raised = false
approves (evaluated e) = elim e.approved_quantity [ none ↦ false | some q ↦ true ]

abbrev pub and_time : Bool → ℕ → List ℕ → List ℕ
and_time true t ts = t ∷ ts
and_time false t ts = ts

-- the instants of the calls that approved an order
unfoldable pub approved_at : List Call → RiskEngineState → List ℕ
approved_at [] s = []
approved_at (c ∷ cs) s = let (v, s') = answer c s in and_time (approves v) c.now (approved_at cs s')

unfoldable pub after : List Call → RiskEngineState → RiskEngineState
after [] s = s
after (c ∷ cs) s = after cs (answer c s).1

-- how many of the instants are at most a minute old
unfoldable pub in_last_minute : ℕ → List ℕ → ℕ
in_last_minute now [] = 0
in_last_minute now (t ∷ ts) =
    let older = in_last_minute now ts in if ltb (t + 60_000_000) now then older else older + 1

length-recent : (now : ℕ) (ts : List ℕ) → length (recent now ts) ≡ in_last_minute now ts
unfolding recent in_last_minute
length-recent now [] = refl
length-recent now (t ∷ ts) = ground (arith, length-recent now ts)

minute-recent :
    (now later : ℕ) (ts : List ℕ)
    → now ≤ later
    → in_last_minute later (recent now ts) ≡ in_last_minute later ts
unfolding recent in_last_minute
minute-recent now later [] h = refl
minute-recent now later (t ∷ ts) h = ground (arith, minute-recent now later ts h)

minute-snoc :
    (now : ℕ) (ts : List ℕ) (t : ℕ)
    → in_last_minute now (ts ++ t ∷ []) ≡ in_last_minute now ts + in_last_minute now (t ∷ [])
unfolding in_last_minute
minute-snoc now [] t = omega arith
minute-snoc now (u ∷ ts) t = ground (arith, minute-snoc now ts t)

minute-and_time :
    (now : ℕ) (c : Bool) (t : ℕ) (ts : List ℕ)
    → in_last_minute now (and_time c t ts)
      ≡ in_last_minute now (and_time c t []) + in_last_minute now ts
unfolding in_last_minute
minute-and_time now true t ts = ground arith
minute-and_time now false t ts = omega arith

ordered_le : (from : ℕ) (cs : List Call) (to : ℕ) → IsOrdered from cs to → from ≤ to
ordered_le from [] to h = h
ordered_le from (c ∷ cs) to (h, k) = omega (arith, ordered_le c.now cs to k)

-- What one evaluation adds to the times, as a later instant counts them.
answer_minute :
    (c : Call) (s : RiskEngineState) (later : ℕ)
    → c.now ≤ later
    → in_last_minute later (answer c s).1.recent_order_times
      ≡ in_last_minute later s.recent_order_times
        + in_last_minute later (and_time (approves (answer c s).0) c.now [])
unfolding in_last_minute record_acceptance
answer_minute c s later h =
    counted (answer c s) (evaluate_cases c.settings c.request c.context c.checked_at c.now s)
  where
    unrecorded :
        (s' : RiskEngineState)
        → IsUnrecorded c.now s s'
        → in_last_minute later s'.recent_order_times ≡ in_last_minute later s.recent_order_times + 0
    unrecorded s' u = elim u.times [
      | inl same ↦ rw same (omega arith)
      | inr less ↦ rw less (omega (arith, minute-recent c.now later s.recent_order_times h))
    ]

    counted :
        (v : Verdict × RiskEngineState)
        → Decides c.settings c.context s c.checked_at c.now c.request v
        → in_last_minute later v.1.recent_order_times
          ≡ in_last_minute later s.recent_order_times
            + in_last_minute later (and_time (approves v.0) c.now [])
    counted (raised, s') u = unrecorded s' u
    counted (evaluated e, s') (inl a) =
        rw (a.recorded, a.evaluation)
          (omega (
            arith,
            minute-snoc later (recent c.now s.recent_order_times) c.now,
            minute-recent c.now later s.recent_order_times h,
          ))
    counted (evaluated e, s') (inr (refusal, u)) = rw refusal.nothing (unrecorded s' u)

after_minute :
    (from : ℕ) (cs : List Call) (s : RiskEngineState) (later : ℕ)
    → IsOrdered from cs later
    → in_last_minute later (after cs s).recent_order_times
      ≡ in_last_minute later s.recent_order_times + in_last_minute later (approved_at cs s)
unfolding after approved_at
after_minute from [] s later h = unfold in_last_minute in omega arith
after_minute from (c ∷ cs) s later (h, k) =
    let v = answer c s in
    omega (
      arith,
      answer_minute c s later (ordered_le c.now cs later k),
      after_minute c.now cs v.1 later k,
      minute-and_time later (approves v.0) c.now (approved_at cs v.1),
    )

-- Where an evaluation approves an order after any sequence of evaluations, of any orders and under any
-- settings, whose clock does not go back, the orders of the last minute, those that the engine knew at
-- the start and those that the sequence approved, are fewer than the `max_orders_per_minute` of its
-- settings: with the new one, at most that many.
pub evaluate_rate :
    (from : ℕ) (cs : List Call) (s : RiskEngineState) (c : Call) {s' : RiskEngineState}
    {e : RiskEvaluation} {q : Decimal}
    → IsOrdered from cs c.now
    → answer c (after cs s) ≡ (evaluated e, s')
    → e.approved_quantity ≡ some q
    → in_last_minute c.now s.recent_order_times + in_last_minute c.now (approved_at cs s)
      < c.settings.max_orders_per_minute
evaluate_rate from cs s c {s'} {e} ordered now approved = below (
    subst (Decides c.settings c.context (after cs s) c.checked_at c.now c.request) now
      (evaluate_cases c.settings c.request c.context c.checked_at c.now (after cs s)))
  where
    below :
        IsAccepted c.settings c.context (after cs s) c.checked_at c.now c.request e s'
          ⊎ (IsRefusal e × IsUnrecorded c.now (after cs s) s')
        → in_last_minute c.now s.recent_order_times + in_last_minute c.now (approved_at cs s)
          < c.settings.max_orders_per_minute
    below (inr (refusal, _)) = absurd (none-ne-some _ (sym refusal.nothing ∙ approved))
    below (inl a) = omega (
      arith,
      a.within.paced.below,
      length-recent c.now (after cs s).recent_order_times,
      after_minute from cs s c.now ordered,
    )
