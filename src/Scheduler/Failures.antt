-- ===== src/Scheduler/Failures.antt =====
-- Repeated failures of cycles.
use live_auto_trading.Prelude.{
  ℕ, zero, suc, ◌+◌, ◌*◌, ◌≤◌, ◌<◌, ◌≡◌, refl, sym, ap, ◌∙◌, inl, inr, ◌⊎◌, Bool, true, false,
  arith, leb, Bool-cases,
}
use mathlib.Core.Bool.{false≢true}
use live_auto_trading.Scheduler.Cycle.{
  CycleEnd, no_source, raises, returns, SchedulerSettings, Scheduler, log, running, failed_cycle,
  attempt, run_one_cycle, larger, Loop, next_backoff, turn,
}
use live_auto_trading.Scheduler.Guards.{IsPermitted, Runs, run_cases, run_permitted}

-- A scheduler that is not paused by failures has had fewer in a row than the threshold.
abbrev pub IsCounted : SchedulerSettings → Scheduler → Type 0
IsCounted settings s =
    s.paused_by_failures ≡ false → s.consecutive_failures < settings.scheduler_failure_threshold

failed_cycle-IsCounted :
    (settings : SchedulerSettings) (s : Scheduler) → IsCounted settings (failed_cycle settings s)
unfolding failed_cycle
failed_cycle-IsCounted settings s = elim (Bool-cases over) [
  | inl e ↦ rw e (λ h. absurd (false≢true (sym h)))
  | inr e ↦ rw e (λ h. ground arith)
]
  where
    over : Bool
    over = leb settings.scheduler_failure_threshold (s.consecutive_failures + 1)

attempt-IsCounted :
    (settings : SchedulerSettings) (end : CycleEnd) (s : Scheduler)
    → 1 ≤ settings.scheduler_failure_threshold
    → IsCounted settings s
    → IsCounted settings (attempt settings end s).1
unfolding attempt
attempt-IsCounted settings no_source s positive h = h
attempt-IsCounted settings raises s positive h = failed_cycle-IsCounted settings (log running s)
attempt-IsCounted settings returns s positive h = λ e. omega arith

-- Every cycle keeps it: the failures in a row stay below the threshold until the scheduler pauses.
pub run-IsCounted :
    (settings : SchedulerSettings) (end : CycleEnd) (s : Scheduler)
    → 1 ≤ settings.scheduler_failure_threshold
    → IsCounted settings s
    → IsCounted settings (run_one_cycle settings end s).1
run-IsCounted settings end s positive h = after (run_cases settings end s)
  where
    after : {r : Bool × Scheduler} → Runs settings end s r → IsCounted settings r.1
    after (inl (p, e)) = rw e (attempt-IsCounted settings end s positive h)
    after (inr e) = rw (ap (λ t. t.paused_by_failures) e, ap (λ t. t.consecutive_failures) e) h

-- A failure of a permitted cycle pauses the scheduler, or leaves it permitted with one failure more.
failure_step :
    (settings : SchedulerSettings) (s : Scheduler)
    → IsPermitted settings s
    → let s' = (run_one_cycle settings raises s).1 in
      ((s'.paused_by_failures ≡ true) × (s'.session.trading_paused ≡ true))
      ⊎ (IsPermitted settings s'
          × ((s'.consecutive_failures ≡ s.consecutive_failures + 1)
              × (s.consecutive_failures + 1 < settings.scheduler_failure_threshold)))
unfolding attempt failed_cycle
failure_step settings s p = rw (run_permitted settings raises s p) (elim (Bool-cases over) [
  | inl e ↦ rw e (inl (refl, refl))
  | inr e ↦ rw e (
      inr (
        record {
          paper_only = p.paper_only;
          unpaused = p.unpaused;
          no_kill = p.no_kill;
          trading = p.trading;
          enabled = p.enabled;
          reconciled = p.reconciled;
        },
        (refl, ground arith),
      ))
])
  where
    over : Bool
    over = leb settings.scheduler_failure_threshold (s.consecutive_failures + 1)

-- `n` cycles that all raise, one after the other
abbrev pub failing : SchedulerSettings → ℕ → Scheduler → Scheduler
failing settings zero s = s
failing settings (suc n) s = failing settings n (run_one_cycle settings raises s).1

paused_stays :
    (settings : SchedulerSettings) (n : ℕ) (s : Scheduler)
    → s.paused_by_failures ≡ true
    → (failing settings n s).paused_by_failures ≡ true
paused_stays settings zero s h = h
paused_stays settings (suc n) s h =
    paused_stays settings n (run_one_cycle settings raises s).1
      (after (run_cases settings raises s))
  where
    after : {r : Bool × Scheduler} → Runs settings raises s r → r.1.paused_by_failures ≡ true
    after (inl (p, e)) = absurd (false≢true (sym p.unpaused ∙ h))
    after (inr e) = ap (λ t. t.paused_by_failures) e ∙ h

-- The threshold is reached: a scheduler whose cycles are permitted, and raise so often in a row that the
-- failures come to the threshold, is paused.
pub failures_pause :
    (settings : SchedulerSettings) (n : ℕ) (s : Scheduler)
    → IsPermitted settings s
    → s.consecutive_failures < settings.scheduler_failure_threshold
    → settings.scheduler_failure_threshold ≤ s.consecutive_failures + n
    → (failing settings n s).paused_by_failures ≡ true
failures_pause settings zero s p below reached = absurd (omega arith)
failures_pause settings (suc n) s p below reached = elim (failure_step settings s p) [
  | inl (paused, _) ↦ paused_stays settings n (run_one_cycle settings raises s).1 paused
  | inr (again, (counted, low)) ↦
      failures_pause settings n (run_one_cycle settings raises s).1 again (omega arith)
        (omega arith)
]

-- Between the turns of the loop the wait is never shorter than the interval, nor longer than eight
-- intervals or 300 seconds, whichever is more.
abbrev pub IsBounded : SchedulerSettings → Loop → Type 0
IsBounded settings l =
    (settings.paper_cycle_interval_seconds ≤ l.backoff)
    × (l.backoff ≤ larger (settings.paper_cycle_interval_seconds * 8) 300)

backoff_bounds :
    (settings : SchedulerSettings) (raised : Bool) (backoff : ℕ)
    → settings.paper_cycle_interval_seconds ≤ backoff
    → (settings.paper_cycle_interval_seconds ≤ next_backoff settings raised backoff)
      × (next_backoff settings raised backoff
          ≤ larger (settings.paper_cycle_interval_seconds * 8) 300)
unfolding next_backoff
backoff_bounds settings true backoff h = (ground arith, ground arith)
backoff_bounds settings false backoff h = (ground arith, ground arith)

-- Every turn of the loop keeps the wait between one interval and the larger of eight intervals and 300
-- seconds, however often its cycles raise.
pub turn-IsBounded :
    (settings : SchedulerSettings) (locked : Bool) (end : CycleEnd) (l : Loop)
    → IsBounded settings l
    → IsBounded settings (turn settings locked end l)
unfolding turn next_backoff
turn-IsBounded settings true end l h = backoff_bounds settings false l.backoff h.0
turn-IsBounded settings false end l h =
    backoff_bounds settings (run_one_cycle settings end l.scheduler).0 l.backoff h.0
