-- ===== src/Scheduler/Cycle.antt =====
-- The globals of the scheduler, with the flags of the paper session and of the reconciliation that it
-- reads, and its operations. What a cycle itself does is outside: a cycle ends in one of three ways. The
-- timestamps are left out; `runs` are the statuses that `_persist_run` records, the latest first.
use live_auto_trading.Prelude.{
  ℕ, ◌+◌, ◌*◌, Bool, true, false, not, ◌&&◌, ◌||◌, Option, none, some, List, ◌∷◌, if◌then◌else◌,
  leb, ltb,
}
use live_auto_trading.Reconciliation.Run.{Flags, is_reconciliation_healthy}

pub data LastError : Type 0 where
  paused_after_failure_threshold kill_switch_active trading_paused trading_disabled : LastError
  reconciliation_halt cycle_error : LastError

pub data RunStatus : Type 0 where
  running success failed : RunStatus

-- The source of candles is not there, the cycle raises, or it returns.
pub data CycleEnd : Type 0 where
  no_source raises returns : CycleEnd

-- `paper_only` is whether `assert_paper_only` passes.
pub record SchedulerSettings : Type 0 where
  pub paper_only : Bool
  pub kill_switch_enabled : Bool
  pub trading_enabled : Bool
  pub enable_reconciliation : Bool
  pub scheduler_failure_threshold : ℕ
  pub paper_cycle_interval_seconds : ℕ
  pub enable_trading_scheduler : Bool

pub record Session : Type 0 where
  pub kill_switch_enabled : Bool
  pub trading_paused : Bool
  pub trading_enabled : Bool

pub record Scheduler : Type 0 where
  pub task_running : Bool
  pub last_error : Option LastError
  pub cycle_count : ℕ
  pub consecutive_failures : ℕ
  pub paused_by_failures : Bool
  pub session : Session
  pub reconciliation : Flags
  pub runs : List RunStatus

abbrev pub set_paused : Bool → Scheduler → Scheduler
set_paused paused s = record s { session = record s.session { trading_paused = paused } }

abbrev pub clear_failure_pause : Scheduler → Scheduler
clear_failure_pause s = record s { paused_by_failures = false; consecutive_failures = 0 }

abbrev pub pause_scheduler : Scheduler → Scheduler
pause_scheduler s = set_paused true s

abbrev pub resume_scheduler : Scheduler → Scheduler
resume_scheduler s = set_paused false (clear_failure_pause s)

-- `force` starts it in spite of the setting.
unfoldable pub start_scheduler : SchedulerSettings → Bool → Scheduler → Scheduler
start_scheduler settings force s =
    if (not force && not settings.enable_trading_scheduler) || s.task_running
    then s
    else record (clear_failure_pause s) { task_running = true }

abbrev pub stop_scheduler : Scheduler → Scheduler
stop_scheduler s = record s { task_running = false }

-- The first reason that there is to skip a cycle.
unfoldable pub skip_reason : SchedulerSettings → Scheduler → Option LastError
skip_reason settings s =
    if s.paused_by_failures
    then some paused_after_failure_threshold
    else if s.session.kill_switch_enabled || settings.kill_switch_enabled
    then some kill_switch_active
    else if s.session.trading_paused
    then some trading_paused
    else if not s.session.trading_enabled && not settings.trading_enabled
    then some trading_disabled
    else if settings.enable_reconciliation && not (is_reconciliation_healthy s.reconciliation)
    then some reconciliation_halt
    else none

abbrev pub log : RunStatus → Scheduler → Scheduler
log status s = record s { runs = status ∷ s.runs }

abbrev pub succeeded : Scheduler → Scheduler
succeeded s =
    log success
      (record s { cycle_count = s.cycle_count + 1; last_error = none; consecutive_failures = 0 })

unfoldable pub failed_cycle : SchedulerSettings → Scheduler → Scheduler
failed_cycle settings s =
    let s' : Scheduler = log failed (record s {
      last_error = some cycle_error;
      consecutive_failures = s.consecutive_failures + 1;
    }) in
    if leb settings.scheduler_failure_threshold s'.consecutive_failures
    then set_paused true (record s' { paused_by_failures = true })
    else s'

-- Whether the cycle raises, and the state that it leaves.
unfoldable pub attempt : SchedulerSettings → CycleEnd → Scheduler → Bool × Scheduler
attempt settings no_source s = (true, s)
attempt settings raises s = (true, failed_cycle settings (log running s))
attempt settings returns s = (false, succeeded (log running s))

unfoldable pub guarded :
    SchedulerSettings → CycleEnd → Option LastError → Scheduler → Bool × Scheduler
guarded settings end (some reason) s = (false, record s { last_error = some reason })
guarded settings end none s = attempt settings end s

unfoldable pub run_one_cycle : SchedulerSettings → CycleEnd → Scheduler → Bool × Scheduler
run_one_cycle settings end s =
    if settings.paper_only then guarded settings end (skip_reason settings s) s else (true, s)

abbrev pub larger : ℕ → ℕ → ℕ
larger m n = if ltb m n then n else m

abbrev pub smaller : ℕ → ℕ → ℕ
smaller m n = if ltb n m then n else m

-- The state of `_loop`: the globals, and the time that it waits next.
pub record Loop : Type 0 where
  pub scheduler : Scheduler
  pub backoff : ℕ

unfoldable pub next_backoff : SchedulerSettings → Bool → ℕ → ℕ
next_backoff settings true backoff =
    smaller (backoff * 2) (larger (settings.paper_cycle_interval_seconds * 8) 300)
next_backoff settings false backoff = settings.paper_cycle_interval_seconds

-- One turn of the loop; where the overlap guard is held, it runs no cycle.
unfoldable pub turn : SchedulerSettings → Bool → CycleEnd → Loop → Loop
turn settings true end l = record l { backoff = settings.paper_cycle_interval_seconds }
turn settings false end l =
    let (raised, s) = run_one_cycle settings end l.scheduler in
    record { scheduler = s; backoff = next_backoff settings raised l.backoff }
