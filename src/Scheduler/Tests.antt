-- ===== src/Scheduler/Tests.antt =====
-- Runs of the scheduler, and its theorems at concrete inputs.
use live_auto_trading.Prelude.{◌≡◌, refl, true, false, none, [], arith}
use live_auto_trading.Scheduler.Cycle.{
  raises, returns, SchedulerSettings, Scheduler, run_one_cycle, skip_reason, guarded, attempt,
  failed_cycle, turn,
}
use live_auto_trading.Scheduler.Guards.{IsPermitted, Runs, run_cases}
use live_auto_trading.Scheduler.Failures.{
  IsCounted, run-IsCounted, failing, failures_pause, IsBounded, turn-IsBounded,
}

abbrev settings : SchedulerSettings
settings = record {
  paper_only = true;
  kill_switch_enabled = false;
  trading_enabled = false;
  enable_reconciliation = true;
  scheduler_failure_threshold = 2;
  paper_cycle_interval_seconds = 60;
  enable_trading_scheduler = true;
}

abbrev scheduler : Scheduler
scheduler = record {
  task_running = true;
  last_error = none;
  cycle_count = 0;
  consecutive_failures = 0;
  paused_by_failures = false;
  session = record { kill_switch_enabled = false; trading_paused = false; trading_enabled = true };
  reconciliation = record { healthy = true; halted = false; last_result = none };
  runs = [];
}

permitted : IsPermitted settings scheduler
permitted = record {
  paper_only = refl;
  unpaused = refl;
  no_kill = refl;
  trading = refl;
  enabled = refl;
  reconciled = refl;
}

-- A success between two failures starts the count again.
restarted :
    (run_one_cycle settings raises
      (run_one_cycle settings returns
        (run_one_cycle settings raises scheduler).1).1).1.consecutive_failures
    ≡ 1
unfolding run_one_cycle skip_reason guarded attempt failed_cycle
restarted = refl

run_cases_example : Runs settings raises scheduler (run_one_cycle settings raises scheduler)
run_cases_example = run_cases settings raises scheduler

run-IsCounted_example : IsCounted settings (run_one_cycle settings raises scheduler).1
run-IsCounted_example = run-IsCounted settings raises scheduler (omega arith) (λ e. omega arith)

failures_pause_example : (failing settings 2 scheduler).paused_by_failures ≡ true
failures_pause_example = failures_pause settings 2 scheduler permitted (omega arith) (omega arith)

turn-IsBounded_example :
    IsBounded settings (turn settings false raises (record { scheduler = scheduler; backoff = 60 }))
turn-IsBounded_example =
    turn-IsBounded settings false raises (record { scheduler = scheduler; backoff = 60 })
      (ground arith, ground arith)
