-- ===== src/Scheduler/Guards.antt =====
-- The guards of a cycle.
use live_auto_trading.Prelude.{
  ◌≡◌, refl, ◌⊎◌, inl, inr, Bool, true, false, not, ◌&&◌, ◌||◌, Option, none, some, if◌then◌else◌,
  arith,
}
use live_auto_trading.Reconciliation.Run.{is_reconciliation_healthy}
use live_auto_trading.Scheduler.Cycle.{
  LastError, paused_after_failure_threshold, kill_switch_active, trading_paused, trading_disabled,
  reconciliation_halt, CycleEnd, SchedulerSettings, Scheduler, skip_reason, attempt, guarded,
  run_one_cycle,
}

-- Nothing holds a cycle back.
pub record IsPermitted (settings : SchedulerSettings) (s : Scheduler) : Type 0 where
  pub paper_only : settings.paper_only ≡ true
  pub unpaused : s.paused_by_failures ≡ false
  pub no_kill : (s.session.kill_switch_enabled || settings.kill_switch_enabled) ≡ false
  pub trading : s.session.trading_paused ≡ false
  pub enabled : (s.session.trading_enabled || settings.trading_enabled) ≡ true
  pub reconciled :
      (not settings.enable_reconciliation || is_reconciliation_healthy s.reconciliation) ≡ true

-- What is left of a state apart from its last error.
abbrev pub but_error : Scheduler → Scheduler
but_error s = record s { last_error = none }

-- A cycle was attempted with everything permitting it, or nothing but the last error has changed.
abbrev pub Runs : SchedulerSettings → CycleEnd → Scheduler → Bool × Scheduler → Type 0
Runs settings end s r =
    (IsPermitted settings s × (r ≡ attempt settings end s)) ⊎ (but_error r.1 ≡ but_error s)

chain :
    (a b c d e f g h : Bool)
    → (if a
        then some paused_after_failure_threshold
        else if b || c
        then some kill_switch_active
        else if d
        then some trading_paused
        else if not e && not f
        then some trading_disabled
        else if g && not h
        then some reconciliation_halt
        else none)
      ≡ none
    → (a ≡ false)
      × (((b || c) ≡ false) × ((d ≡ false) × (((e || f) ≡ true) × ((not g || h) ≡ true))))
chain a b c d e f g h p = ground arith

unchain :
    (a b c d e f g h : Bool)
    → a ≡ false
    → (b || c) ≡ false
    → d ≡ false
    → (e || f) ≡ true
    → (not g || h) ≡ true
    → (if a
        then some paused_after_failure_threshold
        else if b || c
        then some kill_switch_active
        else if d
        then some trading_paused
        else if not e && not f
        then some trading_disabled
        else if g && not h
        then some reconciliation_halt
        else none)
      ≡ none
unchain a b c d e f g h p q r t u = ground arith

skip_reason-none :
    (settings : SchedulerSettings) (s : Scheduler)
    → settings.paper_only ≡ true
    → skip_reason settings s ≡ none
    → IsPermitted settings s
unfolding skip_reason
skip_reason-none settings s only h =
    let (unpaused, (no_kill, (trading, (enabled, reconciled)))) =
      chain s.paused_by_failures s.session.kill_switch_enabled settings.kill_switch_enabled
        s.session.trading_paused s.session.trading_enabled settings.trading_enabled
        settings.enable_reconciliation (is_reconciliation_healthy s.reconciliation) h in
    record {
      paper_only = only;
      unpaused = unpaused;
      no_kill = no_kill;
      trading = trading;
      enabled = enabled;
      reconciled = reconciled;
    }

-- A cycle is attempted only in paper mode, without a pause, a kill switch or a reconciliation halt, and
-- with trading enabled; in every other case nothing but the last error changes.
pub run_cases :
    (settings : SchedulerSettings) (end : CycleEnd) (s : Scheduler)
    → Runs settings end s (run_one_cycle settings end s)
unfolding run_one_cycle guarded
run_cases settings end s = mode settings.paper_only refl
  where
    judged :
        (r : Option LastError)
        → settings.paper_only ≡ true
        → skip_reason settings s ≡ r
        → Runs settings end s (guarded settings end r s)
    judged (some reason) only e = inr refl
    judged none only e = inl (skip_reason-none settings s only e, refl)

    mode :
        (b : Bool)
        → settings.paper_only ≡ b
        → Runs settings end s
            (if b then guarded settings end (skip_reason settings s) s else (true, s))
    mode true e = judged (skip_reason settings s) e refl
    mode false e = inr refl

permitted-none :
    (settings : SchedulerSettings) (s : Scheduler)
    → IsPermitted settings s
    → skip_reason settings s ≡ none
unfolding skip_reason
permitted-none settings s p =
    unchain s.paused_by_failures s.session.kill_switch_enabled settings.kill_switch_enabled
      s.session.trading_paused s.session.trading_enabled settings.trading_enabled
      settings.enable_reconciliation (is_reconciliation_healthy s.reconciliation) p.unpaused
      p.no_kill p.trading p.enabled p.reconciled

-- A permitted cycle is attempted.
pub run_permitted :
    (settings : SchedulerSettings) (end : CycleEnd) (s : Scheduler)
    → IsPermitted settings s
    → run_one_cycle settings end s ≡ attempt settings end s
unfolding run_one_cycle guarded
run_permitted settings end s p = rw (permitted-none settings s p, p.paper_only) refl
