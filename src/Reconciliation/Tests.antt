-- ===== src/Reconciliation/Tests.antt =====
-- Runs of the reconciliation, and its theorems at concrete inputs.
use live_auto_trading.Prelude.{nat_key, string_key, ◌≡◌, refl, true, false, none}
use live_auto_trading.Decimal
use live_auto_trading.Decimal.{Decimal, zero}
use live_auto_trading.Dict.{values}
use live_auto_trading.Paper.Tests.{cents, engine}
use live_auto_trading.Risk.Tests.{settings, context, request}
use live_auto_trading.Gateway.Tests.{gateway}
use live_auto_trading.Gateway.Submit as g
use live_auto_trading.Gateway.Safety.{IsHeld}
use live_auto_trading.Reconciliation.Run.{
  Desk, ReconciliationSettings, cash_is_ok, position_mismatches, positions_are_ok, replay_fills,
  fills_mismatches, all_explained, all_held, order_mismatches, orders_are_ok, no_critical,
  reconcile, run_paper_reconciliation,
}
use live_auto_trading.Reconciliation.Healthy.{IsReconciled, reconcile-IsReconciled}
use live_auto_trading.Reconciliation.Halt.{run_halts}

abbrev desk : Desk
desk = record {
  flags = record { healthy = true; halted = false; last_result = none };
  session = gateway;
}

abbrev enabled : ReconciliationSettings
enabled = record { enable_reconciliation = true; paper_starting_balance = engine.cash }

-- a ledger in the red
abbrev overdrawn : Desk
overdrawn = record desk {
  session = record gateway { backend = record engine { cash = Decimal.neg (cents 100) } };
}

overdrawn_run : (run_paper_reconciliation enabled overdrawn).0.healthy ≡ false
unfolding run_paper_reconciliation reconcile cash_is_ok Decimal.le Decimal.neg
overdrawn_run = refl

engine_healthy : (reconcile engine.cash engine).healthy ≡ true
unfolding reconcile cash_is_ok positions_are_ok orders_are_ok replay_fills position_mismatches
    fills_mismatches order_mismatches no_critical Decimal.le values all_explained all_held
engine_healthy = refl

reconcile-IsReconciled_example : IsReconciled engine.cash engine
reconcile-IsReconciled_example = reconcile-IsReconciled engine.cash engine engine_healthy

run_halts_example :
    IsHeld settings context 2_000_000 2_000_001 request
      (run_paper_reconciliation enabled overdrawn).1.session
      (g.submit settings request context 2_000_000 2_000_001
        (run_paper_reconciliation enabled overdrawn).1.session).0
      (g.submit settings request context 2_000_000 2_000_001
        (run_paper_reconciliation enabled overdrawn).1.session).1
run_halts_example =
    run_halts enabled overdrawn settings request context 2_000_000 2_000_001 refl overdrawn_run
