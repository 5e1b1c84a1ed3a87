-- ===== src/LiveGate/Tests.antt =====
-- Runs of the live gate, and its theorems at concrete inputs.
use live_auto_trading.Prelude.{string_key, ◌≡◌, ◌↔◌, refl, true, false, [], ◌∷◌}
use live_auto_trading.Risk.Check.{go}
use live_auto_trading.Risk.Gates.{check_live_gating}
use live_auto_trading.Risk.State.{Settings, RiskContext}
use live_auto_trading.Risk.Tests.{settings, context, healthy}
use live_auto_trading.LiveGate.Evaluate.{
  LiveTradingGate, trading_mode_live, live_startup_ack, checks, failed, gate_result, strip_start,
  strip_end, evaluate,
}
use live_auto_trading.LiveGate.Checklist.{IsReady, evaluate-IsReady, evaluate-check_live_gating}

abbrev live_settings : Settings
live_settings = record settings {
  trading_mode = "live";
  live_trading_enabled = true;
  has_exchange_credentials = true;
}

abbrev gate : LiveTradingGate
gate = record {
  settings = live_settings;
  startup_ack = " I_UNDERSTAND_LIVE_TRADING_RISKS ";
  state = record {
    risk_engine_healthy = true;
    market_data_healthy = true;
    database_healthy = true;
    reconciliation_healthy = true;
    live_approval_valid = true;
  };
}

gate_complete : (evaluate gate).checklist_complete ≡ true
unfolding evaluate checks failed gate_result strip_start strip_end
gate_complete = refl

-- Without the acknowledgement in paper mode, two conditions fail, in their order.
two_failures :
    (evaluate (record gate {
      settings = record live_settings { trading_mode = "paper" };
      startup_ack = "yes";
    })).failed_conditions
    ≡ trading_mode_live ∷ live_startup_ack ∷ []
unfolding evaluate checks failed gate_result strip_start strip_end
two_failures = refl

abbrev live_context : RiskContext
live_context = record context { live_approval_valid = true }

evaluate-IsReady_example :
    ((evaluate gate).allowed ≡ false) × (((evaluate gate).checklist_complete ≡ true) ↔ IsReady gate)
evaluate-IsReady_example = evaluate-IsReady gate

evaluate-check_live_gating_example : check_live_gating live_settings live_context healthy ≡ go tt
evaluate-check_live_gating_example =
    evaluate-check_live_gating gate live_context healthy gate_complete refl refl refl refl refl refl
