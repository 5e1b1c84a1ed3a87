-- ===== src/LiveGate/Evaluate.antt =====
-- `LiveTradingGate.evaluate`. The `details` of a result, which repeat its checks, are left out.
use live_auto_trading.Prelude.{
  ℕ, String, string_key, ◌==◌, Bool, true, false, not, ◌&&◌, ◌||◌, List, [], ◌∷◌, leb,
  if◌then◌else◌,
}
use Prim.Native.Char.{Char, code}
use Prim.Native.String.{[] as empty, ◌∷◌ as ◌∷ₛ◌}
use live_auto_trading.Domain.Enums.{RiskReasonCode}
use live_auto_trading.Risk.State.{Settings}

-- LIVE_CONDITIONS
pub data LiveCondition : Type 0 where
  trading_mode_live live_trading_enabled live_startup_ack kill_switch_off valid_credentials :
      LiveCondition
  risk_engine_healthy market_data_healthy database_healthy reconciliation_healthy : LiveCondition
  valid_live_approval_token : LiveCondition

pub record LiveGateResult : Type 0 where
  pub allowed : Bool
  pub failed_conditions : List LiveCondition
  pub reason_code : RiskReasonCode
  pub checklist_complete : Bool

pub record LiveReadinessState : Type 0 where
  pub risk_engine_healthy : Bool
  pub market_data_healthy : Bool
  pub database_healthy : Bool
  pub reconciliation_healthy : Bool
  pub live_approval_valid : Bool

-- The gate, with `settings.live_startup_ack` beside the other settings.
pub record LiveTradingGate : Type 0 where
  pub settings : Settings
  pub startup_ack : String
  pub state : LiveReadinessState

-- the characters that Python's `str.strip` takes off
abbrev pub is_space : ℕ → Bool
is_space c =
    (leb 9 c && leb c 13)
    || (leb 28 c && leb c 32)
    || leb 133 c && leb c 133
    || leb 160 c && leb c 160
    || leb 5760 c && leb c 5760
    || leb 8192 c && leb c 8202
    || leb 8232 c && leb c 8233
    || leb 8239 c && leb c 8239
    || leb 8287 c && leb c 8287
    || leb 12288 c && leb c 12288

unfoldable pub strip_start : String → String
strip_start empty = empty
strip_start (c ∷ₛ s) = if is_space (code c) then strip_start s else c ∷ₛ s

abbrev pub trimmed : Char → String → String
trimmed c empty = if is_space (code c) then empty else c ∷ₛ empty
trimmed c (d ∷ₛ s) = c ∷ₛ d ∷ₛ s

unfoldable pub strip_end : String → String
strip_end empty = empty
strip_end (c ∷ₛ s) = trimmed c (strip_end s)

-- LIVE_STARTUP_ACK_VALUE
abbrev pub live_startup_ack_value : String
live_startup_ack_value = "I_UNDERSTAND_LIVE_TRADING_RISKS"

abbrev pub acknowledged : String → Bool
acknowledged ack = strip_end (strip_start ack) == live_startup_ack_value

-- the conditions, in the order of the checks
unfoldable pub checks : LiveTradingGate → List (LiveCondition × Bool)
checks g =
    (trading_mode_live, g.settings.trading_mode == "live")
    ∷ (live_trading_enabled, g.settings.live_trading_enabled)
    ∷ (live_startup_ack, acknowledged g.startup_ack)
    ∷ (kill_switch_off, not g.settings.kill_switch_enabled)
    ∷ (valid_credentials, g.settings.has_exchange_credentials)
    ∷ (risk_engine_healthy, g.state.risk_engine_healthy)
    ∷ (market_data_healthy, g.state.market_data_healthy)
    ∷ (database_healthy, g.state.database_healthy)
    ∷ (reconciliation_healthy, g.state.reconciliation_healthy)
    ∷ (valid_live_approval_token, g.state.live_approval_valid)
    ∷ []

-- `[name for name, ok in checks.items() if not ok]`
unfoldable pub failed : List (LiveCondition × Bool) → List LiveCondition
failed [] = []
failed ((c, true) ∷ rest) = failed rest
failed ((c, false) ∷ rest) = c ∷ failed rest

unfoldable pub reason_for : LiveCondition → RiskReasonCode
reason_for trading_mode_live = RiskReasonCode.live_gating_incomplete
reason_for live_trading_enabled = RiskReasonCode.live_trading_disabled
reason_for live_startup_ack = RiskReasonCode.live_gating_incomplete
reason_for kill_switch_off = RiskReasonCode.kill_switch_active
reason_for valid_credentials = RiskReasonCode.invalid_credentials
reason_for risk_engine_healthy = RiskReasonCode.risk_engine_unhealthy
reason_for market_data_healthy = RiskReasonCode.market_data_unhealthy
reason_for database_healthy = RiskReasonCode.database_unhealthy
reason_for reconciliation_healthy = RiskReasonCode.reconciliation_unhealthy
reason_for valid_live_approval_token = RiskReasonCode.invalid_live_approval

unfoldable pub gate_result : List LiveCondition → LiveGateResult
gate_result [] = record {
  allowed = false;
  failed_conditions = [];
  reason_code = RiskReasonCode.live_trading_disabled;
  checklist_complete = true;
}
gate_result (c ∷ rest) = record {
  allowed = false;
  failed_conditions = c ∷ rest;
  reason_code = reason_for c;
  checklist_complete = false;
}

unfoldable pub evaluate : LiveTradingGate → LiveGateResult
evaluate g = gate_result (failed (checks g))
