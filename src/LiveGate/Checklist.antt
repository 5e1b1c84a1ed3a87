-- ===== src/LiveGate/Checklist.antt =====
-- The conditions of the checklist for live trading.
use live_auto_trading.Prelude.{
  string_key, ◌==◌, ◌≡◌, ◌↔◌, refl, sym, ap, Bool, true, false, not, List, [], ◌∷◌, arith,
}
use mathlib.Core.Bool.{false≢true}
use live_auto_trading.Dict.{All}
use live_auto_trading.Risk.Check.{go}
use live_auto_trading.Risk.State.{RiskEngineState, RiskContext}
use live_auto_trading.Risk.Gates.{check_live_gating}
use live_auto_trading.LiveGate.Evaluate.{
  LiveCondition, LiveTradingGate, acknowledged, checks, failed, gate_result, evaluate,
}

-- every condition of the checklist
pub record IsReady (g : LiveTradingGate) : Type 0 where
  pub mode : (g.settings.trading_mode == "live") ≡ true
  pub enabled : g.settings.live_trading_enabled ≡ true
  pub acknowledgement : acknowledged g.startup_ack ≡ true
  pub kill_switch : g.settings.kill_switch_enabled ≡ false
  pub credentials : g.settings.has_exchange_credentials ≡ true
  pub risk_engine : g.state.risk_engine_healthy ≡ true
  pub market_data : g.state.market_data_healthy ≡ true
  pub database : g.state.database_healthy ≡ true
  pub reconciliation : g.state.reconciliation_healthy ≡ true
  pub approval : g.state.live_approval_valid ≡ true

abbrev pub Holds : LiveCondition × Bool → Type 0
Holds (c, b) = b ≡ true

complete-All :
    (cs : List (LiveCondition × Bool))
    → (gate_result (failed cs)).checklist_complete ≡ true
    → All Holds cs
unfolding failed gate_result
complete-All [] h = tt
complete-All ((c, true) ∷ rest) h = (refl, complete-All rest h)
complete-All ((c, false) ∷ rest) h = absurd (false≢true h)

All-complete :
    (cs : List (LiveCondition × Bool))
    → All Holds cs
    → (gate_result (failed cs)).checklist_complete ≡ true
unfolding failed gate_result
All-complete [] h = refl
All-complete ((c, true) ∷ rest) h = All-complete rest h.1
All-complete ((c, false) ∷ rest) h = absurd (false≢true h.0)

off : (b : Bool) → not b ≡ true → b ≡ false
off true h = sym h
off false h = refl

never_allowed : (cs : List LiveCondition) → (gate_result cs).allowed ≡ false
unfolding gate_result
never_allowed [] = refl
never_allowed (c ∷ rest) = refl

-- The gate never allows live orders, and its checklist is complete exactly when the mode is live,
-- live trading is enabled and acknowledged, the kill switch is off, there are credentials, the four
-- health flags are up and the approval is valid.
pub evaluate-IsReady :
    (g : LiveTradingGate)
    → ((evaluate g).allowed ≡ false) × (((evaluate g).checklist_complete ≡ true) ↔ IsReady g)
unfolding evaluate checks
evaluate-IsReady g = (never_allowed (failed (checks g)), (ready, complete))
  where
    ready : (gate_result (failed (checks g))).checklist_complete ≡ true → IsReady g
    ready h =
        let all = complete-All (checks g) h in
        record {
          mode = all.0;
          enabled = all.1.0;
          acknowledgement = all.1.1.0;
          kill_switch = off g.settings.kill_switch_enabled (all.1.1.1.0);
          credentials = all.1.1.1.1.0;
          risk_engine = all.1.1.1.1.1.0;
          market_data = all.1.1.1.1.1.1.0;
          database = all.1.1.1.1.1.1.1.0;
          reconciliation = all.1.1.1.1.1.1.1.1.0;
          approval = all.1.1.1.1.1.1.1.1.1.0;
        }

    complete : IsReady g → (gate_result (failed (checks g))).checklist_complete ≡ true
    complete r = All-complete (checks g) (
      r.mode,
      (
        r.enabled,
        (
          r.acknowledgement,
          (
            ap not r.kill_switch,
            (
              r.credentials,
              (r.risk_engine, (r.market_data, (r.database, (r.reconciliation, (r.approval, tt))))),
            ),
          ),
        ),
      ),
    )

-- The risk engine's own live gating agrees: when the gate's checklist is complete, `_check_live_gating`
-- passes for every context without a kill switch whose approval is the gate's, in every state of the
-- risk engine with the health flags of the gate.
pub evaluate-check_live_gating :
    (g : LiveTradingGate) (context : RiskContext) (s : RiskEngineState)
    → (evaluate g).checklist_complete ≡ true
    → context.kill_switch_enabled ≡ false
    → context.live_approval_valid ≡ g.state.live_approval_valid
    → s.risk_engine_healthy ≡ g.state.risk_engine_healthy
    → s.market_data_healthy ≡ g.state.market_data_healthy
    → s.database_healthy ≡ g.state.database_healthy
    → s.reconciliation_healthy ≡ g.state.reconciliation_healthy
    → check_live_gating g.settings context s ≡ go tt
unfolding check_live_gating
evaluate-check_live_gating g context s h kill approval risk market database reconciled =
    let r = (evaluate-IsReady g).1.0 h in
    ground (
      arith, r.enabled, r.kill_switch, r.credentials, r.risk_engine, r.market_data, r.database,
      r.reconciliation, r.approval,
    )
