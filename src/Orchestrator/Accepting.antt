-- ===== src/Orchestrator/Accepting.antt =====
-- The acceptance of a candle by the orchestrator.
use live_auto_trading.Prelude.{
  ℕ, string_key, ◌+◌, ◌≡◌, refl, Bool, true, false, not, Option, none, some, if◌then◌else◌,
}
use live_auto_trading.Dict.{lookup}
use live_auto_trading.Domain.Market.{Candle}
use live_auto_trading.Gateway.Submit.{OrderGateway}
use live_auto_trading.Orchestrator.State.{
  Orchestrator, Session, Surroundings, RejectReason, incomplete_candle, duplicate_candle,
  out_of_order_candle,
}
use live_auto_trading.Orchestrator.Process.{
  is_seen, not_after, reject_reason, accepted, process_candle, process_judged,
}
use live_auto_trading.Domain.Trading.{OrderRequest}
use live_auto_trading.Risk.State.{RiskContext}
use live_auto_trading.Paper.Resting as paper
use live_auto_trading.Orchestrator.Keeps.{Keeps, keeps_rules}
use live_auto_trading.Orchestrator.Acting.{submit}
use live_auto_trading.Orchestrator.Step.{on_paper}
use live_auto_trading.Orchestrator.Marks.{Marks, Marked, record_entry-Keeps, follow-Keeps}

-- What a candle meets that is not rejected: it is closed, new, and after the last one.
pub record IsNew (candle : Candle) (o : Orchestrator) : Type 0 where
  pub closed : candle.is_closed ≡ true
  pub unseen : is_seen candle.symbol candle.open_time o.seen_candles ≡ false
  pub later : not_after candle.open_time (lookup candle.symbol o.last_open_time) ≡ false

pub reject_reason-IsNew :
    (session : Session) (now : ℕ) (candle : Candle) (o : Orchestrator)
    → reject_reason session now candle o ≡ none
    → IsNew candle o
unfolding reject_reason
reject_reason-IsNew session now candle o h =
    let (a, b, c) = cleared _ _ _ _ h in record { closed = a; unseen = b; later = c }
  where
    cleared :
        (a b c : Bool) (u : Option RejectReason)
        → (if not a
            then some incomplete_candle
            else if b
            then some duplicate_candle
            else if c
            then some out_of_order_candle
            else u)
          ≡ none
        → (a ≡ true) × (b ≡ false) × (c ≡ false)
    cleared false b c u h = cc
    cleared true true c u h = cc
    cleared true false true u h = cc
    cleared true false false u h = (refl, refl, refl)

-- What the processing of a candle keeps, where the calls on the gateway and the paper engine keep it,
-- and so does the acceptance of the candle.
module _ (P : Marks → OrderGateway → Type 0) (session : Session) (at : Surroundings)
    (candle : Candle)
    (sent : (request : OrderRequest) (context : RiskContext)
      → Keeps (Marked P) (submit session at request context))
    (marked : Keeps (Marked P) (on_paper (paper.set_mark_price candle.symbol candle.close)))
    (admitted : (o : Orchestrator)
      → IsNew candle o
      → Marked P o
      → Marked P (accepted candle o)) where
  process_judged-Keeps :
      (r : Option RejectReason) (o : Orchestrator)
      → (r ≡ none → IsNew candle o)
      → Marked P o
      → Marked P (process_judged session at candle r o).1
  unfolding process_judged
  process_judged-Keeps (some reason) o new h = (refused reason).at o h
    where
      refused :
          (reason : RejectReason)
          → Keeps (Marked P) (process_judged session at candle (some reason))
      refused reason = search (keeps_rules, record_entry-Keeps P)
  process_judged-Keeps none o new h =
      (follow-Keeps P session at candle sent marked).at (accepted candle o)
        (admitted o (new refl) h)

  pub process_candle-Keeps : Keeps (Marked P) (process_candle session at candle)
  unfolding process_candle
  process_candle-Keeps = record {
    at = λ o h.
        process_judged-Keeps (reject_reason session at.judged_at candle (counted o)) (counted o)
          (reject_reason-IsNew session at.judged_at candle (counted o)) h;
  }
    where
      counted : Orchestrator → Orchestrator
      counted o = record o {
        stats = record o.stats { candles_received = o.stats.candles_received + 1 };
      }
