-- ===== src/Orchestrator/Process.antt =====
-- `_reject_reason`, `prime_candles`, `_evaluate` and `process_candle`.
use live_auto_trading.Prelude.{
  ℕ, nat_key, string_key, ◌==◌, ◌+◌, ◌-◌, ◌*◌, String, Bool, true, false, not, ◌&&◌, ◌||◌, Option,
  none, some, List, [], ◌∷◌, ◌++◌, if◌then◌else◌, nat_beq, leb, ltb,
}
use live_auto_trading.Dict.{lookup, insert}
use live_auto_trading.Domain.Enums.{SignalDirection, OrderStatus}
use live_auto_trading.Domain.Market.{Candle}
use live_auto_trading.Domain.Trading.{Position, TradeSignal}
use live_auto_trading.Paper.Resting as paper
use live_auto_trading.Orchestrator.State.{
  Orchestrator, Session, Surroundings, RejectReason, incomplete_candle, duplicate_candle,
  out_of_order_candle, stale_candle, strategy_error, OrderId, by_uuid, by_key, CandleOutcome,
  candle_rejected, strategy_raised, signal_entry,
}
use live_auto_trading.Orchestrator.Step.{
  Step, pure, gets, modify, or_raise, attempt, count, count_error, on_paper, record_entry, ◌>>=◌,
  ◌>>◌,
}
use live_auto_trading.Orchestrator.Portfolio.{portfolio_state, update_drawdown}
use live_auto_trading.Orchestrator.Acting.{Acted, placed, refused, act_on_signal}

abbrev pub is_seen : String → ℕ → List (String × ℕ) → Bool
is_seen symbol time [] = false
is_seen symbol time (key ∷ keys) =
    (key.0 == symbol && nat_beq key.1 time) || is_seen symbol time keys

-- the time is not after the last one
abbrev pub not_after : ℕ → Option ℕ → Bool
not_after time none = false
not_after time (some last) = leb time last

-- Ages are in seconds, instants in microseconds.
abbrev pub too_old : ℕ → ℕ → Option ℕ → Bool
too_old now time none = false
too_old now time (some seconds) = ltb (seconds * 1_000_000) (now - time)

unfoldable pub reject_reason : Session → ℕ → Candle → Orchestrator → Option RejectReason
reject_reason session now candle o =
    if not candle.is_closed
    then some incomplete_candle
    else if is_seen candle.symbol candle.open_time o.seen_candles
    then some duplicate_candle
    else if not_after candle.open_time (lookup candle.symbol o.last_open_time)
    then some out_of_order_candle
    else if too_old now candle.open_time session.max_candle_age_seconds
    then some stale_candle
    else none

abbrev pub or_empty : Option (List Candle) → List Candle
or_empty none = []
or_empty (some cs) = cs

-- An accepted candle enters the memory and the window of its symbol.
unfoldable pub accepted : Candle → Orchestrator → Orchestrator
accepted candle o = record o {
  seen_candles = (candle.symbol, candle.open_time) ∷ o.seen_candles;
  last_open_time = insert candle.symbol candle.open_time o.last_open_time;
  window = insert candle.symbol (or_empty (lookup candle.symbol o.window) ++ candle ∷ []) o.window;
}

-- the candle as it is primed, if it is not rejected
unfoldable pub prime : Candle → Option RejectReason → Step ℕ
prime candle (some reason) = pure 0
prime candle none = do
  modify (accepted candle)
  on_paper (paper.set_mark_price candle.symbol candle.close)
  pure 1

-- `times` are the readings of the clock, one per candle.
unfoldable pub prime_candles : Session → (ℕ → ℕ) → List Candle → Step ℕ
prime_candles session times [] = pure 0
prime_candles session times (candle ∷ candles) = do
  reason ← gets (reject_reason session (times 0) candle)
  primed ← prime candle reason
  later ← prime_candles session (λ n. times (n + 1)) candles
  pure (primed + later)

abbrev pub or_zero : Option ℕ → ℕ
or_zero none = 0
or_zero (some n) = n

unfoldable pub evaluate : Session → String → Step TradeSignal
evaluate session symbol = do
  _ ← portfolio_state
  window ← gets (λ o. or_empty (lookup symbol o.window))
  position ← gets (λ o. lookup symbol o.gateway.backend.positions)
  held ← gets (λ o. or_zero (lookup symbol o.bars_held))
  or_raise (
      session.strategy.evaluate
        (record { candles = window; position = position; bars_held = held }))

-- Another bar of an open position.
unfoldable pub hold_bar : String → Option Position → Step (Unit {0})
hold_bar symbol none = pure tt
hold_bar symbol (some p) = modify (λ o. record o {
  bars_held = insert symbol (or_zero (lookup symbol o.bars_held) + 1) o.bars_held;
})

abbrev pub is_hold : SignalDirection → Bool
is_hold SignalDirection.hold = true
is_hold _ = false

abbrev pub id_of : Option Acted → Option OrderId
id_of none = none
id_of (some (placed order)) = some (by_uuid order.id)
id_of (some (refused order)) = some (by_key order.idempotency_key)

abbrev pub not_accepted : RejectReason → CandleOutcome
not_accepted reason = record {
  accepted = false;
  reject_reason = some reason;
  signal_direction = none;
  order_id = none;
  order_status = none;
  risk_decision = none;
  risk_reason_code = none;
}

abbrev pub failed_strategy : CandleOutcome
failed_strategy = record (not_accepted strategy_error) { accepted = true }

-- a decision without an order
abbrev pub decided : SignalDirection → CandleOutcome
decided direction = record failed_strategy {
  reject_reason = none;
  signal_direction = some direction;
}

unfoldable pub outcome_of : SignalDirection → Option Acted → CandleOutcome
outcome_of direction none = decided direction
outcome_of direction (some (placed order)) = record (decided direction) {
  order_id = some (by_uuid order.id);
  order_status = some order.status;
  risk_decision = order.risk_decision;
  risk_reason_code = order.risk_reason_code;
}
outcome_of direction (some (refused order)) = record (decided direction) {
  order_id = some (by_key order.idempotency_key);
  order_status = some OrderStatus.rejected;
  risk_decision = some order.risk_decision;
  risk_reason_code = some order.risk_reason_code;
}

unfoldable pub on_signal : Session → Surroundings → Candle → Option TradeSignal → Step CandleOutcome
on_signal session at candle none = do
  count_error
  record_entry session strategy_raised
  pure failed_strategy
on_signal session at candle (some signal) = do
  count (λ s. record s { signals_generated = s.signals_generated + 1 })
  (if is_hold signal.direction
      then count (λ s. record s { hold_decisions = s.hold_decisions + 1 })
      else pure tt)
  acted ← (if is_hold signal.direction then pure none else act_on_signal session at candle signal)
  record_entry session (signal_entry signal (id_of acted))
  update_drawdown
  pure (outcome_of signal.direction acted)

-- what follows once the candle is accepted
unfoldable pub follow : Session → Surroundings → Candle → Step CandleOutcome
follow session at candle = do
  on_paper (paper.set_mark_price candle.symbol candle.close)
  position ← gets (λ o. lookup candle.symbol o.gateway.backend.positions)
  hold_bar candle.symbol position
  signal ← attempt (evaluate session candle.symbol)
  on_signal session at candle signal

unfoldable pub process_judged :
    Session → Surroundings → Candle → Option RejectReason → Step CandleOutcome
process_judged session at candle (some reason) = do
  count (λ s. record s { candles_rejected = s.candles_rejected + 1 })
  record_entry session (candle_rejected reason)
  pure (not_accepted reason)
process_judged session at candle none = do modify (accepted candle); follow session at candle

unfoldable pub process_candle : Session → Surroundings → Candle → Step CandleOutcome
process_candle session at candle = do
  count (λ s. record s { candles_received = s.candles_received + 1 })
  reason ← gets (reject_reason session at.judged_at candle)
  process_judged session at candle reason

-- The candles of a feed, each with what it meets; an exception ends the processing of its candle only.
unfoldable pub feed : Session → List (Surroundings × Candle) → Orchestrator → Orchestrator
feed session [] o = o
feed session ((at, candle) ∷ candles) o =
    feed session candles (process_candle session at candle o).1
