-- ===== src/Orchestrator/Marks.antt =====
-- The steps of the orchestrator after it has accepted a candle: its memory of candles, and the gateway.
use live_auto_trading.Prelude.{ℕ, ◌+◌, String, Bool, true, false, Option, none, some, List, [], ◌∷◌}
use live_auto_trading.Decimal.{Decimal}
use live_auto_trading.Dict.{Dict}
use live_auto_trading.Domain.Enums.{OrderSide}
use live_auto_trading.Domain.Market.{Candle}
use live_auto_trading.Domain.Trading.{Fill, OrderRequest, Position, TradeSignal}
use live_auto_trading.Gateway.Submit.{OrderGateway, Outcome, submitted, blocked, failed}
use live_auto_trading.Paper.Resting as paper
use live_auto_trading.Risk.State.{RiskContext}
use live_auto_trading.Orchestrator.State.{Orchestrator, Session, Surroundings, Entry}
use live_auto_trading.Orchestrator.Step.{
  on_paper, settled, written, record_if, record_entry, modify,
}
use live_auto_trading.Orchestrator.Portfolio.{
  portfolio_state, risk_context, deepened, update_drawdown,
}
use live_auto_trading.Orchestrator.Acting.{
  Plan, journal_fill, journal_if_new, journal_new_fills, record_trade, after_execution,
  after_submit, submit, place, carry_out, act_on_signal,
}
use live_auto_trading.Orchestrator.Process.{evaluate, hold_bar, on_signal, follow}
use live_auto_trading.Orchestrator.Keeps.{Keeps, Keeps-pure, Keeps-bind, keeps_rules}

-- the memory of candles
pub record Marks : Type 0 where
  pub seen_candles : List (String × ℕ)
  pub last_open_time : Dict String ℕ
  pub window : Dict String (List Candle)

abbrev pub marks_of : Orchestrator → Marks
marks_of o = record {
  seen_candles = o.seen_candles;
  last_open_time = o.last_open_time;
  window = o.window;
}

-- `P` is about the memory of candles and the gateway alone.
module _ (P : Marks → OrderGateway → Type 0) where
  abbrev pub Marked : Orchestrator → Type 0
  Marked o = P (marks_of o) o.gateway

  written-Keeps :
      (session : Session) (entry : Entry) → Keeps Marked (modify (written session entry))
  unfolding written
  written-Keeps session entry = record { at = λ o h. either (session.writable o.writes) o h }
    where
      either :
          (b : Bool) (o : Orchestrator)
          → Marked o
          → Marked (settled b entry (record o { writes = o.writes + 1 }))
      either true o h = h
      either false o h = h

  pub record_entry-Keeps :
      (session : Session) (entry : Entry) → Keeps Marked (record_entry session entry)
  record_entry-Keeps session entry = attach session.journal
    where
      attach : (b : Bool) → Keeps Marked (record_if b session entry)
      attach true = written-Keeps session entry
      attach false = Keeps-pure tt

  portfolio_state-Keeps : Keeps Marked portfolio_state
  unfolding portfolio_state
  portfolio_state-Keeps = search keeps_rules

  risk_context-Keeps :
      (session : Session) (at : Surroundings) (mark : Decimal)
      → Keeps Marked (risk_context session at mark)
  unfolding risk_context
  risk_context-Keeps session at mark = search (keeps_rules, portfolio_state-Keeps)

  deepened-Keeps : (peak now : Decimal) (c : Bool) → Keeps Marked (deepened peak c now)
  deepened-Keeps peak now true = search keeps_rules
  deepened-Keeps peak now false = search keeps_rules

  update_drawdown-Keeps : Keeps Marked update_drawdown
  unfolding update_drawdown
  update_drawdown-Keeps = search (keeps_rules, portfolio_state-Keeps, deepened-Keeps)

  journal_fill-Keeps : (session : Session) (fill : Fill) → Keeps Marked (journal_fill session fill)
  unfolding journal_fill
  journal_fill-Keeps session fill = search (keeps_rules, record_entry-Keeps)

  journal_if_new-Keeps :
      (session : Session) (order_id : ℕ) (fill : Fill)
      → Keeps Marked (journal_if_new session order_id fill)
  unfolding journal_if_new
  journal_if_new-Keeps session order_id fill = search (keeps_rules, journal_fill-Keeps)

  journal_new_fills-Keeps :
      (session : Session) (order_id : ℕ) (fills : List Fill)
      → Keeps Marked (journal_new_fills session order_id fills)
  unfolding journal_new_fills
  journal_new_fills-Keeps session order_id [] = Keeps-pure tt
  journal_new_fills-Keeps session order_id (fill ∷ fills) =
      Keeps-bind (journal_if_new session order_id fill) _
        (journal_if_new-Keeps session order_id fill)
        (λ u. journal_new_fills-Keeps session order_id fills)

  record_trade-Keeps : (at : Surroundings) → Keeps Marked (record_trade at)
  unfolding record_trade
  record_trade-Keeps at = search (keeps_rules, portfolio_state-Keeps)

  after_execution-Keeps :
      (at : Surroundings) (symbol : String) (side : OrderSide) (before : Decimal)
      → Keeps Marked (after_execution at symbol side before)
  unfolding after_execution
  after_execution-Keeps at symbol OrderSide.buy before = search keeps_rules
  after_execution-Keeps at symbol OrderSide.sell before = search (keeps_rules, record_trade-Keeps)

  after_submit-Keeps :
      (session : Session) (at : Surroundings) (request : OrderRequest) (before : Decimal)
      (outcome : Outcome)
      → Keeps Marked (after_submit session at request before outcome)
  unfolding after_submit
  after_submit-Keeps session at request before (submitted order) =
      search (keeps_rules, record_entry-Keeps, journal_new_fills-Keeps, after_execution-Keeps) depth
        12
  after_submit-Keeps session at request before (blocked e) =
      search (keeps_rules, record_entry-Keeps)
  after_submit-Keeps session at request before failed = search keeps_rules

  evaluate-Keeps : (session : Session) (symbol : String) → Keeps Marked (evaluate session symbol)
  unfolding evaluate
  evaluate-Keeps session symbol = search (keeps_rules, portfolio_state-Keeps) depth 12

  hold_bar-Keeps : (symbol : String) (held : Option Position) → Keeps Marked (hold_bar symbol held)
  unfolding hold_bar
  hold_bar-Keeps symbol none = search keeps_rules
  hold_bar-Keeps symbol (some p) = search keeps_rules

  -- The calls keep `P`.
  module _ (session : Session) (at : Surroundings) (candle : Candle)
      (sent : (request : OrderRequest) (context : RiskContext)
        → Keeps Marked (submit session at request context))
      (marked : Keeps Marked (on_paper (paper.set_mark_price candle.symbol candle.close))) where
    place-Keeps :
        (signal : TradeSignal) (p : Plan) → Keeps Marked (place session at candle signal p)
    unfolding place
    place-Keeps signal p = search (keeps_rules, risk_context-Keeps, sent, after_submit-Keeps)

    carry_out-Keeps :
        (signal : TradeSignal) (p : Option Plan)
        → Keeps Marked (carry_out session at candle signal p)
    unfolding carry_out
    carry_out-Keeps signal none = search keeps_rules
    carry_out-Keeps signal (some p) = search (keeps_rules, place-Keeps)

    act_on_signal-Keeps :
        (signal : TradeSignal) → Keeps Marked (act_on_signal session at candle signal)
    unfolding act_on_signal
    act_on_signal-Keeps signal = search (keeps_rules, carry_out-Keeps)

    on_signal-Keeps :
        (signal : Option TradeSignal) → Keeps Marked (on_signal session at candle signal)
    unfolding on_signal
    on_signal-Keeps none = search (keeps_rules, record_entry-Keeps)
    on_signal-Keeps (some signal) =
        search (keeps_rules, record_entry-Keeps, act_on_signal-Keeps, update_drawdown-Keeps) depth
          12

    pub follow-Keeps : Keeps Marked (follow session at candle)
    unfolding follow
    follow-Keeps =
        Keeps-bind (on_paper (paper.set_mark_price candle.symbol candle.close)) _ marked
          (λ u. search (keeps_rules, hold_bar-Keeps, evaluate-Keeps, on_signal-Keeps) depth 12)
