-- ===== src/Orchestrator/Sound.antt =====
-- The ledger of the paper engine under a session.
use live_auto_trading.Prelude.{ℕ, refl, false, List, [], ◌∷◌}
use live_auto_trading.Dict.{AllValues, Dict}
use live_auto_trading.Domain.Enums.{OrderSide}
use live_auto_trading.Domain.Market.{Candle}
use live_auto_trading.Domain.Trading.{Order, OrderRequest}
use live_auto_trading.Paper.Keeps.{IsSound}
use live_auto_trading.Paper.FillingSound.{Covers}
use live_auto_trading.Paper.Resting as paper
use live_auto_trading.Paper.RestingSound.{set_mark_price-IsSound}
use live_auto_trading.Risk.State.{RiskContext}
use live_auto_trading.Gateway.Submit.{OrderGateway}
use live_auto_trading.Gateway.Safety.{gateway-IsSound}
use live_auto_trading.Orchestrator.State.{Orchestrator, Session, Surroundings}
use live_auto_trading.Orchestrator.Step.{on_paper}
use live_auto_trading.Orchestrator.Acting.{submit}
use live_auto_trading.Orchestrator.Process.{accepted, process_candle, feed}
use live_auto_trading.Orchestrator.Keeps.{Keeps}
use live_auto_trading.Orchestrator.Marks.{Marks, Marked}
use live_auto_trading.Orchestrator.Accepting.{process_candle-Keeps}

covered : (side : OrderSide) → Covers false side
covered OrderSide.buy = tt
covered OrderSide.sell = refl

all_covered : (orders : Dict ℕ Order) → AllValues (λ o. Covers false o.side) orders
all_covered [] = tt
all_covered ((k, o) ∷ orders) = (covered o.side, all_covered orders)

abbrev IsBacked : Marks → OrderGateway → Type 0
IsBacked m g = IsSound false g.backend

submit-IsBacked :
    (session : Session) (at : Surroundings) (request : OrderRequest) (context : RiskContext)
    → Keeps (Marked IsBacked) (submit session at request context)
unfolding submit
submit-IsBacked session at request context = record {
  at = λ o h.
      gateway-IsSound false session.settings request context at.checked_at at.submitted_at o.gateway
        (covered request.side) h;
}

set_mark_price-IsBacked :
    (candle : Candle)
    → Keeps (Marked IsBacked) (on_paper (paper.set_mark_price candle.symbol candle.close))
unfolding on_paper
set_mark_price-IsBacked candle = record {
  at = λ o h.
      set_mark_price-IsSound false candle.symbol candle.close o.gateway.backend
        (all_covered o.gateway.backend.orders) h;
}

-- Whatever the strategy signals and whatever the candles and the clock are, a session keeps the ledger of
-- its paper engine sound: reserved cash does not go negative and every position stays long, also where
-- the processing of a candle raises.
pub feed-IsSound :
    (session : Session) (candles : List (Surroundings × Candle)) (o : Orchestrator)
    → IsSound false o.gateway.backend
    → IsSound false (feed session candles o).gateway.backend
unfolding feed accepted
feed-IsSound session [] o h = h
feed-IsSound session ((at, candle) ∷ candles) o h =
    feed-IsSound session candles (process_candle session at candle o).1 (
      (process_candle-Keeps IsBacked session at candle (submit-IsBacked session at)
          (set_mark_price-IsBacked candle) (λ o new k. k)).at
        o h)
