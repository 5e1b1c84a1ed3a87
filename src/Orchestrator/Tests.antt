-- ===== src/Orchestrator/Tests.antt =====
-- Runs of a session, and its theorems at concrete inputs.
use live_auto_trading.Prelude.{string_key, ◌≡◌, refl, false, true, none, List, [], ◌∷◌, ℕ}
use live_auto_trading.Integer.{pos}
use live_auto_trading.Dict.{lookup}
use live_auto_trading.Domain.Market.{Candle}
use live_auto_trading.Paper.Keeps.{IsSound}
use live_auto_trading.Risk.Tests.{settings}
use live_auto_trading.Gateway.Tests.{gateway}
use live_auto_trading.Candles.Tests.{candle}
use live_auto_trading.Strategies.Breakout.{breakout}
use live_auto_trading.Strategies.Tests.{d, rising}
use live_auto_trading.Orchestrator.State.{Orchestrator, Session, Surroundings, new_orchestrator}
use live_auto_trading.Orchestrator.Process.{feed, or_empty}
use live_auto_trading.Orchestrator.Windows.{IsRising, feed_windows}
use live_auto_trading.Orchestrator.Sound.{feed-IsSound}
use live_auto_trading.Orchestrator.Replay.{trading_of, here, there, feed_replay}

abbrev session : Session
session = record {
  strategy = breakout d.channel (d.text "breakout");
  settings = settings;
  entry_size_fraction = record { coeff = pos 1; places = 1 };
  max_candle_age_seconds = none;
  kill_switch_enabled = none;
  client_order_id = λ c direction. c.symbol;
  journal = true;
  writable = λ n. true;
}

abbrev surroundings : ℕ → Surroundings
surroundings n = record {
  judged_at = n;
  market_data_at = n;
  checked_at = n;
  submitted_at = n;
  trading_paused = false;
  recorder_returns = true;
}

abbrev candles : List (Surroundings × Candle)
candles = (surroundings 60_000_000, candle 0) ∷ (surroundings 120_000_000, rising) ∷ []

-- The same candles, in another order and an hour later.
abbrev again : List (Surroundings × Candle)
again = (surroundings 3_720_000_000, rising) ∷ (surroundings 3_720_000_001, candle 0) ∷ []

abbrev fresh : Orchestrator
fresh = new_orchestrator gateway

feed_windows_example :
    let o = feed session candles fresh in
    IsRising "BTC/USDT" (or_empty (lookup "BTC/USDT" o.window)) (lookup "BTC/USDT" o.last_open_time)
feed_windows_example = feed_windows session gateway candles "BTC/USDT"

feed-IsSound_example : IsSound false (feed session candles fresh).gateway.backend
feed-IsSound_example =
    feed-IsSound session candles fresh (record { reserved = refl; held = tt; cash = tt })

feed_replay_example :
    trading_of (feed session again (feed session candles fresh))
    ≡ trading_of (feed session candles fresh)
feed_replay_example =
    feed_replay session candles again fresh refl (there (here refl), (here refl, tt))
