-- ===== src/Backtest/Tests.antt =====
-- Runs of the backtest, and its theorems at concrete inputs.
use live_auto_trading.Prelude.{map, ◌≡◌, refl, none, some, Option, List, [], ◌∷◌, ◌++◌, length}
use live_auto_trading.Integer.{pos}
use live_auto_trading.Decimal
use live_auto_trading.Decimal.{Decimal, zero}
use live_auto_trading.Dict.{All}
use live_auto_trading.Indicators.Series.{of_ℕ}
use live_auto_trading.Domain.Enums.{SignalDirection}
use live_auto_trading.Domain.Market.{Candle}
use live_auto_trading.Candles.Tests.{candle}
use live_auto_trading.Strategies.Base.{Strategy}
use live_auto_trading.Strategies.Tests.{nothing, rising}
use live_auto_trading.Backtest.Engine.{
  BacktestConfig, Run, bars, start, run, step, stop_or_take, mark_held, note_equity, on_signal,
  size_position, buy, apply_costs, check_stop_take, close_at, force_close,
}
use live_auto_trading.Backtest.Causal.{Extends, bars_causal}
use live_auto_trading.Backtest.Metrics.{is_win, streak_from, max_streak}
use live_auto_trading.Backtest.Streaks.{longest, max_streak-longest}
use live_auto_trading.Backtest.Trades.{IsClosed, settle, run-IsBooked}

abbrev config : BacktestConfig
config = record {
  initial_cash = of_ℕ 10_000;
  fee_rate = record { coeff = pos 1; places = 3 };
  slippage_rate = zero;
  spread_rate = zero;
  position_size_fraction = record { coeff = pos 1; places = 1 };
}

-- buys whenever it is asked
abbrev eager : Strategy
eager = record {
  strategy_id = "eager";
  name = "eager";
  evaluate = λ context. some (record nothing { direction = SignalDirection.buy });
}

abbrev early : List Candle
early = candle 0 ∷ []

abbrev late : List Candle
late = rising ∷ []

abbrev the : Run → Option Run → Run
the default none = default
the default (some r) = r

abbrev long_run : Run
long_run = the (start config) (bars config eager [] (early ++ late) (start config))

long_returns : bars config eager [] (early ++ late) (start config) ≡ some long_run
unfolding bars step stop_or_take mark_held note_equity on_signal size_position buy apply_costs
    check_stop_take close_at Decimal.add Decimal.sub Decimal.mul Decimal.div Decimal.lt Decimal.le
    Decimal.max Decimal.quantize
long_returns = refl

abbrev final : Run
final = the (start config) (run config eager (early ++ late))

run_returns : run config eager (early ++ late) ≡ some final
unfolding bars step stop_or_take mark_held note_equity on_signal size_position buy apply_costs
    check_stop_take close_at Decimal.add Decimal.sub Decimal.mul Decimal.div Decimal.lt Decimal.le
    Decimal.max Decimal.quantize run force_close
run_returns = refl

-- One trade, which the end of the data closes.
one_trade : length final.trades ≡ 1
unfolding bars step stop_or_take mark_held note_equity on_signal size_position buy apply_costs
    check_stop_take close_at Decimal.add Decimal.sub Decimal.mul Decimal.div Decimal.lt Decimal.le
    Decimal.max Decimal.quantize run force_close
one_trade = refl

bars_causal_example :
    (r' : Run) × (bars config eager [] early (start config) ≡ some r') × Extends r' long_run
bars_causal_example = bars_causal config eager early late long_returns

run-IsBooked_example :
    All (IsClosed config) final.trades
    × (final.cash ≡ settle config final.trades config.initial_cash)
run-IsBooked_example = (run-IsBooked config eager (early ++ late)).holds final run_returns

abbrev pnls : List Decimal
pnls = map of_ℕ (1 ∷ 2 ∷ 0 ∷ 3 ∷ [])

streak_run : max_streak is_win pnls ≡ 2
unfolding streak_from Decimal.lt
streak_run = refl

max_streak-longest_example : max_streak is_win pnls ≡ longest is_win pnls
max_streak-longest_example = max_streak-longest is_win pnls
