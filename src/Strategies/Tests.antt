-- ===== src/Strategies/Tests.antt =====
-- Runs of the strategies, and their theorems at concrete inputs.
use live_auto_trading.Prelude.{string_key, ◌≡◌, refl, false, true, Option, none, some, [], ◌∷◌}
use live_auto_trading.Decimal
use live_auto_trading.Decimal.{Decimal, zero}
use live_auto_trading.Dict.{lookup, insert}
use live_auto_trading.Domain.Enums.{SignalDirection}
use live_auto_trading.Domain.Market.{Candle}
use live_auto_trading.Domain.Trading.{TradeSignal}
use live_auto_trading.Indicators.Series.{of_ℕ, average, scan, seeded}
use live_auto_trading.Indicators.Volatility.{true_range, true_ranges, atr_start, atr_step, atr}
use live_auto_trading.Indicators.Momentum.{wilder}
use live_auto_trading.Candles.Tests.{candle}
use live_auto_trading.Strategies.Base.{
  Strategy, StrategyContext, has_long, symbol_of, signal, fingerprint,
}
use live_auto_trading.Strategies.Breakout.{on_channel, atr_stop, evaluate_breakout, breakout}
use live_auto_trading.Strategies.Fits.{Fits}
use live_auto_trading.Strategies.Registry.{
  Registry, register, get_strategy, register_missing, Defaults, defaults,
  bootstrap_default_strategies,
}
use live_auto_trading.Strategies.Registered.{get_strategy-IsLongOnly, bootstrap_keeps}

abbrev pub d : Defaults
d = record {
  crossover = record {
    fast_ema = 1;
    slow_ema = 2;
    warmup_margin = 0;
    use_rsi_filter = false;
    rsi_period = 1;
    rsi_buy_min = zero;
    use_atr_stop = true;
    atr_period = 1;
    atr_stop_mult = of_ℕ 2;
    reward_risk = of_ℕ 2;
  };
  setup = record {
    fast_ema = 1;
    slow_ema = 2;
    rsi_period = 1;
    rsi_buy_min = of_ℕ 50;
    warmup_margin = 0;
    stop_loss_percent = of_ℕ 2;
    take_profit_percent = of_ℕ 4;
  };
  trend = record {
    fast_ema = 1;
    slow_ema = 2;
    rsi_period = 1;
    rsi_min = of_ℕ 40;
    rsi_max = of_ℕ 70;
    atr_period = 1;
    min_atr = zero;
    volume_ma_period = 1;
    stop_atr_multiple = of_ℕ 2;
    target_atr_multiple = of_ℕ 3;
    max_holding_bars = 48;
  };
  reversion = record {
    rsi_period = 1;
    oversold = of_ℕ 30;
    overbought = of_ℕ 70;
    warmup_margin = 1;
  };
  channel = record { lookback = 1; atr_period = 1; atr_stop_mult = of_ℕ 2; warmup_margin = 0 };
  text = λ id last n. last.symbol;
}

abbrev pub rising : Candle
rising = record (candle 60_000_000) { high = of_ℕ 4; close = of_ℕ 3 }

abbrev flat : StrategyContext
flat = record { candles = candle 0 ∷ rising ∷ []; position = none; bars_held = 0 }

abbrev bought : Option TradeSignal
bought = (breakout d.channel (d.text "breakout")).evaluate flat

abbrev the : TradeSignal → Option TradeSignal → TradeSignal
the default none = default
the default (some t) = t

abbrev pub nothing : TradeSignal
nothing = record {
  strategy_name = "";
  symbol = "";
  direction = SignalDirection.hold;
  confidence = zero;
  suggested_entry = none;
  suggested_stop = none;
  suggested_target = none;
  input_data_fingerprint = "";
}

-- A close above the channel buys.
bought_run : bought ≡ some (the nothing bought)
unfolding evaluate_breakout on_channel atr_stop signal fingerprint symbol_of has_long atr seeded
    scan average true_range true_ranges atr_start atr_step wilder Decimal.lt Decimal.max Decimal.min
    Decimal.sub Decimal.mul Decimal.add Decimal.div Decimal.abs Decimal.sum_from
bought_run = refl

bought_direction : (the nothing bought).direction ≡ SignalDirection.buy
unfolding evaluate_breakout on_channel atr_stop signal fingerprint symbol_of has_long atr seeded
    scan average true_range true_ranges atr_start atr_step wilder Decimal.lt Decimal.max Decimal.min
    Decimal.sub Decimal.mul Decimal.add Decimal.div Decimal.abs Decimal.sum_from
bought_direction = refl

breakout_found :
    get_strategy "breakout" (bootstrap_default_strategies d [])
    ≡ some (breakout d.channel (d.text "breakout"))
unfolding register_missing register defaults lookup insert
breakout_found = refl

get_strategy-IsLongOnly_example : Fits "Donchian Breakout" "BTC/USDT" false (the nothing bought)
unfolding symbol_of has_long
get_strategy-IsLongOnly_example =
    (get_strategy-IsLongOnly d [] "breakout" tt breakout_found flat).holds (the nothing bought)
      bought_run

-- one that stands under the id of a default
abbrev mine : Strategy
mine = record (breakout d.channel (d.text "breakout")) { name = "mine" }

abbrev own : Registry
own = register mine []

mine_found : get_strategy "breakout" own ≡ some mine
unfolding register lookup insert
mine_found = refl

bootstrap_keeps_example :
    (get_strategy "breakout" (bootstrap_default_strategies d own) ≡ some mine)
    × (bootstrap_default_strategies d (bootstrap_default_strategies d own)
        ≡ bootstrap_default_strategies d own)
bootstrap_keeps_example = bootstrap_keeps d own "breakout" mine_found
