-- ===== src/Strategies/Breakout.antt =====
-- app/strategies/breakout.py. The parameters are those of a config over the defaults, already read
-- from their dict; the reason and the metadata of a signal are left out.
use live_auto_trading.Prelude.{
  ℕ, ◌+◌, ◌-◌, String, Bool, not, ◌&&◌, Option, none, some, List, map, ltb, length, take, drop,
  if◌then◌else◌,
}
use live_auto_trading.Prelude.Options.{◌>>=◌}
use live_auto_trading.Decimal as D
use live_auto_trading.Decimal.{Decimal, zero, one, sub, mul, lt}
use live_auto_trading.Domain.Enums.{SignalDirection}
use live_auto_trading.Domain.Market.{Candle}
use live_auto_trading.Domain.Trading.{TradeSignal}
use live_auto_trading.Indicators.Averages.{extreme}
use live_auto_trading.Indicators.Volatility.{atr}
use live_auto_trading.Strategies.Base.{
  StrategyContext, Strategy, Signals, signal, hold, half, has_long, last_at,
}

pub record BreakoutParams : Type 0 where
  pub lookback : ℕ
  pub atr_period : ℕ
  pub atr_stop_mult : Decimal
  pub warmup_margin : ℕ

-- `series[i - lookback : i]`, where `i` is the last index: the candles before the current one
abbrev pub prior_window : {A : Type 0} → ℕ → List A → List A
prior_window lookback xs = take lookback (drop (length xs - 1 - lookback) xs)

unfoldable pub atr_stop : BreakoutParams → Decimal → Option Decimal → Option Decimal
atr_stop params close none = none
atr_stop params close (some range) =
    if lt zero range then some (sub close (mul range params.atr_stop_mult)) else none

unfoldable pub on_channel :
    BreakoutParams
    → Signals
    → Bool
    → Decimal
    → Decimal
    → Option Decimal
    → Decimal
    → Option TradeSignal
on_channel params s long prior_high prior_low atr_cur close =
    if lt prior_high close && not long
    then some (signal s SignalDirection.buy one (some close) (atr_stop params close atr_cur) none)
    else if lt close prior_low && long
    then some (signal s SignalDirection.sell one none none none)
    else hold s half

unfoldable pub evaluate_breakout :
    BreakoutParams → (Candle → ℕ → String) → StrategyContext → Option TradeSignal
evaluate_breakout params text context =
    let s : Signals = record {
      strategy_name = "Donchian Breakout";
      text = text;
      candles = context.candles;
    } in
    if ltb (length context.candles) (params.lookback + params.warmup_margin + 1)
    then hold s zero
    else (do
      prior_high ← extreme D.max (prior_window params.lookback (map (λ k. k.high) context.candles))
      prior_low ← extreme D.min (prior_window params.lookback (map (λ k. k.low) context.candles))
      atr_series ← atr context.candles params.atr_period
      atr_cur ← last_at atr_series
      close ← last_at (map (λ k. k.close) context.candles)
      on_channel params s (has_long context.position) prior_high prior_low atr_cur close)

-- `BreakoutStrategy`
abbrev pub breakout : BreakoutParams → (Candle → ℕ → String) → Strategy
breakout params text = record {
  strategy_id = "breakout";
  name = "Donchian Breakout";
  evaluate = evaluate_breakout params text;
}
