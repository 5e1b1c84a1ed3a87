-- ===== src/Strategies/RsiMeanReversion.antt =====
-- app/strategies/rsi_mean_reversion.py. The parameters are those of a config over the defaults,
-- already read from their dict; the reason and the metadata of a signal are left out.
use live_auto_trading.Prelude.{
  ℕ, ◌+◌, String, Bool, not, ◌&&◌, Option, none, some, map, ltb, length, if◌then◌else◌,
}
use live_auto_trading.Prelude.Options.{◌>>=◌}
use live_auto_trading.Decimal.{Decimal, zero, one, lt, le}
use live_auto_trading.Domain.Enums.{SignalDirection}
use live_auto_trading.Domain.Market.{Candle}
use live_auto_trading.Domain.Trading.{TradeSignal}
use live_auto_trading.Indicators.Momentum.{rsi}
use live_auto_trading.Strategies.Base.{
  StrategyContext, Strategy, Signals, signal, hold, half, has_long, last_at, before_last_at,
}

pub record ReversionParams : Type 0 where
  pub rsi_period : ℕ
  pub oversold : Decimal
  pub overbought : Decimal
  pub warmup_margin : ℕ

-- The index now and one candle before; `none` is an index that is `None`.
unfoldable pub on_reversal :
    ReversionParams
    → Signals
    → Bool
    → Decimal
    → Option Decimal
    → Option Decimal
    → Option TradeSignal
on_reversal params s long close none prev = hold s zero
on_reversal params s long close (some cur) none = hold s zero
on_reversal params s long close (some cur) (some prev) =
    if (le prev params.oversold && lt params.oversold cur) && not long
    then some (signal s SignalDirection.buy one (some close) none none)
    else if (le params.overbought prev && lt cur params.overbought) && long
    then some (signal s SignalDirection.sell one none none none)
    else hold s half

unfoldable pub evaluate_reversion :
    ReversionParams → (Candle → ℕ → String) → StrategyContext → Option TradeSignal
evaluate_reversion params text context =
    let s : Signals = record {
      strategy_name = "RSI Mean Reversion";
      text = text;
      candles = context.candles;
    } in
    let closes = map (λ k. k.close) context.candles in
    if ltb (length context.candles) (params.rsi_period + params.warmup_margin + 1)
    then hold s zero
    else (do
      series ← rsi closes params.rsi_period
      cur ← last_at series
      prev ← before_last_at series
      close ← last_at closes
      on_reversal params s (has_long context.position) close cur prev)

-- `RSIMeanReversionStrategy`
abbrev pub rsi_mean_reversion : ReversionParams → (Candle → ℕ → String) → Strategy
rsi_mean_reversion params text = record {
  strategy_id = "rsi_mean_reversion";
  name = "RSI Mean Reversion";
  evaluate = evaluate_reversion params text;
}
