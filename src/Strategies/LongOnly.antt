-- ===== src/Strategies/LongOnly.antt =====
-- The signals of `rsi_mean_reversion` and `breakout`, against what is held.
use live_auto_trading.Prelude.{String, Bool, ◌&&◌, Option, none, some, ltb, ℕ, map, length, ◌+◌}
use live_auto_trading.Decimal.{Decimal, zero, one, le, lt, sub, add, mul, div}
use live_auto_trading.Indicators.Momentum.{rsi}
use live_auto_trading.Decimal
use live_auto_trading.Domain.Market.{Candle}
use live_auto_trading.Strategies.Base.{Signals, symbol_of, has_long, last_at, before_last_at}
use live_auto_trading.Strategies.Fits.{
  Fits, IsLongOnly, hold-Fits, three_ways-Fits, zero_ok, buy-Fits,
}
use live_auto_trading.Prelude.Options.{Ensures, >>=-Ensures, if-Ensures}
use live_auto_trading.Indicators.Averages.{extreme}
use live_auto_trading.Indicators.Volatility.{atr}
use live_auto_trading.Strategies.Breakout.{
  BreakoutParams, prior_window, atr_stop, on_channel, evaluate_breakout, breakout,
}
use live_auto_trading.Strategies.RsiMeanReversion.{
  ReversionParams, on_reversal, evaluate_reversion, rsi_mean_reversion,
}

on_reversal-Fits :
    (params : ReversionParams) (s : Signals) (long : Bool) (close : Decimal)
    (cur prev : Option Decimal)
    → Ensures
        (Fits s.strategy_name (symbol_of s.candles) long)
        (on_reversal params s long close cur prev)
unfolding on_reversal
on_reversal-Fits params s long close none prev = hold-Fits s long zero zero_ok
on_reversal-Fits params s long close (some cur) none = hold-Fits s long zero zero_ok
on_reversal-Fits params s long close (some cur) (some prev) =
    let up = le prev params.oversold && lt params.oversold cur in
    three_ways-Fits s long up (le params.overbought prev && lt cur params.overbought) _
      (buy-Fits s up long (some close) none none)

-- The RSI mean reversion buys only while flat and sells only while long, and its signals bear its name,
-- the symbol of the last candle and a confidence between 0 and 1.
pub rsi_mean_reversion-IsLongOnly :
    (params : ReversionParams) (text : Candle → ℕ → String)
    → IsLongOnly (rsi_mean_reversion params text)
unfolding evaluate_reversion
rsi_mean_reversion-IsLongOnly params text context =
    let closes = map (λ k. k.close) context.candles in
    if-Ensures (ltb (length context.candles) (params.rsi_period + params.warmup_margin + 1))
      (λ h. hold-Fits _ (has_long context.position) zero zero_ok)
      (λ h. >>=-Ensures (rsi closes params.rsi_period) _ (λ series.
        >>=-Ensures (last_at series) _ (λ cur. >>=-Ensures (before_last_at series) _ (λ prev.
          >>=-Ensures (last_at closes) _
            (λ close. on_reversal-Fits params _ (has_long context.position) close cur prev)))))

-- The breakout buys only while flat and sells only while long, and its signals bear its name, the symbol
-- of the last candle and a confidence between 0 and 1.
pub breakout-IsLongOnly :
    (params : BreakoutParams) (text : Candle → ℕ → String) → IsLongOnly (breakout params text)
unfolding evaluate_breakout on_channel
breakout-IsLongOnly params text context =
    let long = has_long context.position in
    let closes = map (λ k. k.close) context.candles in
    let highs = prior_window params.lookback (map (λ k. k.high) context.candles) in
    let lows = prior_window params.lookback (map (λ k. k.low) context.candles) in
    if-Ensures (ltb (length context.candles) (params.lookback + params.warmup_margin + 1))
      (λ h. hold-Fits _ long zero zero_ok)
      (λ h. >>=-Ensures (extreme Decimal.max highs) _ (λ top.
        >>=-Ensures (extreme Decimal.min lows) _ (λ bottom.
          >>=-Ensures (atr context.candles params.atr_period) _ (λ series.
            >>=-Ensures (last_at series) _ (λ range. >>=-Ensures (last_at closes) _ (λ close.
              three_ways-Fits _ long (lt top close) (lt close bottom) _ (
                buy-Fits _ (lt top close) long (some close) (atr_stop params close range)
                  none)))))))
