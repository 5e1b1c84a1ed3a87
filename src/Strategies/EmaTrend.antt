-- ===== src/Strategies/EmaTrend.antt =====
-- app/strategies/ema_trend.py. The parameters are those of a config over the defaults, already read
-- from their dict; the reason and the metadata of a signal are left out.
use live_auto_trading.Prelude.{
  ℕ, ◌+◌, String, Bool, false, ◌&&◌, ◌||◌, Option, none, some, map, ltb, leb, length, if◌then◌else◌,
}
use live_auto_trading.Prelude.Options.{◌>>=◌}
use live_auto_trading.Integer.{pos}
use live_auto_trading.Decimal.{Decimal, zero, add, sub, mul, lt, le}
use live_auto_trading.Domain.Enums.{SignalDirection}
use live_auto_trading.Domain.Market.{Candle}
use live_auto_trading.Domain.Trading.{Position, TradeSignal}
use live_auto_trading.Indicators.Averages.{ema, volume_ma}
use live_auto_trading.Indicators.Momentum.{rsi}
use live_auto_trading.Indicators.Volatility.{atr}
use live_auto_trading.Strategies.Base.{
  StrategyContext, Strategy, Signals, signal, hold, has_long, last_at, before_last_at,
}
use live_auto_trading.Strategies.Cross.{Cross, crossed_down, cross_of}

pub record TrendParams : Type 0 where
  pub fast_ema : ℕ
  pub slow_ema : ℕ
  pub rsi_period : ℕ
  pub rsi_min : Decimal
  pub rsi_max : Decimal
  pub atr_period : ℕ
  pub min_atr : Decimal
  pub volume_ma_period : ℕ
  pub stop_atr_multiple : Decimal
  pub target_atr_multiple : Decimal
  pub max_holding_bars : ℕ

abbrev pub exit_confidence : Decimal
exit_confidence = record { coeff = pos 8; places = 1 }

abbrev pub entry_confidence : Decimal
entry_confidence = record { coeff = pos 75; places = 2 }

-- what the rules read once it is ready
pub record Reading : Type 0 where
  pub cross : Cross
  pub rsi_cur : Decimal
  pub atr_val : Decimal
  pub vma_cur : Decimal
  pub price : Decimal
  pub volume : Decimal

-- an optional level that the price has reached
abbrev pub reached : (Decimal → Bool) → Option Decimal → Bool
reached test none = false
reached test (some level) = test level

unfoldable pub exits : TrendParams → ℕ → Option Position → Reading → Bool
exits params bars_held none r = false
exits params bars_held (some p) r =
    crossed_down r.cross
    || (reached (λ level. le r.price level) p.stop_loss
        || (reached (λ level. le level r.price) p.take_profit
            || leb params.max_holding_bars bars_held))

unfoldable pub enters : TrendParams → Reading → Bool
enters params r =
    (lt r.cross.slow_cur r.cross.fast_cur && lt r.cross.slow_cur r.price)
    && ((le params.rsi_min r.rsi_cur && le r.rsi_cur params.rsi_max)
        && (le params.min_atr r.atr_val && lt r.vma_cur r.volume))

unfoldable pub trade : TrendParams → Signals → SignalDirection → Decimal → Reading → TradeSignal
trade params s direction confidence r =
    signal s direction confidence (some r.price)
      (some (sub r.price (mul r.atr_val params.stop_atr_multiple)))
      (some (add r.price (mul r.atr_val params.target_atr_multiple)))

unfoldable pub on_trend :
    TrendParams → Signals → ℕ → Option Position → Option Reading → Option TradeSignal
on_trend params s bars_held position none = hold s zero
on_trend params s bars_held position (some r) =
    if has_long position
    then if exits params bars_held position r
      then some (trade params s SignalDirection.exit exit_confidence r)
      else hold s zero
    else if enters params r
    then some (trade params s SignalDirection.buy entry_confidence r)
    else hold s zero

-- `none` where an indicator is `None`
unfoldable pub reading_of :
    Option Cross
    → Option Decimal
    → Option Decimal
    → Option Decimal
    → Decimal
    → Decimal
    → Option Reading
reading_of cross rsi_cur atr_val vma_cur price volume = do
  c ← cross
  r ← rsi_cur
  a ← atr_val
  v ← vma_cur
  some (record { cross = c; rsi_cur = r; atr_val = a; vma_cur = v; price = price; volume = volume })

unfoldable pub evaluate_trend :
    TrendParams → (Candle → ℕ → String) → StrategyContext → Option TradeSignal
evaluate_trend params text context =
    let s : Signals = record {
      strategy_name = "EMA Trend Strategy";
      text = text;
      candles = context.candles;
    } in
    let closes = map (λ k. k.close) context.candles in
    let volumes = map (λ k. k.volume) context.candles in
    if ltb (length context.candles) (params.slow_ema + 2) then hold s zero else (do
      fast ← ema closes params.fast_ema
      slow ← ema closes params.slow_ema
      rsi_series ← rsi closes params.rsi_period
      atr_series ← atr context.candles params.atr_period
      vma ← volume_ma volumes params.volume_ma_period
      fast_cur ← last_at fast
      slow_cur ← last_at slow
      fast_prev ← before_last_at fast
      slow_prev ← before_last_at slow
      rsi_cur ← last_at rsi_series
      atr_val ← last_at atr_series
      vma_cur ← last_at vma
      price ← last_at closes
      volume ← last_at volumes
      on_trend params s context.bars_held context.position (
          reading_of (cross_of fast_cur slow_cur fast_prev slow_prev) rsi_cur atr_val vma_cur price
            volume))

-- `EMATrendStrategy`
abbrev pub ema_trend : TrendParams → (Candle → ℕ → String) → Strategy
ema_trend params text = record {
  strategy_id = "ema_trend";
  name = "EMA Trend Strategy";
  evaluate = evaluate_trend params text;
}
