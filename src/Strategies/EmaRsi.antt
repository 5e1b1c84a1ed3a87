-- ===== src/Strategies/EmaRsi.antt =====
-- app/strategies/ema_rsi.py. The parameters are those of a config over the defaults, already read
-- from their dict; the reason and the metadata of a signal are left out.
use live_auto_trading.Prelude.{
  ℕ, ◌+◌, String, Bool, not, ◌&&◌, Option, none, some, map, ltb, length, if◌then◌else◌,
}
use live_auto_trading.Prelude.Options.{◌>>=◌}
use live_auto_trading.Integer.{pos}
use live_auto_trading.Decimal.{Decimal, zero, one, add, sub, mul, div, lt}
use live_auto_trading.Domain.Enums.{SignalDirection}
use live_auto_trading.Domain.Market.{Candle}
use live_auto_trading.Domain.Trading.{TradeSignal}
use live_auto_trading.Indicators.Averages.{ema}
use live_auto_trading.Indicators.Momentum.{rsi}
use live_auto_trading.Strategies.Base.{
  StrategyContext, Strategy, Signals, signal, hold, half, has_long, last_at, before_last_at,
}
use live_auto_trading.Strategies.Cross.{Cross, crossed_up, crossed_down, cross_of}

pub record EmaRsiParams : Type 0 where
  pub fast_ema : ℕ
  pub slow_ema : ℕ
  pub rsi_period : ℕ
  pub rsi_buy_min : Decimal
  pub warmup_margin : ℕ
  pub stop_loss_percent : Decimal
  pub take_profit_percent : Decimal

abbrev pub hundred : Decimal
hundred = record { coeff = pos 100; places = 0 }

unfoldable pub percent_entry : EmaRsiParams → Signals → Decimal → Option TradeSignal
percent_entry params s close = do
  sl_pct ← div params.stop_loss_percent hundred
  tp_pct ← div params.take_profit_percent hundred
  some (
      signal s SignalDirection.buy one (some close) (some (mul close (sub one sl_pct)))
        (some (mul close (add one tp_pct))))

-- `none` is an indicator that is `None`.
unfoldable pub on_setup :
    EmaRsiParams → Signals → Bool → Decimal → Option Decimal → Option Cross → Option TradeSignal
on_setup params s long close none c = hold s zero
on_setup params s long close (some r_cur) none = hold s zero
on_setup params s long close (some r_cur) (some c) =
    if (crossed_up c && lt params.rsi_buy_min r_cur) && not long
    then percent_entry params s close
    else if crossed_down c && long
    then some (signal s SignalDirection.sell one none none none)
    else hold s half

unfoldable pub larger : ℕ → ℕ → ℕ
larger m n = if ltb m n then n else m

unfoldable pub evaluate_ema_rsi :
    EmaRsiParams → (Candle → ℕ → String) → StrategyContext → Option TradeSignal
evaluate_ema_rsi params text context =
    let s : Signals = record {
      strategy_name = "EMA Crossover + RSI";
      text = text;
      candles = context.candles;
    } in
    let closes = map (λ k. k.close) context.candles in
    if ltb (length context.candles)
      (larger params.slow_ema params.rsi_period + params.warmup_margin + 1)
    then hold s zero
    else (do
      fast ← ema closes params.fast_ema
      slow ← ema closes params.slow_ema
      rsi_series ← rsi closes params.rsi_period
      f_cur ← last_at fast
      f_prev ← before_last_at fast
      s_cur ← last_at slow
      s_prev ← before_last_at slow
      r_cur ← last_at rsi_series
      close ← last_at closes
      on_setup params s (has_long context.position) close r_cur
          (cross_of f_cur s_cur f_prev s_prev))

-- `EMARSIStrategy`
abbrev pub ema_rsi : EmaRsiParams → (Candle → ℕ → String) → Strategy
ema_rsi params text = record {
  strategy_id = "ema_rsi";
  name = "EMA Crossover + RSI";
  evaluate = evaluate_ema_rsi params text;
}
