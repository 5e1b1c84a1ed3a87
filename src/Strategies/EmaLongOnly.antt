-- ===== src/Strategies/EmaLongOnly.antt =====
-- The signals of the strategies on averages, against what is held.
use live_auto_trading.Prelude.{
  ◌≡◌, refl, ap, String, Bool, true, not, ◌&&◌, Option, none, some, ltb, ℕ, map, length, ◌+◌,
}
use live_auto_trading.Decimal.{Decimal, zero, one, le, lt, sub, add, mul, div}
use live_auto_trading.Indicators.Momentum.{rsi}
use live_auto_trading.Decimal
use live_auto_trading.Domain.Enums.{SignalDirection}
use live_auto_trading.Domain.Market.{Candle}
use live_auto_trading.Strategies.Base.{Signals, symbol_of, has_long, last_at, before_last_at}
use live_auto_trading.Strategies.Fits.{
  Fits, IsLongOnly, signal-Fits, hold-Fits, three_ways-Fits, zero_ok, buy-Fits,
}
use live_auto_trading.Prelude.Options.{Ensures, some-Ensures, >>=-Ensures, if-Ensures}
use live_auto_trading.Indicators.Averages.{ema, volume_ma}
use live_auto_trading.Indicators.Volatility.{atr}
use live_auto_trading.Strategies.Cross.{Cross, crossed_up, crossed_down, cross_of}
use live_auto_trading.Strategies.EmaRsi.{
  EmaRsiParams, hundred, percent_entry, on_setup, larger, evaluate_ema_rsi, ema_rsi,
}
use live_auto_trading.Strategies.EmaCrossover.{
  CrossoverParams, has_duplicates, goes_down, quarter, rsi_holds, enter, on_cross, with_averages,
  with_history, evaluate_crossover, ema_crossover,
}
use live_auto_trading.Strategies.EmaTrend.{
  TrendParams, Reading, exits, enters, trade, on_trend, reading_of, evaluate_trend, ema_trend,
  exit_confidence, entry_confidence,
}
use live_auto_trading.Domain.Trading.{Position}

quarter_ok : (le zero quarter && le quarter one) ≡ true
unfolding le Decimal.aligned
quarter_ok = refl

exit_ok : (le zero exit_confidence && le exit_confidence one) ≡ true
unfolding le Decimal.aligned
exit_ok = refl

entry_ok : (le zero entry_confidence && le entry_confidence one) ≡ true
unfolding le Decimal.aligned
entry_ok = refl

percent_entry-Fits :
    (params : EmaRsiParams) (s : Signals) (up long : Bool) (close : Decimal)
    → (up && not long) ≡ true
    → Ensures (Fits s.strategy_name (symbol_of s.candles) long) (percent_entry params s close)
unfolding percent_entry
percent_entry-Fits params s up long close h =
    >>=-Ensures (div params.stop_loss_percent hundred) _ (λ sl_pct.
      >>=-Ensures (div params.take_profit_percent hundred) _ (λ tp_pct.
        buy-Fits s up long (some close) (some (mul close (sub one sl_pct)))
          (some (mul close (add one tp_pct))) h))

on_setup-Fits :
    (params : EmaRsiParams) (s : Signals) (long : Bool) (close : Decimal) (r_cur : Option Decimal)
    (c : Option Cross)
    → Ensures
        (Fits s.strategy_name (symbol_of s.candles) long)
        (on_setup params s long close r_cur c)
unfolding on_setup
on_setup-Fits params s long close none c = hold-Fits s long zero zero_ok
on_setup-Fits params s long close (some r_cur) none = hold-Fits s long zero zero_ok
on_setup-Fits params s long close (some r_cur) (some c) =
    let up = crossed_up c && lt params.rsi_buy_min r_cur in
    three_ways-Fits s long up (crossed_down c) _ (percent_entry-Fits params s up long close)

-- The EMA crossover with RSI buys only while flat and sells only while long, and its signals bear its
-- name, the symbol of the last candle and a confidence between 0 and 1.
pub ema_rsi-IsLongOnly :
    (params : EmaRsiParams) (text : Candle → ℕ → String) → IsLongOnly (ema_rsi params text)
unfolding evaluate_ema_rsi
ema_rsi-IsLongOnly params text context =
    let long = has_long context.position in
    let closes = map (λ k. k.close) context.candles in
    if-Ensures
      (ltb (length context.candles)
        (larger params.slow_ema params.rsi_period + params.warmup_margin + 1))
      (λ h. hold-Fits _ long zero zero_ok)
      (λ h. >>=-Ensures (ema closes params.fast_ema) _ (λ fast.
        >>=-Ensures (ema closes params.slow_ema) _ (λ slow.
          >>=-Ensures (rsi closes params.rsi_period) _ (λ series.
            >>=-Ensures (last_at fast) _ (λ f_cur. >>=-Ensures (before_last_at fast) _ (λ f_prev.
              >>=-Ensures (last_at slow) _ (λ s_cur. >>=-Ensures (before_last_at slow) _ (λ s_prev.
                >>=-Ensures (last_at series) _ (λ r_cur. >>=-Ensures (last_at closes) _ (λ close.
                  on_setup-Fits params _ long close r_cur
                    (cross_of f_cur s_cur f_prev s_prev)))))))))))

enter-Fits :
    (params : CrossoverParams) (s : Signals) (up long : Bool) (close : Decimal)
    (rsi_cur atr_cur : Option Decimal)
    → (up && not long) ≡ true
    → Ensures
        (Fits s.strategy_name (symbol_of s.candles) long)
        (enter params s close rsi_cur atr_cur)
unfolding enter
enter-Fits params s up long close rsi_cur atr_cur h =
    if-Ensures (rsi_holds params rsi_cur) (λ k. hold-Fits s long quarter quarter_ok)
      (λ k. buy-Fits s up long (some close) _ _ h)

with_averages-Fits :
    (params : CrossoverParams) (s : Signals) (long : Bool) (c : Option Cross)
    → Ensures (Fits s.strategy_name (symbol_of s.candles) long) (with_averages params s long c)
unfolding with_averages on_cross
with_averages-Fits params s long none = hold-Fits s long zero zero_ok
with_averages-Fits params s long (some c) =
    let closes = map (λ k. k.close) s.candles in
    >>=-Ensures (rsi closes params.rsi_period) _ (λ rsi_series.
      >>=-Ensures (atr s.candles params.atr_period) _ (λ atr_series.
        >>=-Ensures (last_at rsi_series) _ (λ rsi_cur.
          >>=-Ensures (last_at atr_series) _ (λ atr_cur. >>=-Ensures (last_at closes) _ (λ close.
            three_ways-Fits s long (crossed_up c) (crossed_down c) _
              (enter-Fits params s (crossed_up c) long close rsi_cur atr_cur))))))

-- The EMA crossover buys only while flat and sells only while long, and its signals bear its name, the
-- symbol of the last candle and a confidence between 0 and 1.
pub ema_crossover-IsLongOnly :
    (params : CrossoverParams) (text : Candle → ℕ → String) → IsLongOnly (ema_crossover params text)
unfolding evaluate_crossover with_history
ema_crossover-IsLongOnly params text context =
    let long = has_long context.position in
    let closes = map (λ k. k.close) context.candles in
    let times = map (λ k. k.open_time) context.candles in
    if-Ensures (ltb (length context.candles) (params.slow_ema + params.warmup_margin))
      (λ h. hold-Fits _ long zero zero_ok)
      (λ h.
        if-Ensures (has_duplicates times) (λ d. hold-Fits _ long zero zero_ok)
          (λ d.
            if-Ensures (goes_down times) (λ g. hold-Fits _ long zero zero_ok)
              (λ g. >>=-Ensures (ema closes params.fast_ema) _ (λ fast.
                >>=-Ensures (ema closes params.slow_ema) _ (λ slow.
                  >>=-Ensures (last_at fast) _ (λ f_cur. >>=-Ensures (last_at slow) _ (λ s_cur.
                    >>=-Ensures (before_last_at fast) _ (λ f_prev.
                      >>=-Ensures (before_last_at slow) _ (λ s_prev.
                        with_averages-Fits params _ long
                          (cross_of f_cur s_cur f_prev s_prev))))))))))

on_trend-Fits :
    (params : TrendParams) (s : Signals) (bars_held : ℕ) (position : Option Position)
    (r : Option Reading)
    → Ensures
        (Fits s.strategy_name (symbol_of s.candles) (has_long position))
        (on_trend params s bars_held position r)
unfolding on_trend trade
on_trend-Fits params s bars_held position none = hold-Fits s (has_long position) zero zero_ok
on_trend-Fits params s bars_held position (some r) =
    let long = has_long position in
    if-Ensures long
      (λ l.
        if-Ensures (exits params bars_held position r)
          (λ h.
            some-Ensures _
              (signal-Fits s long SignalDirection.exit exit_confidence _ _ _ l exit_ok))
          (λ h. hold-Fits s long zero zero_ok))
      (λ l.
        if-Ensures (enters params r)
          (λ h.
            some-Ensures _
              (signal-Fits s long SignalDirection.buy entry_confidence _ _ _ (ap not l) entry_ok))
          (λ h. hold-Fits s long zero zero_ok))

-- The EMA trend buys only while flat and exits only while long, and its signals bear its name, the
-- symbol of the last candle and a confidence between 0 and 1.
pub ema_trend-IsLongOnly :
    (params : TrendParams) (text : Candle → ℕ → String) → IsLongOnly (ema_trend params text)
unfolding evaluate_trend
ema_trend-IsLongOnly params text context =
    let long = has_long context.position in
    let closes = map (λ k. k.close) context.candles in
    let volumes = map (λ k. k.volume) context.candles in
    if-Ensures (ltb (length context.candles) (params.slow_ema + 2))
      (λ h. hold-Fits _ long zero zero_ok)
      (λ h. >>=-Ensures (ema closes params.fast_ema) _ (λ fast.
        >>=-Ensures (ema closes params.slow_ema) _ (λ slow.
          >>=-Ensures (rsi closes params.rsi_period) _ (λ rsi_series.
            >>=-Ensures (atr context.candles params.atr_period) _ (λ atr_series.
              >>=-Ensures (volume_ma volumes params.volume_ma_period) _ (λ vma.
                >>=-Ensures (last_at fast) _ (λ f_cur. >>=-Ensures (last_at slow) _ (λ s_cur.
                  >>=-Ensures (before_last_at fast) _ (λ f_prev.
                    >>=-Ensures (before_last_at slow) _ (λ s_prev.
                      >>=-Ensures (last_at rsi_series) _ (λ rsi_cur.
                        >>=-Ensures (last_at atr_series) _ (λ atr_val.
                          >>=-Ensures (last_at vma) _ (λ vma_cur.
                            >>=-Ensures (last_at closes) _ (λ price.
                              >>=-Ensures (last_at volumes) _ (λ volume.
                                on_trend-Fits params _ context.bars_held context.position (
                                  reading_of (cross_of f_cur s_cur f_prev s_prev) rsi_cur atr_val
                                    vma_cur price volume))))))))))))))))
