-- ===== src/Strategies/EmaCrossover.antt =====
-- app/strategies/ema_crossover.py. The parameters are those of a config over the defaults, already
-- read from their dict; the reason and the metadata of a signal are left out.
use live_auto_trading.Prelude.{
  ℕ, ◌+◌, String, Bool, false, not, ◌&&◌, ◌||◌, Option, none, some, List, [], ◌∷◌, map, ltb, leb,
  nat_beq, length, if◌then◌else◌,
}
use live_auto_trading.Prelude.Options.{◌>>=◌}
use live_auto_trading.Integer.{pos}
use live_auto_trading.Decimal.{Decimal, zero, one, add, sub, mul, lt}
use live_auto_trading.Domain.Enums.{SignalDirection}
use live_auto_trading.Domain.Market.{Candle}
use live_auto_trading.Domain.Trading.{TradeSignal}
use live_auto_trading.Indicators.Averages.{ema}
use live_auto_trading.Indicators.Momentum.{rsi}
use live_auto_trading.Indicators.Volatility.{atr}
use live_auto_trading.Strategies.Base.{
  StrategyContext, Strategy, Signals, signal, hold, half, has_long, last_at, before_last_at,
}
use live_auto_trading.Strategies.Cross.{Cross, crossed_up, crossed_down, cross_of}

pub record CrossoverParams : Type 0 where
  pub fast_ema : ℕ
  pub slow_ema : ℕ
  pub warmup_margin : ℕ
  pub use_rsi_filter : Bool
  pub rsi_period : ℕ
  pub rsi_buy_min : Decimal
  pub use_atr_stop : Bool
  pub atr_period : ℕ
  pub atr_stop_mult : Decimal
  pub reward_risk : Decimal

abbrev pub occurs : ℕ → List ℕ → Bool
occurs t [] = false
occurs t (u ∷ times) = nat_beq t u || occurs t times

-- `len(times) != len(set(times))`
unfoldable pub has_duplicates : List ℕ → Bool
has_duplicates [] = false
has_duplicates (t ∷ times) = occurs t times || has_duplicates times

-- `any(times[i] >= times[i + 1] ...)`
unfoldable pub goes_down : List ℕ → Bool
goes_down [] = false
goes_down (t ∷ []) = false
goes_down (t ∷ u ∷ times) = leb u t || goes_down (u ∷ times)

abbrev pub quarter : Decimal
quarter = record { coeff = pos 25; places = 2 }

-- the stop and the target of an entry at `close`
unfoldable pub atr_levels :
    CrossoverParams → Decimal → Option Decimal → Option Decimal × Option Decimal
atr_levels params close none = (none, none)
atr_levels params close (some range) =
    if params.use_atr_stop && lt zero range
    then (
      some (sub close (mul range params.atr_stop_mult)),
      some (add close (mul (mul range params.atr_stop_mult) params.reward_risk)),
    )
    else (none, none)

-- The optional RSI confirmation holds an entry back.
unfoldable pub rsi_holds : CrossoverParams → Option Decimal → Bool
rsi_holds params none = false
rsi_holds params (some value) = params.use_rsi_filter && lt value params.rsi_buy_min

unfoldable pub enter :
    CrossoverParams → Signals → Decimal → Option Decimal → Option Decimal → Option TradeSignal
enter params s close rsi_cur atr_cur =
    if rsi_holds params rsi_cur
    then hold s quarter
    else some (
        let (stop, target) = atr_levels params close atr_cur in
        signal s SignalDirection.buy one (some close) stop target)

unfoldable pub on_cross :
    CrossoverParams
    → Signals
    → Bool
    → Decimal
    → Option Decimal
    → Option Decimal
    → Cross
    → Option TradeSignal
on_cross params s long close rsi_cur atr_cur c =
    if crossed_up c && not long
    then enter params s close rsi_cur atr_cur
    else if crossed_down c && long
    then some (signal s SignalDirection.sell one none none none)
    else hold s half

-- what follows once the averages are read
unfoldable pub with_averages : CrossoverParams → Signals → Bool → Option Cross → Option TradeSignal
with_averages params s long none = hold s zero
with_averages params s long (some c) = do
  rsi_series ← rsi (map (λ k. k.close) s.candles) params.rsi_period
  atr_series ← atr s.candles params.atr_period
  rsi_cur ← last_at rsi_series
  atr_cur ← last_at atr_series
  close ← last_at (map (λ k. k.close) s.candles)
  on_cross params s long close rsi_cur atr_cur c

unfoldable pub with_history : CrossoverParams → Signals → Bool → Option TradeSignal
with_history params s long = do
  fast ← ema (map (λ k. k.close) s.candles) params.fast_ema
  slow ← ema (map (λ k. k.close) s.candles) params.slow_ema
  fast_cur ← last_at fast
  slow_cur ← last_at slow
  fast_prev ← before_last_at fast
  slow_prev ← before_last_at slow
  with_averages params s long (cross_of fast_cur slow_cur fast_prev slow_prev)

unfoldable pub evaluate_crossover :
    CrossoverParams → (Candle → ℕ → String) → StrategyContext → Option TradeSignal
evaluate_crossover params text context =
    let s : Signals = record {
      strategy_name = "EMA Crossover";
      text = text;
      candles = context.candles;
    } in
    let times = map (λ k. k.open_time) context.candles in
    if ltb (length context.candles) (params.slow_ema + params.warmup_margin)
    then hold s zero
    else if has_duplicates times
    then hold s zero
    else if goes_down times
    then hold s zero
    else with_history params s (has_long context.position)

-- `EMACrossoverStrategy`
abbrev pub ema_crossover : CrossoverParams → (Candle → ℕ → String) → Strategy
ema_crossover params text = record {
  strategy_id = "ema_crossover";
  name = "EMA Crossover";
  evaluate = evaluate_crossover params text;
}
