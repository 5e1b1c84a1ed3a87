-- ===== src/Indicators/Volatility.antt =====
-- `true_range`, `atr` and `vwap` of app/indicators/volatility.py. The three series of a call come from
-- one list of candles.
use live_auto_trading.Prelude.{
  ℕ, ◌-◌, ◌||◌, Option, none, some, List, [], ◌∷◌, nat_beq, ltb, length, is_empty, replicate,
  if◌then◌else◌,
}
use live_auto_trading.Prelude.Options.{◌>>=◌, ◌>>◌, fail_if}
use live_auto_trading.Decimal.{Decimal, zero, add, sub, mul, div, max, abs, eq}
use live_auto_trading.Domain.Market.{Candle}
use live_auto_trading.Indicators.Series.{of_ℕ, average, scan, seeded}
use live_auto_trading.Indicators.Momentum.{wilder}

-- `true_range`, with the close before the candle, if there is one
unfoldable pub true_range : Option Candle → Candle → Decimal
true_range none c = sub c.high c.low
true_range (some prev) c =
    max (max (sub c.high c.low) (abs (sub c.high prev.close))) (abs (sub c.low prev.close))

unfoldable pub true_ranges : Option Candle → List Candle → List Decimal
true_ranges prev [] = []
true_ranges prev (c ∷ candles) = true_range prev c ∷ true_ranges (some c) candles

unfoldable pub atr_start : ℕ → List Decimal → Option (Decimal × Decimal)
atr_start period first = do seed ← average period first; some (seed, seed)

unfoldable pub atr_step : ℕ → Decimal → Decimal → Option (Decimal × Decimal)
atr_step period prev range = do value ← wilder period prev range; some (value, value)

unfoldable pub atr : List Candle → ℕ → Option (List (Option Decimal))
atr candles period = do
  fail_if (is_empty candles || nat_beq period 0)
  if ltb (length candles) period
      then some (replicate (length candles) none)
      else seeded (period - 1) period (atr_start period) (atr_step period)
          (true_ranges none candles)

-- the sums of price times volume, and of the volumes
unfoldable pub vwap_step :
    Decimal × Decimal → Candle → Option ((Decimal × Decimal) × Option Decimal)
vwap_step (sum_pv, sum_v) c = do
  typical ← div (add (add c.high c.low) c.close) (of_ℕ 3)
  let pv = add sum_pv (mul typical c.volume)
  let v = add sum_v c.volume
  if eq v zero then some ((pv, v), none) else do value ← div pv v; some ((pv, v), some value)

unfoldable pub vwap : List Candle → Option (List (Option Decimal))
vwap candles = do fail_if (is_empty candles); scan vwap_step (zero, zero) candles
