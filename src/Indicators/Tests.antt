-- ===== src/Indicators/Tests.antt =====
-- Runs of the indicators, and their theorems at concrete inputs.
use live_auto_trading.Prelude.{◌≡◌, refl, Option, none, some, List, [], ◌∷◌, map, length}
use live_auto_trading.Decimal
use live_auto_trading.Decimal.{Decimal}
use live_auto_trading.Domain.Market.{Candle}
use live_auto_trading.Candles.Tests.{candle}
use live_auto_trading.Indicators.Series.{of_ℕ, average, scan, seeded}
use live_auto_trading.Indicators.Averages.{ema, ema_start, ema_step}
use live_auto_trading.Indicators.Momentum.{
  gain_loss, changes, rsi_value, rsi_start, wilder, rsi_step, rsi,
}
use live_auto_trading.Indicators.Volatility.{true_range, true_ranges, atr_start, atr_step, atr}
use live_auto_trading.Indicators.Agrees.{Agrees}
use live_auto_trading.Indicators.Causal.{ema-Agrees, rsi-Agrees, atr-Agrees}

abbrev closes : List Decimal
closes = map of_ℕ (10 ∷ 12 ∷ 11 ∷ [])

abbrev later : List Decimal
later = map of_ℕ (14 ∷ 9 ∷ [])

abbrev all : List Decimal
all = map of_ℕ (10 ∷ 12 ∷ 11 ∷ 14 ∷ 9 ∷ [])

abbrev series_of : Option (List (Option Decimal)) → List (Option Decimal)
series_of none = []
series_of (some s) = s

ema_run : ema all 2 ≡ some (series_of (ema all 2))
unfolding ema ema_start ema_step seeded scan average Decimal.add Decimal.sub Decimal.mul Decimal.div
    Decimal.sum_from
ema_run = refl

ema-Agrees_example :
    (us : List (Option Decimal)) × (ema closes 2 ≡ some us)
    × Agrees (length closes) us (series_of (ema all 2))
ema-Agrees_example = ema-Agrees closes later 2 refl ema_run

rsi_run : rsi all 2 ≡ some (series_of (rsi all 2))
unfolding rsi rsi_start rsi_step rsi_value wilder changes gain_loss seeded scan average Decimal.add
    Decimal.sub Decimal.mul Decimal.div Decimal.sum_from Decimal.lt Decimal.eq Decimal.neg
rsi_run = refl

rsi-Agrees_example :
    (us : List (Option Decimal)) × (rsi closes 2 ≡ some us)
    × Agrees (length closes) us (series_of (rsi all 2))
rsi-Agrees_example = rsi-Agrees closes later 2 refl rsi_run

abbrev candles : List Candle
candles = candle 0 ∷ candle 60_000_000 ∷ []

abbrev all_candles : List Candle
all_candles = candle 0 ∷ candle 60_000_000 ∷ candle 120_000_000 ∷ []

atr_run : atr all_candles 2 ≡ some (series_of (atr all_candles 2))
unfolding atr atr_start atr_step true_range true_ranges wilder seeded scan average Decimal.add
    Decimal.sub Decimal.mul Decimal.div Decimal.sum_from Decimal.max Decimal.abs
atr_run = refl

atr-Agrees_example :
    (us : List (Option Decimal)) × (atr candles 2 ≡ some us)
    × Agrees (length candles) us (series_of (atr all_candles 2))
atr-Agrees_example = atr-Agrees candles (candle 120_000_000 ∷ []) 2 refl atr_run
