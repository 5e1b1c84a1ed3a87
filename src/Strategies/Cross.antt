-- ===== src/Strategies/Cross.antt =====
-- The crossings of two averages, as app/strategies/ema_crossover.py and ema_rsi.py test them.
use live_auto_trading.Prelude.{Bool, ◌&&◌, Option, some}
use live_auto_trading.Prelude.Options.{◌>>=◌}
use live_auto_trading.Decimal.{Decimal, lt, le}

-- the two averages, now and one candle before
pub record Cross : Type 0 where
  pub fast_cur : Decimal
  pub slow_cur : Decimal
  pub fast_prev : Decimal
  pub slow_prev : Decimal

abbrev pub crossed_up : Cross → Bool
crossed_up c = le c.fast_prev c.slow_prev && lt c.slow_cur c.fast_cur

abbrev pub crossed_down : Cross → Bool
crossed_down c = le c.slow_prev c.fast_prev && lt c.fast_cur c.slow_cur

-- `none` is an average that is `None`
unfoldable pub cross_of :
    Option Decimal → Option Decimal → Option Decimal → Option Decimal → Option Cross
cross_of fast slow fast_before slow_before = do
  f ← fast
  s ← slow
  fb ← fast_before
  sb ← slow_before
  some (record { fast_cur = f; slow_cur = s; fast_prev = fb; slow_prev = sb })
