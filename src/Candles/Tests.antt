-- ===== src/Candles/Tests.antt =====
-- Runs of the validation of candles, and its theorems at concrete inputs.
use live_auto_trading.Prelude.{ℕ, ◌+◌, ◌-◌, string_key, ◌≡◌, refl, arith, true, none, [], ◌∷◌}
use live_auto_trading.Decimal
use live_auto_trading.Decimal.{zero}
use live_auto_trading.Paper.Tests.{cents}
use live_auto_trading.Domain.Market.{Candle}
use live_auto_trading.Candles.Validate.{
  timeframe_delta, issue_if, validate_ohlc_sanity, place, sorted, missing_from, missing_between,
  goes_back, missing_issue, walk, timeframe_issues, issues_of, validate_candles,
}
use live_auto_trading.Candles.Contiguous.{IsValid, validate-IsValid, missing_from-enough}

abbrev pub candle : ℕ → Candle
candle time = record {
  symbol = "BTC/USDT";
  timeframe = "1m";
  is_closed = true;
  open_time = time;
  open_price = cents 100;
  high = cents 120;
  low = cents 90;
  close = cents 110;
  volume = zero;
}

-- The candles may come in any order.
two_ok : (validate_candles (candle 60_000_000 ∷ candle 0 ∷ []) none).ok ≡ true
unfolding validate_candles issues_of walk validate_ohlc_sanity issue_if sorted place timeframe_delta
    timeframe_issues missing_between missing_from goes_back missing_issue Decimal.lt
two_ok = refl

-- Two candles are missing; the loop stops after two steps.
gap : missing_from 5 60 60 180 ≡ 60 ∷ 120 ∷ []
unfolding missing_from
gap = refl

validate-IsValid_example : IsValid "1m" (candle 60_000_000 ∷ candle 0 ∷ [])
validate-IsValid_example = validate-IsValid (candle 60_000_000) (candle 0 ∷ []) none two_ok

missing_from-enough_example :
    missing_from (180 - 60 + 7) 60 60 180 ≡ missing_from (180 - 60) 60 60 180
missing_from-enough_example = missing_from-enough 60 60 180 7 (omega arith)
