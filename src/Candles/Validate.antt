-- ===== src/Candles/Validate.antt =====
-- `validate_candles`. The messages of the issues are left out.
use live_auto_trading.Prelude.{
  ℕ, ◌+◌, ◌-◌, zero as no_fuel, suc, String, string_key, ◌==◌, Bool, true, false, ◌||◌, Option,
  none, some, List, [], ◌∷◌, ◌++◌, map, ltb, leb, nat_beq, if◌then◌else◌,
}
use live_auto_trading.Decimal.{zero, lt}
use live_auto_trading.Domain.Market.{Candle}

pub data IssueCode : Type 0 where
  ohlc_low_invalid ohlc_high_invalid ohlc_high_lt_low volume_negative price_negative : IssueCode
  unsupported_timeframe duplicate_candle missing_candle continuity_regression : IssueCode

pub record ValidationIssue : Type 0 where
  pub code : IssueCode
  pub index : Option ℕ

pub record ValidationResult : Type 0 where
  pub ok : Bool
  pub issues : List ValidationIssue
  pub missing_timestamps : List ℕ
  pub duplicate_timestamps : List ℕ

-- TIMEFRAME_DELTAS
unfoldable pub timeframe_delta : String → Option ℕ
timeframe_delta tf =
    if tf == "1m"
    then some 60_000_000
    else if tf == "5m"
    then some 300_000_000
    else if tf == "15m"
    then some 900_000_000
    else if tf == "1h"
    then some 3_600_000_000
    else if tf == "4h"
    then some 14_400_000_000
    else none

unfoldable pub issue_if : Bool → IssueCode → ℕ → List ValidationIssue
issue_if true code index = record { code = code; index = some index } ∷ []
issue_if false code index = []

unfoldable pub validate_ohlc_sanity : Candle → ℕ → List ValidationIssue
validate_ohlc_sanity c index =
    issue_if (lt c.open_price c.low || lt c.close c.low) ohlc_low_invalid index
    ++ (issue_if (lt c.high c.open_price || lt c.high c.close) ohlc_high_invalid index
        ++ (issue_if (lt c.high c.low) ohlc_high_lt_low index
            ++ (issue_if (lt c.volume zero) volume_negative index
                ++ issue_if
                    (lt c.open_price zero || (lt c.high zero || (lt c.low zero || lt c.close zero)))
                    price_negative index)))

-- `sorted`, which keeps the order of candles of one instant
unfoldable pub place : Candle → List Candle → List Candle
place c [] = c ∷ []
place c (d ∷ rest) = if leb c.open_time d.open_time then c ∷ d ∷ rest else d ∷ place c rest

unfoldable pub sorted : List Candle → List Candle
sorted [] = []
sorted (c ∷ rest) = place c (sorted rest)

abbrev pub has_time : ℕ → List ℕ → Bool
has_time t [] = false
has_time t (seen ∷ times) = nat_beq t seen || has_time t times

-- The loop over `cursor`. It gains at least 1 with each step, so that `ts - cursor` steps are enough.
unfoldable pub missing_from : ℕ → ℕ → ℕ → ℕ → List ℕ
missing_from no_fuel delta cursor ts = []
missing_from (suc fuel) delta cursor ts =
    let rest = missing_from fuel delta (cursor + delta) ts in
    if ltb cursor ts then cursor ∷ rest else []

-- the instants that are missing before a candle, after the one before it
unfoldable pub missing_between : Option ℕ → Option ℕ → ℕ → List ℕ
missing_between none prev ts = []
missing_between (some delta) none ts = []
missing_between (some delta) (some prev) ts =
    missing_from (ts - (prev + delta)) delta (prev + delta) ts

unfoldable pub goes_back : Option ℕ → Option ℕ → ℕ → Bool
goes_back none prev ts = false
goes_back (some delta) none ts = false
goes_back (some delta) (some prev) ts = ltb ts (prev + delta)

unfoldable pub missing_issue : ℕ → ℕ → ValidationIssue
missing_issue index t = record { code = missing_candle; index = some index }

-- The issues of the sorted candles; `prev` is the instant of the candle before, `seen` all of them.
unfoldable pub walk : Option ℕ → ℕ → List ℕ → Option ℕ → List Candle → List ValidationIssue
walk delta index seen prev [] = []
walk delta index seen prev (c ∷ rest) =
    validate_ohlc_sanity c index
    ++ (issue_if (has_time c.open_time seen) duplicate_candle index
        ++ (map (missing_issue index) (missing_between delta prev c.open_time)
            ++ (issue_if (goes_back delta prev c.open_time) continuity_regression index
                ++ walk delta (index + 1) (c.open_time ∷ seen) (some c.open_time) rest)))

unfoldable pub missing_times : Option ℕ → Option ℕ → List Candle → List ℕ
missing_times delta prev [] = []
missing_times delta prev (c ∷ rest) =
    missing_between delta prev c.open_time ++ missing_times delta (some c.open_time) rest

unfoldable pub duplicate_times : List ℕ → List Candle → List ℕ
duplicate_times seen [] = []
duplicate_times seen (c ∷ rest) =
    let later = duplicate_times (c.open_time ∷ seen) rest in
    if has_time c.open_time seen then c.open_time ∷ later else later

unfoldable pub timeframe_issues : Option ℕ → List ValidationIssue
timeframe_issues none = record { code = unsupported_timeframe; index = none } ∷ []
timeframe_issues (some delta) = []

abbrev pub no_issues : List ValidationIssue → Bool
no_issues [] = true
no_issues (i ∷ rest) = false

-- `timeframe or candles[0].timeframe`
abbrev pub timeframe_of : Option String → Candle → String
timeframe_of none first = first.timeframe
timeframe_of (some tf) first = if tf == "" then first.timeframe else tf

unfoldable pub issues_of : Option ℕ → List Candle → List ValidationIssue
issues_of delta candles = timeframe_issues delta ++ walk delta 0 [] none (sorted candles)

-- without `raise_on_error`
unfoldable pub validate_candles : List Candle → Option String → ValidationResult
validate_candles [] timeframe = record {
  ok = true;
  issues = [];
  missing_timestamps = [];
  duplicate_timestamps = [];
}
validate_candles (first ∷ rest) timeframe =
    let delta = timeframe_delta (timeframe_of timeframe first) in
    let issues = issues_of delta (first ∷ rest) in
    record {
      ok = no_issues issues;
      issues = issues;
      missing_timestamps = missing_times delta none (sorted (first ∷ rest));
      duplicate_timestamps = duplicate_times [] (sorted (first ∷ rest));
    }

-- with `raise_on_error`; none stands for `CandleValidationError`
unfoldable pub validate_or_raise : List Candle → Option String → Option ValidationResult
validate_or_raise candles timeframe =
    let result = validate_candles candles timeframe in if result.ok then some result else none
