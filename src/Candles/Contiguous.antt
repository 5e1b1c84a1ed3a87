-- ===== src/Candles/Contiguous.antt =====
-- The candles behind a validation without issues.
use live_auto_trading.Prelude.{
  ℕ, ◌+◌, ◌-◌, ◌<◌, ◌≤◌, ap, zero as no_fuel, suc, ◌≡◌, refl, sym, String, Bool, true, false, ◌||◌,
  Option, none, some, List, [], ◌∷◌, ◌++◌, ◌∙◌, map, arith, ltb, ltb→lt, Bool-cases, inl, inr,
  if◌then◌else◌,
}
use mathlib.Core.Bool.{false≢true}
use live_auto_trading.Decimal.{zero, lt}
use live_auto_trading.Dict.{All}
use live_auto_trading.Domain.Market.{Candle}
use live_auto_trading.Candles.Validate.{
  IssueCode, ohlc_low_invalid, ohlc_high_invalid, ohlc_high_lt_low, volume_negative, price_negative,
  duplicate_candle, continuity_regression, ValidationIssue, issue_if, validate_ohlc_sanity, sorted,
  has_time, missing_from, missing_between, goes_back, missing_issue, walk, timeframe_issues,
  timeframe_of, timeframe_delta, no_issues, issues_of, validate_candles,
}

-- The low is at most the open and the close, the high at least, and nothing is negative.
pub record IsSane (c : Candle) : Type 0 where
  pub low : (lt c.open_price c.low || lt c.close c.low) ≡ false
  pub high : (lt c.high c.open_price || lt c.high c.close) ≡ false
  pub volume : lt c.volume zero ≡ false
  pub price : lt c.low zero ≡ false

-- Each candle opens exactly one interval after the one before it.
abbrev pub AreContiguous : ℕ → Option ℕ → List Candle → Type 0
AreContiguous delta prev [] = Unit
AreContiguous delta none (c ∷ rest) = AreContiguous delta (some c.open_time) rest
AreContiguous delta (some prev) (c ∷ rest) =
    (c.open_time ≡ prev + delta) × AreContiguous delta (some c.open_time) rest

abbrev IsQuiet : List ValidationIssue → Type 0
IsQuiet is = no_issues is ≡ true

append-IsQuiet : (is js : List ValidationIssue) → IsQuiet (is ++ js) → IsQuiet is × IsQuiet js
append-IsQuiet [] js h = (refl, h)
append-IsQuiet (i ∷ is) js h = absurd (false≢true h)

issue_last-IsQuiet :
    (c : Bool) (code : IssueCode) (index : ℕ) → IsQuiet (issue_if c code index) → c ≡ false
unfolding issue_if
issue_last-IsQuiet true code index h = sym h
issue_last-IsQuiet false code index h = refl

issue-IsQuiet :
    (c : Bool) (code : IssueCode) (index : ℕ) (js : List ValidationIssue)
    → IsQuiet (issue_if c code index ++ js)
    → (c ≡ false) × IsQuiet js
issue-IsQuiet c code index js h =
    let (first, later) = append-IsQuiet (issue_if c code index) js h in
    (issue_last-IsQuiet c code index first, later)

ohlc-IsSane : (c : Candle) (index : ℕ) → IsQuiet (validate_ohlc_sanity c index) → IsSane c
unfolding validate_ohlc_sanity
ohlc-IsSane c index h =
    let (low, h1) =
      issue-IsQuiet (lt c.open_price c.low || lt c.close c.low) ohlc_low_invalid index _ h in
    let (high, h2) =
      issue-IsQuiet (lt c.high c.open_price || lt c.high c.close) ohlc_high_invalid index _ h1 in
    let (_, h3) = issue-IsQuiet (lt c.high c.low) ohlc_high_lt_low index _ h2 in
    let (volume, h4) = issue-IsQuiet (lt c.volume zero) volume_negative index _ h3 in
    let price = issue_last-IsQuiet _ price_negative index h4 in
    record { low = low; high = high; volume = volume; price = ground arith }

-- Where nothing is missing before a candle, it does not open too late.
on_time :
    (fuel delta cursor ts index : ℕ)
    → 0 < fuel
    → IsQuiet (map (missing_issue index) (missing_from fuel delta cursor ts))
    → ltb cursor ts ≡ false
unfolding missing_from
on_time no_fuel delta cursor ts index h k = absurd (omega (arith, h))
on_time (suc fuel) delta cursor ts index h k = late (ltb cursor ts) k
  where
    late :
        (c : Bool)
        → IsQuiet (
            map
              (missing_issue index)
              (if c then cursor ∷ missing_from fuel delta (cursor + delta) ts else []))
        → c ≡ false
    late true q = sym q
    late false q = refl

exact :
    (delta prev ts index : ℕ)
    → IsQuiet (map (missing_issue index) (missing_between (some delta) (some prev) ts))
    → goes_back (some delta) (some prev) ts ≡ false
    → ts ≡ prev + delta
unfolding missing_between goes_back
exact delta prev ts index q b = elim (Bool-cases (ltb (prev + delta) ts)) [
  | inl e ↦ absurd (
      false≢true (
        sym (
          on_time (ts - (prev + delta)) delta (prev + delta) ts index
            (ground (arith, ltb→lt (prev + delta) ts e)) q)
        ∙ e))
  | inr e ↦ ground arith
]

walk-AreContiguous :
    (delta index : ℕ) (seen : List ℕ) (prev : Option ℕ) (cs : List Candle)
    → IsQuiet (walk (some delta) index seen prev cs)
    → All IsSane cs × AreContiguous delta prev cs
unfolding walk
walk-AreContiguous delta index seen prev [] h = (tt, tt)
walk-AreContiguous delta index seen prev (c ∷ rest) h =
    let (sane, h1) = append-IsQuiet (validate_ohlc_sanity c index) _ h in
    let (_, h2) = issue-IsQuiet (has_time c.open_time seen) duplicate_candle index _ h1 in
    let (none_missing, h3) =
      append-IsQuiet (map (missing_issue index) (missing_between (some delta) prev c.open_time)) _
        h2 in
    let (forward, h4) =
      issue-IsQuiet (goes_back (some delta) prev c.open_time) continuity_regression index _ h3 in
    let (sane_rest, after) =
      walk-AreContiguous delta (index + 1) (c.open_time ∷ seen) (some c.open_time) rest h4 in
    ((ohlc-IsSane c index sane, sane_rest), next prev none_missing forward after)
  where
    next :
        (p : Option ℕ)
        → IsQuiet (map (missing_issue index) (missing_between (some delta) p c.open_time))
        → goes_back (some delta) p c.open_time ≡ false
        → AreContiguous delta (some c.open_time) rest
        → AreContiguous delta p (c ∷ rest)
    next none q b k = k
    next (some p) q b k = (exact delta p c.open_time index q b, k)

-- What the validation says of a list of candles: the timeframe is known, and in the order of their
-- instants all candles are sane and contiguous.
pub record IsValid (timeframe : String) (candles : List Candle) : Type 0 where
  pub delta : ℕ
  pub known : timeframe_delta timeframe ≡ some delta
  pub sane : All IsSane (sorted candles)
  pub contiguous : AreContiguous delta none (sorted candles)

-- Candles that are validated without an issue are of a known timeframe; sorted by their instants,
-- each is sane (low and high bound the open and the close, nothing negative) and opens exactly one
-- interval after the one before it, so that none is missing or there twice.
pub validate-IsValid :
    (first : Candle) (rest : List Candle) (timeframe : Option String)
    → (validate_candles (first ∷ rest) timeframe).ok ≡ true
    → IsValid (timeframe_of timeframe first) (first ∷ rest)
unfolding validate_candles issues_of timeframe_issues
validate-IsValid first rest timeframe h =
    known (timeframe_delta (timeframe_of timeframe first)) refl h
  where
    known :
        (d : Option ℕ)
        → timeframe_delta (timeframe_of timeframe first) ≡ d
        → IsQuiet (issues_of d (first ∷ rest))
        → IsValid (timeframe_of timeframe first) (first ∷ rest)
    known none e q = absurd (
        false≢true
          (append-IsQuiet (timeframe_issues none) (walk none 0 [] none (sorted (first ∷ rest)))
            q).0)
    known (some delta) e q =
        let (_, quiet) =
          append-IsQuiet (timeframe_issues (some delta))
            (walk (some delta) 0 [] none (sorted (first ∷ rest))) q in
        let (sane, contiguous) = walk-AreContiguous delta 0 [] none (sorted (first ∷ rest)) quiet in
        record { delta = delta; known = e; sane = sane; contiguous = contiguous }

if_lt :
    (cursor ts : ℕ) (xs ys : List ℕ)
    → (cursor < ts → xs ≡ ys)
    → (if ltb cursor ts then cursor ∷ xs else []) ≡ (if ltb cursor ts then cursor ∷ ys else [])
if_lt cursor ts xs ys h = elim (Bool-cases (ltb cursor ts)) [
  | inl e ↦ ap (λ zs. if ltb cursor ts then cursor ∷ zs else []) (h (ltb→lt cursor ts e))
  | inr e ↦ rw e refl
]

past_end : (extra delta cursor ts : ℕ) → ts ≤ cursor → missing_from extra delta cursor ts ≡ []
unfolding missing_from
past_end no_fuel delta cursor ts h = refl
past_end (suc extra) delta cursor ts h = ground arith

more_fuel :
    (fuel extra delta cursor ts : ℕ)
    → 0 < delta
    → ts ≤ cursor + fuel
    → missing_from (fuel + extra) delta cursor ts ≡ missing_from fuel delta cursor ts
unfolding missing_from
more_fuel no_fuel extra delta cursor ts d h =
    past_end (no_fuel + extra) delta cursor ts (omega (arith, h))
more_fuel (suc fuel) extra delta cursor ts d h =
    let step : suc fuel + extra ≡ suc (fuel + extra) = omega arith in
    rw step (
      if_lt cursor ts _ _
        λ less. more_fuel fuel extra delta (cursor + delta) ts d (omega (arith, h, d)))

-- The search for missing candles ends: after `ts - cursor` steps of a positive interval, the loop has
-- found every instant, and any number of further steps changes nothing.
pub missing_from-enough :
    (delta cursor ts extra : ℕ)
    → 0 < delta
    → missing_from (ts - cursor + extra) delta cursor ts
      ≡ missing_from (ts - cursor) delta cursor ts
missing_from-enough delta cursor ts extra d =
    more_fuel (ts - cursor) extra delta cursor ts d (omega arith)
