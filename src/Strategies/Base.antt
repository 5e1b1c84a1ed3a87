-- ===== src/Strategies/Base.antt =====
-- app/strategies/base.py: the interface of a strategy, and what the strategies share. The portfolio of
-- a context, which no strategy reads, is left out; the only indicator that one reads is `bars_held`.
use live_auto_trading.Prelude.{
  ℕ, ◌-◌, String, Bool, false, Option, none, some, List, [], ◌∷◌, length, get_elem?,
}
use live_auto_trading.Integer.{pos}
use live_auto_trading.Decimal.{Decimal, zero, lt}
use live_auto_trading.Domain.Enums.{SignalDirection}
use live_auto_trading.Domain.Market.{Candle}
use live_auto_trading.Domain.Trading.{Position, TradeSignal}

pub record StrategyContext : Type 0 where
  pub candles : List Candle
  pub position : Option Position
  pub bars_held : ℕ

-- `evaluate` returns a signal, or raises (`none`).
pub record Strategy : Type 0 where
  pub strategy_id : String
  pub name : String
  pub evaluate : StrategyContext → Option TradeSignal

-- the last candle
abbrev pub last_candle : List Candle → Option Candle
last_candle [] = none
last_candle (c ∷ []) = some c
last_candle (c ∷ d ∷ rest) = last_candle (d ∷ rest)

-- `text` formats the last candle and the number of candles, beside the parameters.
unfoldable pub fingerprint : (Candle → ℕ → String) → List Candle → String
fingerprint text candles = elim (last_candle candles) [
  | none ↦ "empty"
  | some last ↦ text last (length candles)
]

unfoldable pub symbol_of : List Candle → String
symbol_of candles = elim (last_candle candles) [ none ↦ "UNKNOWN" | some last ↦ last.symbol ]

-- `position is not None and position.quantity > 0`
unfoldable pub has_long : Option Position → Bool
has_long none = false
has_long (some p) = lt zero p.quantity

-- A signal of a strategy, over the candles of its context.
pub record Signals : Type 0 where
  pub strategy_name : String
  pub text : Candle → ℕ → String
  pub candles : List Candle

unfoldable pub signal :
    Signals
    → SignalDirection
    → Decimal
    → Option Decimal
    → Option Decimal
    → Option Decimal
    → TradeSignal
signal s direction confidence entry stop target = record {
  strategy_name = s.strategy_name;
  symbol = symbol_of s.candles;
  direction = direction;
  confidence = confidence;
  suggested_entry = entry;
  suggested_stop = stop;
  suggested_target = target;
  input_data_fingerprint = fingerprint s.text s.candles;
}

-- HOLD, with nothing suggested
abbrev pub hold : Signals → Decimal → Option TradeSignal
hold s confidence = some (signal s SignalDirection.hold confidence none none none)

-- `series[i]` at the last index, and at the one before it; at index 0 that is `series[-1]`, the same
-- item of a series of one.
abbrev pub last_at : {A : Type 0} → List A → Option A
last_at xs = get_elem? xs (length xs - 1)

abbrev pub before_last_at : {A : Type 0} → List A → Option A
before_last_at xs = get_elem? xs (length xs - 1 - 1)

-- the confidence of most holds
abbrev pub half : Decimal
half = record { coeff = pos 5; places = 1 }
