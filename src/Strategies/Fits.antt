-- ===== src/Strategies/Fits.antt =====
-- The signals of the strategies, against the position they are given.
use live_auto_trading.Prelude.{
  ◌≡◌, refl, String, Bool, true, false, not, ◌&&◌, Option, none, some, if◌then◌else◌,
}
use live_auto_trading.Prelude.Options.{Ensures, some-Ensures, if-Ensures}
use live_auto_trading.Decimal
use live_auto_trading.Decimal.{Decimal, zero, one, le}
use live_auto_trading.Domain.Enums.{SignalDirection}
use live_auto_trading.Domain.Trading.{TradeSignal}
use live_auto_trading.Strategies.Base.{
  StrategyContext, Strategy, Signals, signal, symbol_of, has_long, half,
}

-- A strategy opens where nothing is held, and closes what is held.
abbrev pub permitted : Bool → SignalDirection → Bool
permitted long SignalDirection.buy = not long
permitted long SignalDirection.sell = long
permitted long SignalDirection.exit = long
permitted long SignalDirection.hold = true

-- A signal fits the position that its strategy was shown, is about the symbol of the last candle, and
-- its confidence lies between 0 and 1.
pub record Fits (name symbol : String) (long : Bool) (t : TradeSignal) : Type 0 where
  pub timely : permitted long t.direction ≡ true
  pub named : t.strategy_name ≡ name
  pub about : t.symbol ≡ symbol
  pub confident : (le zero t.confidence && le t.confidence one) ≡ true

abbrev pub IsLongOnly : Strategy → Type 0
IsLongOnly s =
    (context : StrategyContext)
    → Ensures (Fits s.name (symbol_of context.candles) (has_long context.position))
        (s.evaluate context)

-- The last conjunct of a condition.
pub last_holds : (c d : Bool) → (c && d) ≡ true → d ≡ true
last_holds true d h = h
last_holds false d h = cc

pub half_ok : (le zero half && le half one) ≡ true
unfolding le Decimal.aligned
half_ok = refl

pub zero_ok : (le zero zero && le zero one) ≡ true
unfolding le Decimal.aligned
zero_ok = refl

pub one_ok : (le zero one && le one one) ≡ true
unfolding le Decimal.aligned
one_ok = refl

module _ (s : Signals) where
  -- The last candle names the symbol of a signal, whichever it is.
  pub signal-Fits :
      (long : Bool) (direction : SignalDirection) (confidence : Decimal)
      (entry stop target : Option Decimal)
      → permitted long direction ≡ true
      → (le zero confidence && le confidence one) ≡ true
      → Fits s.strategy_name
          (symbol_of s.candles)
          long
          (signal s direction confidence entry stop target)
  unfolding signal
  signal-Fits long direction confidence entry stop target h k = record {
    timely = h;
    named = refl;
    about = refl;
    confident = k;
  }

  pub hold-Fits :
      (long : Bool) (confidence : Decimal)
      → (le zero confidence && le confidence one) ≡ true
      → Ensures
          (Fits s.strategy_name (symbol_of s.candles) long)
          (some (signal s SignalDirection.hold confidence none none none))
  hold-Fits long confidence h =
      some-Ensures _ (signal-Fits long SignalDirection.hold confidence none none none refl h)

  -- The three ways a strategy ends: it buys, it sells what it holds, or it holds on.
  pub three_ways-Fits :
      (long up down : Bool) (entry : Option TradeSignal)
      → ((up && not long) ≡ true → Ensures (Fits s.strategy_name (symbol_of s.candles) long) entry)
      → Ensures (Fits s.strategy_name (symbol_of s.candles) long) (
          if up && not long
          then entry
          else if down && long
          then some (signal s SignalDirection.sell one none none none)
          else some (signal s SignalDirection.hold half none none none))
  three_ways-Fits long up down entry h = if-Ensures (up && not long) h (λ k.
      if-Ensures (down && long)
        (λ l. some-Ensures _ (
          signal-Fits long SignalDirection.sell one none none none (last_holds down long l) one_ok))
        (λ l. hold-Fits long half half_ok))

  -- A purchase at `close` fits an empty position.
  pub buy-Fits :
      (up long : Bool) (entry stop target : Option Decimal)
      → (up && not long) ≡ true
      → Ensures
          (Fits s.strategy_name (symbol_of s.candles) long)
          (some (signal s SignalDirection.buy one entry stop target))
  buy-Fits up long entry stop target h = some-Ensures _ (
      signal-Fits long SignalDirection.buy one entry stop target (last_holds up (not long) h)
        one_ok)
