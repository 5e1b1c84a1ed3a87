-- ===== src/Risk/Facts.antt =====
-- What the risk engine reads off its context, written out.
use live_auto_trading.Prelude.{
  ℕ, ◌+◌, ◌*◌, ◌≤◌, string_key, ◌==◌, ◌≡◌, ◌⊎◌, refl, inl, inr, String, Bool, true, false, not,
  ◌&&◌, Option, none, some, List, [], ◌∷◌, map, ltb, if◌then◌else◌, arith, Bool-cases,
}
use live_auto_trading.Decimal.{Decimal, zero, add, mul, le, truthy, sum_from}
use live_auto_trading.Decimal.Sign.{IsPositive, IsPositive-of_le-zero}
use live_auto_trading.Domain.Trading.{Position, PortfolioState}
use live_auto_trading.Risk.State.{RiskEngineState, RiskContext, Settings}
use live_auto_trading.Risk.Gates.{holds_long, is_stale, first_known}
use live_auto_trading.Risk.Limits.{equity_of, marked_value, open_notional}

-- A positive quantity of the symbol is among the positions.
abbrev pub Holds : String → List Position → Type 0
Holds symbol [] = true ≡ false
Holds symbol (p ∷ ps) = ((p.symbol ≡ symbol) × IsPositive p.quantity) ⊎ Holds symbol ps

pub holds_long-Holds :
    (symbol : String) (ps : List Position) → holds_long symbol ps ≡ true → Holds symbol ps
unfolding holds_long
holds_long-Holds symbol [] h = cc
holds_long-Holds symbol (p ∷ ps) h =
    elim (Bool-cases (p.symbol == symbol && not (le p.quantity zero))) [
      | inl e ↦ inl (
        (string_key.decides p.symbol symbol).0 (first (p.symbol == symbol) _ e),
        IsPositive-of_le-zero p.quantity (second (p.symbol == symbol) _ e),
      )
      | inr e ↦ inr (holds_long-Holds symbol ps (rw e at h))
    ]
  where
    first : (c d : Bool) → (c && not d) ≡ true → c ≡ true
    first c d e = ground arith

    second : (c d : Bool) → (c && not d) ≡ true → d ≡ false
    second c d e = ground arith

-- The data have no time, or are at most `market_data_stale_seconds` old.
abbrev pub IsFresh : Settings → ℕ → Option ℕ → Type 0
IsFresh settings now ts =
    (ts ≡ none)
    ⊎ ((t : ℕ) × (ts ≡ some t) × (now ≤ t + settings.market_data_stale_seconds * 1_000_000))

pub stale-IsFresh :
    (settings : Settings) (context : RiskContext) (s : RiskEngineState) (now : ℕ)
    → is_stale settings context s now ≡ false
    → IsFresh settings now (first_known context.market_data_ts s.last_market_data_ts)
unfolding is_stale
stale-IsFresh settings context s now h =
    by_time (first_known context.market_data_ts s.last_market_data_ts) h
  where
    by_time :
        (ts : Option ℕ)
        → (elim ts [
          | none ↦ false
          | some t ↦ ltb (t + settings.market_data_stale_seconds * 1_000_000) now
        ])
          ≡ false
        → IsFresh settings now ts
    by_time none e = inl refl
    by_time (some t) e = inr (t, refl, ground arith)

-- the equity, or the cash balance where there is no positive equity
abbrev pub IsEquity : PortfolioState → Decimal → Type 0
IsEquity p equity =
    ((le p.equity zero ≡ false) × (equity ≡ p.equity))
    ⊎ ((le p.equity zero ≡ true) × (equity ≡ p.cash_balance))

pub equity_of-IsEquity : (p : PortfolioState) → IsEquity p (equity_of p)
unfolding equity_of
equity_of-IsEquity p = elim (Bool-cases (le p.equity zero)) [
  | inl e ↦ inr (e, rw e refl)
  | inr e ↦ inl (e, rw e refl)
]

abbrev pub price_of : Option Decimal → Position → Decimal
price_of none p = p.current_price
price_of (some mark) p = if truthy mark then mark else p.current_price

-- the value of the positions at the mark, or at their own prices without one
abbrev pub exposure : Option Decimal → Decimal → List Position → Decimal
exposure mark total [] = total
exposure mark total (p ∷ ps) = exposure mark (add total (mul p.quantity (price_of mark p))) ps

pub open_notional-exposure :
    (context : RiskContext)
    → open_notional context ≡ exposure context.mark_price zero context.portfolio.open_positions
unfolding open_notional sum_from
open_notional-exposure context = summed context.mark_price zero context.portfolio.open_positions
  where
    summed :
        (mark : Option Decimal) (total : Decimal) (ps : List Position)
        → sum_from total (map (marked_value mark) ps) ≡ exposure mark total ps
    summed mark total [] = refl
    summed none total (p ∷ ps) = summed none (add total (mul p.quantity p.current_price)) ps
    summed (some m) total (p ∷ ps) =
        summed (some m) (add total (mul p.quantity (if truthy m then m else p.current_price))) ps
