-- ===== src/Backtest/Causal.antt =====
-- A backtest at a bar, and the bars after it.
use live_auto_trading.Prelude.{
  ℕ, ◌≡◌, refl, sym, ap, ◌∙◌, Bool, true, false, Option, none, some, List, [], ◌∷◌, ◌++◌, ltb,
  IsPrefix, append-nil, append_assoc, if◌then◌else◌,
}
use live_auto_trading.Prelude.Options.{
  ◌>>=◌, Ensures, some-Ensures, if-Ensures, >>=-Ensures, >>=-Ensures_with, >>=-eq_some,
}
use live_auto_trading.Decimal.{Decimal, zero, add, mul, le, lt}
use live_auto_trading.Domain.Enums.{OrderSide, SignalDirection}
use live_auto_trading.Domain.Market.{Candle}
use live_auto_trading.Domain.Trading.{Position, TradeSignal}
use live_auto_trading.Strategies.Base.{Strategy}
use live_auto_trading.Backtest.Engine.{
  BacktestConfig, Reason, BacktestTrade, Held, Run, Costs, apply_costs, size_position,
  check_stop_take, with_closed, close_at, leave_at, stop_or_take, mark_held, note_equity, buy,
  entered, on_signal, step, bars, start,
}

prefix_trans : {A : Type 0} {xs ys zs : List A} → IsPrefix xs ys → IsPrefix ys zs → IsPrefix xs zs
prefix_trans {xs} p q = record {
  rest = p.rest ++ q.rest;
  split = q.split ∙ (ap (λ l. l ++ q.rest) p.split ∙ append_assoc xs p.rest q.rest);
}

prefix_refl : {A : Type 0} (xs : List A) → IsPrefix xs xs
prefix_refl xs = record { rest = []; split = sym (append-nil xs) }

-- The second run has the trades and the curve of the first, and perhaps more.
pub record Extends (r r' : Run) : Type 0 where
  pub trades : IsPrefix r.trades r'.trades
  pub equity_curve : IsPrefix r.equity_curve r'.equity_curve

same : (r : Run) → Extends r r
same r = record { trades = prefix_refl r.trades; equity_curve = prefix_refl r.equity_curve }

further : {r s t : Run} → Extends r s → Extends s t → Extends r t
further p q = record {
  trades = prefix_trans p.trades q.trades;
  equity_curve = prefix_trans p.equity_curve q.equity_curve;
}

with_closed-IsPrefix :
    (fill : Costs) (p : Position) (time : ℕ) (reason : Reason) (t : Option BacktestTrade)
    (trades : List BacktestTrade)
    → IsPrefix trades (with_closed fill p time reason t trades)
with_closed-IsPrefix fill p time reason none trades = prefix_refl trades
with_closed-IsPrefix fill p time reason (some t) trades = record { rest = _; split = refl }

close_at-Extends :
    (config : BacktestConfig) (price : Decimal) (reason : Reason) (time : ℕ) (p : Position)
    (r : Run)
    → Ensures (Extends r) (close_at config price reason time p r)
unfolding close_at
close_at-Extends config price reason time p r =
    >>=-Ensures (apply_costs config price OrderSide.sell) _ (λ fill. some-Ensures _ (record {
      trades = with_closed-IsPrefix fill p time reason r.open_trade r.trades;
      equity_curve = prefix_refl r.equity_curve;
    }))

stop_or_take-Extends :
    (config : BacktestConfig) (bar : Candle) (h : Option Held) (r : Run)
    → Ensures (Extends r) (stop_or_take config bar h r)
unfolding stop_or_take
stop_or_take-Extends config bar none r = some-Ensures r (same r)
stop_or_take-Extends config bar (some h) r =
    if-Ensures (ltb h.opened_at bar.open_time) (λ e. left (check_stop_take h.position bar))
      (λ e. some-Ensures r (same r))
  where
    left :
        (exit : Option (Decimal × Reason))
        → Ensures (Extends r) (leave_at config bar h.position exit r)
    left none = some-Ensures r (same r)
    left (some (price, reason)) = close_at-Extends config price reason bar.open_time h.position r

noted-Extends :
    (bar : Candle) (h : Option Held) (r : Run)
    → Extends r (note_equity bar (mark_held bar.close h r))
unfolding note_equity mark_held
noted-Extends bar none r = record {
  trades = prefix_refl r.trades;
  equity_curve = record { rest = _; split = refl };
}
noted-Extends bar (some h) r = record {
  trades = prefix_refl r.trades;
  equity_curve = record { rest = _; split = refl };
}

on_signal-Extends :
    (config : BacktestConfig) (strategy : Strategy) (bar : Candle) (signal : TradeSignal)
    (direction : SignalDirection) (h : Option Held) (r : Run)
    → Ensures (Extends r) (on_signal config strategy bar signal direction h r)
unfolding on_signal buy
on_signal-Extends config strategy bar signal SignalDirection.buy none r =
    >>=-Ensures (size_position config r.cash bar.close) _ (λ qty.
      if-Ensures (lt zero qty)
        (λ e. >>=-Ensures (apply_costs config bar.close OrderSide.buy) _ (λ fill.
          some-Ensures _
            (either (le (add (mul fill.price qty) (mul fill.fee qty)) r.cash) qty fill)))
        (λ e. some-Ensures r (same r)))
  where
    either :
        (c : Bool) (qty : Decimal) (fill : Costs)
        → Extends r (if c then entered strategy bar signal qty fill r else r)
    either true qty fill = record {
      trades = prefix_refl r.trades;
      equity_curve = prefix_refl r.equity_curve;
    }
    either false qty fill = same r
on_signal-Extends config strategy bar signal SignalDirection.sell (some h) r =
    close_at-Extends config bar.close _ bar.open_time h.position r
on_signal-Extends config strategy bar signal SignalDirection.exit (some h) r =
    close_at-Extends config bar.close _ bar.open_time h.position r
on_signal-Extends config strategy bar signal SignalDirection.buy (some h) r =
    some-Ensures r (same r)
on_signal-Extends config strategy bar signal SignalDirection.sell none r = some-Ensures r (same r)
on_signal-Extends config strategy bar signal SignalDirection.exit none r = some-Ensures r (same r)
on_signal-Extends config strategy bar signal SignalDirection.hold none r = some-Ensures r (same r)
on_signal-Extends config strategy bar signal SignalDirection.hold (some h) r =
    some-Ensures r (same r)

module _ (config : BacktestConfig) (strategy : Strategy) where
  step-Extends :
      (window : List Candle) (bar : Candle) (r : Run)
      → Ensures (Extends r) (step config strategy window bar r)
  unfolding step
  step-Extends window bar r =
      >>=-Ensures_with (stop_or_take config bar r.held r) _
        (stop_or_take-Extends config bar r.held r)
        (λ left e.
          let noted = note_equity bar (mark_held bar.close left.held left) in
          let so_far = further e (noted-Extends bar left.held left) in
          >>=-Ensures (strategy.evaluate _) _ (λ signal.
            onward so_far
              (on_signal-Extends config strategy bar signal signal.direction noted.held noted)))
    where
      onward :
          {s : Run} {m : Option Run} → Extends r s → Ensures (Extends s) m → Ensures (Extends r) m
      onward p q = record { holds = λ t e. further p (q.holds t e) }

  bars-Extends :
      (seen candles : List Candle) (r : Run)
      → Ensures (Extends r) (bars config strategy seen candles r)
  unfolding bars
  bars-Extends seen [] r = some-Ensures r (same r)
  bars-Extends seen (bar ∷ rest) r =
      >>=-Ensures_with (step config strategy (seen ++ bar ∷ []) bar r) _ (step-Extends _ bar r)
        (λ r' e. record {
          holds = λ t f. further e ((bars-Extends (seen ++ bar ∷ []) rest r').holds t f);
        })

  -- The loop over more candles is the loop over the first ones, and then over the others.
  bars-append :
      (seen xs ys : List Candle) (r : Run)
      → bars config strategy seen (xs ++ ys) r
        ≡ (bars config strategy seen xs r >>= λ r'. bars config strategy (seen ++ xs) ys r')
  unfolding bars
  bars-append seen [] ys r = ap (λ s. bars config strategy s ys r) (sym (append-nil seen))
  bars-append seen (bar ∷ xs) ys r =
      onward (step config strategy (seen ++ bar ∷ []) bar r)
        (λ r'. bars-append (seen ++ bar ∷ []) xs ys r')
    where
      onward :
          (m : Option Run)
          → ((r' : Run)
              → bars config strategy (seen ++ bar ∷ []) (xs ++ ys) r' ≡ (
                  bars config strategy (seen ++ bar ∷ []) xs r' >>= λ t.
                  bars config strategy ((seen ++ bar ∷ []) ++ xs) ys t))
          → (m >>= λ r'. bars config strategy (seen ++ bar ∷ []) (xs ++ ys) r') ≡ (
              (m >>= λ r'. bars config strategy (seen ++ bar ∷ []) xs r') >>= λ r'.
              bars config strategy (seen ++ bar ∷ xs) ys r')
      onward none later = refl
      onward (some r') later =
          later r'
          ∙ ap
              (λ s.
                bars config strategy (seen ++ bar ∷ []) xs r' >>= λ t. bars config strategy s ys t)
              (append_assoc seen (bar ∷ []) xs)

  -- No look-ahead: if the loop over `xs` and later candles returns, so does the loop over `xs` alone, and
  -- the trades and the equity curve that it has noted are the first ones of the longer run.
  pub bars_causal :
      (xs ys : List Candle) {r : Run}
      → bars config strategy [] (xs ++ ys) (start config) ≡ some r
      → (r' : Run) × (bars config strategy [] xs (start config) ≡ some r') × Extends r' r
  bars_causal xs ys {r} h =
      let (r', e, f) =
        >>=-eq_some (bars config strategy [] xs (start config)) _
          (sym (bars-append [] xs ys (start config)) ∙ h) in
      (r', e, (bars-Extends xs ys r').holds r f)
