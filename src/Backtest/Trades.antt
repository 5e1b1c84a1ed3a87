-- ===== src/Backtest/Trades.antt =====
-- The books of a backtest: its trades and its cash.
use live_auto_trading.Prelude.{
  ℕ, ◌≡◌, refl, sym, ◌∙◌, Bool, true, false, Option, none, some, List, [], ◌∷◌, ◌++◌, ltb,
  if◌then◌else◌,
}
use mathlib.Core.Path.{subst}
use mathlib.Core.Bool.{false≢true}
use live_auto_trading.Prelude.Options.{
  Ensures, some-Ensures, if-Ensures, >>=-Ensures, >>=-Ensures_with,
}
use live_auto_trading.Decimal.{Decimal, zero, two, add, sub, mul, div, le, lt}
use live_auto_trading.Dict.{All}
use live_auto_trading.Domain.Enums.{OrderSide, SignalDirection}
use live_auto_trading.Domain.Market.{Candle}
use live_auto_trading.Domain.Trading.{TradeSignal}
use live_auto_trading.Strategies.Base.{Strategy}
use live_auto_trading.Backtest.Engine.{
  BacktestConfig, Reason, BacktestTrade, Held, Run, Costs, apply_costs, size_position,
  check_stop_take, with_closed, closed_trade, sold, close_at, leave_at, stop_or_take, mark_held,
  marked, note_equity, buy, entered, on_signal, step, bars, start, force_close, last_of, run,
}

-- A closed trade has a time and a price of exit, and its profit is the difference of its prices on its
-- quantity, less the fee of the sale.
pub record IsClosed (config : BacktestConfig) (t : BacktestTrade) : Type 0 where
  pub time : ℕ
  pub price : Decimal
  pub exit_time : t.exit_time ≡ some time
  pub exit_price : t.exit_price ≡ some price
  pub pnl :
      t.pnl
      ≡ sub (mul (sub price t.entry_price) t.quantity) (mul (mul price config.fee_rate) t.quantity)

-- the cash after the purchase of a trade
abbrev pub paid : BacktestConfig → BacktestTrade → Decimal → Decimal
paid config t cash =
    sub cash
      (add (mul t.entry_price t.quantity) (mul (mul t.entry_price config.fee_rate) t.quantity))

-- the cash after the sale of a trade
abbrev pub received : BacktestConfig → BacktestTrade → Option Decimal → Decimal → Decimal
received config t none cash = cash
received config t (some price) cash =
    add cash (sub (mul price t.quantity) (mul (mul price config.fee_rate) t.quantity))

-- The cash that trades lead to: each is paid for, and sold again.
unfoldable pub settle : BacktestConfig → List BacktestTrade → Decimal → Decimal
settle config [] cash = cash
settle config (t ∷ ts) cash = settle config ts (received config t t.exit_price (paid config t cash))

settle-snoc :
    (config : BacktestConfig) (ts : List BacktestTrade) (t : BacktestTrade) (cash : Decimal)
    → settle config (ts ++ t ∷ []) cash
      ≡ received config t t.exit_price (paid config t (settle config ts cash))
unfolding settle
settle-snoc config [] t cash = refl
settle-snoc config (u ∷ ts) t cash = settle-snoc config ts t _

abbrev pub owed : BacktestConfig → Option BacktestTrade → Decimal → Decimal
owed config none cash = cash
owed config (some t) cash = paid config t cash

-- The open trade is that of the position.
pub record Mirrors (h : Held) (t : BacktestTrade) : Type 0 where
  pub quantity : t.quantity ≡ h.position.quantity
  pub entry_price : t.entry_price ≡ h.position.entry_price
  pub entry_time : t.entry_time ≡ h.opened_at
  pub long : lt zero h.position.quantity ≡ true

-- There is an open trade exactly where there is a position.
abbrev pub Matches : Option Held → Option BacktestTrade → Type 0
Matches none none = Unit
Matches none (some t) = true ≡ false
Matches (some h) none = true ≡ false
Matches (some h) (some t) = Mirrors h t

pub record IsBooked (config : BacktestConfig) (r : Run) : Type 0 where
  pub current : Matches r.held r.open_trade
  pub closed : All (IsClosed config) r.trades
  pub cash : r.cash ≡ owed config r.open_trade (settle config r.trades config.initial_cash)

-- What the trades say: each is closed, and together they explain the cash.
abbrev pub IsSettled : BacktestConfig → Run → Type 0
IsSettled config r =
    All (IsClosed config) r.trades × (r.cash ≡ settle config r.trades config.initial_cash)

All-snoc :
    {A : Type 0} (P : A → Type 0) (xs : List A) (x : A) → All P xs → P x → All P (xs ++ x ∷ [])
All-snoc P [] x h p = (p, tt)
All-snoc P (y ∷ xs) x (first, h) p = (first, All-snoc P xs x h p)

costs_fee :
    (config : BacktestConfig) (price : Decimal) (side : OrderSide)
    → Ensures (λ c. c.fee ≡ mul c.price config.fee_rate) (apply_costs config price side)
unfolding apply_costs
costs_fee config price side =
    >>=-Ensures (div (mul price config.spread_rate) two) _ (λ half. some-Ensures _ refl)

-- A position of the run is sold: its trade goes to the list.
sold-IsSettled :
    (config : BacktestConfig) (fill : Costs) (reason : Reason) (time : ℕ) (h : Held) (r : Run)
    → fill.fee ≡ mul fill.price config.fee_rate
    → Matches (some h) r.open_trade
    → IsBooked config r
    → IsSettled config (sold fill h.position time reason r)
sold-IsSettled config fill reason time h r fee matches b = by_trade r.open_trade matches b.cash
  where
    by_trade :
        (t : Option BacktestTrade)
        → Matches (some h) t
        → r.cash ≡ owed config t (settle config r.trades config.initial_cash)
        → All (IsClosed config) (with_closed fill h.position time reason t r.trades)
          × (add r.cash
                (sub (mul fill.price h.position.quantity) (mul fill.fee h.position.quantity))
              ≡ settle config
                  (with_closed fill h.position time reason t r.trades)
                  config.initial_cash)
    by_trade none m e = absurd (false≢true (sym m))
    by_trade (some t) m e = (
      All-snoc (IsClosed config) r.trades _ b.closed (record {
        time = time;
        price = fill.price;
        exit_time = refl;
        exit_price = refl;
        pnl = rw (m.quantity, m.entry_price, fee) refl;
      }),
      rw
          (
            settle-snoc config r.trades (closed_trade fill h.position time reason t)
                config.initial_cash,
            e,
            fee,
            sym m.quantity,
          )
          refl,
    )

close_at-IsBooked :
    (config : BacktestConfig) (price : Decimal) (reason : Reason) (time : ℕ) (h : Held) (r : Run)
    → Matches (some h) r.open_trade
    → IsBooked config r
    → Ensures (IsBooked config) (close_at config price reason time h.position r)
unfolding close_at
close_at-IsBooked config price reason time h r matches b =
    >>=-Ensures_with (apply_costs config price OrderSide.sell) _
      (costs_fee config price OrderSide.sell)
      (λ fill fee.
        let (closed, cash) = sold-IsSettled config fill reason time h r fee matches b in
        some-Ensures _ (record { current = tt; closed = closed; cash = cash }))

stop_or_take-IsBooked :
    (config : BacktestConfig) (bar : Candle) (h : Option Held) (r : Run)
    → r.held ≡ h
    → IsBooked config r
    → Ensures (IsBooked config) (stop_or_take config bar h r)
unfolding stop_or_take
stop_or_take-IsBooked config bar none r e b = some-Ensures r b
stop_or_take-IsBooked config bar (some h) r e b =
    if-Ensures (ltb h.opened_at bar.open_time) (λ c. left (check_stop_take h.position bar))
      (λ c. some-Ensures r b)
  where
    left :
        (exit : Option (Decimal × Reason))
        → Ensures (IsBooked config) (leave_at config bar h.position exit r)
    left none = some-Ensures r b
    left (some (price, reason)) =
        (close_at-IsBooked config price reason bar.open_time h r
          (subst (λ x. Matches x r.open_trade) e b.current) b)

noted-IsBooked :
    (config : BacktestConfig) (bar : Candle) (h : Option Held) (r : Run)
    → r.held ≡ h
    → IsBooked config r
    → IsBooked config (note_equity bar (mark_held bar.close h r))
unfolding note_equity mark_held
noted-IsBooked config bar none r e b = record {
  current = b.current;
  closed = b.closed;
  cash = b.cash;
}
noted-IsBooked config bar (some h) r e b = record {
  current = still r.open_trade (subst (λ x. Matches x r.open_trade) e b.current);
  closed = b.closed;
  cash = b.cash;
}
  where
    still : (t : Option BacktestTrade) → Matches (some h) t → Matches (some (marked bar.close h)) t
    still none m = m
    still (some t) m = record {
      quantity = m.quantity;
      entry_price = m.entry_price;
      entry_time = m.entry_time;
      long = m.long;
    }

nothing_owed :
    (config : BacktestConfig) (o : Option BacktestTrade) (cash : Decimal)
    → Matches none o
    → owed config o cash ≡ cash
nothing_owed config none cash m = refl
nothing_owed config (some t) cash m = absurd (false≢true (sym m))

on_signal-IsBooked :
    (config : BacktestConfig) (strategy : Strategy) (bar : Candle) (signal : TradeSignal)
    (direction : SignalDirection) (h : Option Held) (r : Run)
    → r.held ≡ h
    → IsBooked config r
    → Ensures (IsBooked config) (on_signal config strategy bar signal direction h r)
unfolding on_signal buy
on_signal-IsBooked config strategy bar signal SignalDirection.buy none r e b =
    >>=-Ensures (size_position config r.cash bar.close) _ (λ qty.
      if-Ensures (lt zero qty)
        (λ positive.
          >>=-Ensures_with (apply_costs config bar.close OrderSide.buy) _
            (costs_fee config bar.close OrderSide.buy)
            (λ fill fee. some-Ensures _ (
              either (le (add (mul fill.price qty) (mul fill.fee qty)) r.cash) qty fill positive
                fee)))
        (λ c. some-Ensures r b))
  where
    either :
        (c : Bool) (qty : Decimal) (fill : Costs)
        → lt zero qty ≡ true
        → fill.fee ≡ mul fill.price config.fee_rate
        → IsBooked config (if c then entered strategy bar signal qty fill r else r)
    either true qty fill positive fee = record {
      current = record { quantity = refl; entry_price = refl; entry_time = refl; long = positive };
      closed = b.closed;
      cash =
          rw
            (
              fee,
              b.cash,
              nothing_owed config r.open_trade (settle config r.trades config.initial_cash)
                  (subst (λ x. Matches x r.open_trade) e b.current),
            )
            refl;
    }
    either false qty fill positive fee = b
on_signal-IsBooked config strategy bar signal SignalDirection.sell (some h) r e b =
    (close_at-IsBooked config bar.close _ bar.open_time h r
      (subst (λ x. Matches x r.open_trade) e b.current) b)
on_signal-IsBooked config strategy bar signal SignalDirection.exit (some h) r e b =
    (close_at-IsBooked config bar.close _ bar.open_time h r
      (subst (λ x. Matches x r.open_trade) e b.current) b)
on_signal-IsBooked config strategy bar signal SignalDirection.buy (some h) r e b = some-Ensures r b
on_signal-IsBooked config strategy bar signal SignalDirection.sell none r e b = some-Ensures r b
on_signal-IsBooked config strategy bar signal SignalDirection.exit none r e b = some-Ensures r b
on_signal-IsBooked config strategy bar signal SignalDirection.hold none r e b = some-Ensures r b
on_signal-IsBooked config strategy bar signal SignalDirection.hold (some h) r e b = some-Ensures r b

module _ (config : BacktestConfig) (strategy : Strategy) where
  step-IsBooked :
      (window : List Candle) (bar : Candle) (r : Run)
      → IsBooked config r
      → Ensures (IsBooked config) (step config strategy window bar r)
  unfolding step
  step-IsBooked window bar r b =
      >>=-Ensures_with (stop_or_take config bar r.held r) _
        (stop_or_take-IsBooked config bar r.held r refl b)
        (λ left c.
          let noted = note_equity bar (mark_held bar.close left.held left) in
          >>=-Ensures (strategy.evaluate _) _ (λ signal.
            on_signal-IsBooked config strategy bar signal signal.direction noted.held noted refl
              (noted-IsBooked config bar left.held left refl c)))

  bars-IsBooked :
      (seen candles : List Candle) (r : Run)
      → IsBooked config r
      → Ensures (IsBooked config) (bars config strategy seen candles r)
  unfolding bars
  bars-IsBooked seen [] r b = some-Ensures r b
  bars-IsBooked seen (bar ∷ rest) r b =
      >>=-Ensures_with (step config strategy (seen ++ bar ∷ []) bar r) _ (step-IsBooked _ bar r b)
        (λ r' c. bars-IsBooked (seen ++ bar ∷ []) rest r' c)

  force_close-IsSettled :
      (last : Candle) (h : Option Held) (r : Run)
      → r.held ≡ h
      → IsBooked config r
      → Ensures (IsSettled config) (force_close config last h r)
  unfolding force_close
  force_close-IsSettled last none r e b = some-Ensures r (
    b.closed,
    b.cash ∙ nothing_owed config r.open_trade _ (subst (λ x. Matches x r.open_trade) e b.current),
  )
  force_close-IsSettled last (some h) r e b =
      >>=-Ensures_with (apply_costs config last.close OrderSide.sell) _
        (costs_fee config last.close OrderSide.sell)
        (λ fill fee. some-Ensures _ (
          sold-IsSettled config fill _ last.open_time h r fee
            (subst (λ x. Matches x r.open_trade) e b.current) b))

  -- A backtest that returns has closed every trade in its list, each with the profit of its own quantity and
  -- prices less the fee of its sale; and its final cash is what the initial cash comes to when the trades
  -- of the list, no others, are paid for and sold in their order, at their prices and with their fees.
  pub run-IsBooked :
      (candles : List Candle) → Ensures (IsSettled config) (run config strategy candles)
  unfolding run settle
  run-IsBooked [] = record { holds = λ r e. cc }
  run-IsBooked (c ∷ cs) =
      >>=-Ensures_with (bars config strategy [] (c ∷ cs) (start config)) _
        (bars-IsBooked [] (c ∷ cs) (start config)
          (record { current = tt; closed = tt; cash = refl }))
        (λ r b. force_close-IsSettled (last_of c cs) r.held r refl b)
