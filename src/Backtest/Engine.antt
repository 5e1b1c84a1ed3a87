-- ===== src/Backtest/Engine.antt =====
-- `BacktestEngine.run` up to the metrics and the reports. The entry rationales, which are texts, are left
-- out; an exit by a signal has no reason of its own here.
use live_auto_trading.Prelude.{
  ℕ, ◌+◌, String, Option, none, some, List, [], ◌∷◌, ◌++◌, ltb, if◌then◌else◌,
}
use live_auto_trading.Prelude.Options.{◌>>=◌}
use live_auto_trading.Decimal as D
use live_auto_trading.Decimal.{Decimal, zero, two, add, sub, mul, div, lt, le, quantize, half_even}
use live_auto_trading.Domain.Enums.{OrderSide, SignalDirection}
use live_auto_trading.Domain.Market.{Candle}
use live_auto_trading.Domain.Trading.{Position, TradeSignal}
use live_auto_trading.Strategies.Base.{Strategy}

pub record BacktestConfig : Type 0 where
  pub initial_cash : Decimal
  pub fee_rate : Decimal
  pub slippage_rate : Decimal
  pub spread_rate : Decimal
  pub position_size_fraction : Decimal

pub data Reason : Type 0 where
  stop_loss take_profit by_signal end_of_data : Reason

pub record BacktestTrade : Type 0 where
  pub symbol : String
  pub entry_time : ℕ
  pub exit_time : Option ℕ
  pub entry_price : Decimal
  pub exit_price : Option Decimal
  pub quantity : Decimal
  pub pnl : Decimal
  pub fees : Decimal
  pub slippage_cost : Decimal
  pub reason : Reason

-- a position, with its `opened_at`
pub record Held : Type 0 where
  pub position : Position
  pub opened_at : ℕ

-- the variables of the loop
pub record Run : Type 0 where
  pub cash : Decimal
  pub held : Option Held
  pub trades : List BacktestTrade
  pub equity_curve : List (ℕ × Decimal)
  pub open_trade : Option BacktestTrade
  pub bars_held : ℕ
  pub peak : Decimal

pub record Costs : Type 0 where
  pub price : Decimal
  pub fee : Decimal
  pub slippage_cost : Decimal

abbrev pub moved : OrderSide → Decimal → Decimal → Decimal → Decimal
moved OrderSide.buy price half_spread slip = add (add price half_spread) slip
moved OrderSide.sell price half_spread slip = sub (sub price half_spread) slip

unfoldable pub apply_costs : BacktestConfig → Decimal → OrderSide → Option Costs
apply_costs config price side = do
  half_spread ← div (mul price config.spread_rate) two
  let slip = mul price config.slippage_rate in
      let fill_price = moved side price half_spread slip in
      some
        (record { price = fill_price; fee = mul fill_price config.fee_rate; slippage_cost = slip })

unfoldable pub size_position : BacktestConfig → Decimal → Decimal → Option Decimal
size_position config cash price =
    if le price zero
    then some zero
    else (do units ← div (mul cash config.position_size_fraction) price; quantize 8 half_even units)

-- The stop-loss is looked at before the take-profit.
unfoldable pub check_stop_take : Position → Candle → Option (Decimal × Reason)
check_stop_take p bar = at_stop p.stop_loss
  where
    at_target : Option Decimal → Option (Decimal × Reason)
    at_target none = none
    at_target (some target) = if le target bar.high then some (target, take_profit) else none

    at_stop : Option Decimal → Option (Decimal × Reason)
    at_stop none = at_target p.take_profit
    at_stop (some stop) =
        if le bar.low stop then some (stop, stop_loss) else at_target p.take_profit

abbrev pub closed_trade : Costs → Position → ℕ → Reason → BacktestTrade → BacktestTrade
closed_trade fill p time reason t = record t {
  exit_time = some time;
  exit_price = some fill.price;
  pnl = sub (mul (sub fill.price p.entry_price) p.quantity) (mul fill.fee p.quantity);
  fees = add t.fees (mul fill.fee p.quantity);
  slippage_cost = add t.slippage_cost (mul fill.slippage_cost p.quantity);
  reason = reason;
}

-- `if open_trade: ... trades.append(open_trade)`
abbrev pub with_closed :
    Costs → Position → ℕ → Reason → Option BacktestTrade → List BacktestTrade → List BacktestTrade
with_closed fill p time reason none trades = trades
with_closed fill p time reason (some t) trades = trades ++ closed_trade fill p time reason t ∷ []

-- The sale goes into the cash and the trades.
abbrev pub sold : Costs → Position → ℕ → Reason → Run → Run
sold fill p time reason r = record r {
  cash = add r.cash (sub (mul fill.price p.quantity) (mul fill.fee p.quantity));
  trades = with_closed fill p time reason r.open_trade r.trades;
}

-- The position is sold at a price before costs.
unfoldable pub close_at : BacktestConfig → Decimal → Reason → ℕ → Position → Run → Option Run
close_at config price reason time p r = do
  fill ← apply_costs config price OrderSide.sell
  some (record (sold fill p time reason r) { held = none; open_trade = none; bars_held = 0 })

abbrev pub leave_at :
    BacktestConfig → Candle → Position → Option (Decimal × Reason) → Run → Option Run
leave_at config bar p none r = some r
leave_at config bar p (some (price, reason)) r = close_at config price reason bar.open_time p r

-- Only a position of an earlier bar is stopped.
unfoldable pub stop_or_take : BacktestConfig → Candle → Option Held → Run → Option Run
stop_or_take config bar none r = some r
stop_or_take config bar (some h) r =
    if ltb h.opened_at bar.open_time
    then leave_at config bar h.position (check_stop_take h.position bar) r
    else some r

-- the position at the price of the bar
abbrev pub marked : Decimal → Held → Held
marked mark h = record h {
  position = record h.position {
    current_price = mark;
    unrealized_pnl = mul (sub mark h.position.entry_price) h.position.quantity;
  };
}

unfoldable pub mark_held : Decimal → Option Held → Run → Run
mark_held mark none r = r
mark_held mark (some h) r = record r { held = some (marked mark h); bars_held = r.bars_held + 1 }

abbrev pub worth : Decimal → Option Held → Decimal
worth mark none = zero
worth mark (some h) = mul h.position.quantity mark

unfoldable pub note_equity : Candle → Run → Run
note_equity bar r =
    let equity = add r.cash (worth bar.close r.held) in
    record r {
      peak = D.max r.peak equity;
      equity_curve = r.equity_curve ++ (bar.open_time, equity) ∷ [];
    }

abbrev pub position_of : Option Held → Option Position
position_of none = none
position_of (some h) = some h.position

abbrev pub entered : Strategy → Candle → TradeSignal → Decimal → Costs → Run → Run
entered strategy bar signal qty fill r = record r {
  cash = sub r.cash (add (mul fill.price qty) (mul fill.fee qty));
  held = some (record {
    position = record {
      symbol = bar.symbol;
      quantity = qty;
      entry_price = fill.price;
      current_price = bar.close;
      unrealized_pnl = zero;
      realized_pnl = zero;
      strategy_name = some strategy.name;
      stop_loss = signal.suggested_stop;
      take_profit = signal.suggested_target;
    };
    opened_at = bar.open_time;
  });
  open_trade = some (record {
    symbol = bar.symbol;
    entry_time = bar.open_time;
    exit_time = none;
    entry_price = fill.price;
    exit_price = none;
    quantity = qty;
    pnl = zero;
    fees = mul fill.fee qty;
    slippage_cost = mul fill.slippage_cost qty;
    reason = by_signal;
  });
  bars_held = 0;
}

unfoldable pub buy : BacktestConfig → Strategy → Candle → TradeSignal → Decimal → Run → Option Run
buy config strategy bar signal qty r =
    if lt zero qty
    then (do
      fill ← apply_costs config bar.close OrderSide.buy
      some (
          if le (add (mul fill.price qty) (mul fill.fee qty)) r.cash
          then entered strategy bar signal qty fill r
          else r))
    else some r

unfoldable pub on_signal :
    BacktestConfig
    → Strategy
    → Candle
    → TradeSignal
    → SignalDirection
    → Option Held
    → Run
    → Option Run
on_signal config strategy bar signal SignalDirection.buy none r = do
  qty ← size_position config r.cash bar.close
  buy config strategy bar signal qty r
on_signal config strategy bar signal SignalDirection.sell (some h) r =
    close_at config bar.close by_signal bar.open_time h.position r
on_signal config strategy bar signal SignalDirection.exit (some h) r =
    close_at config bar.close by_signal bar.open_time h.position r
on_signal config strategy bar signal _ _ r = some r

-- One bar; `window` are the candles up to it, itself included.
unfoldable pub step : BacktestConfig → Strategy → List Candle → Candle → Run → Option Run
step config strategy window bar r = do
  left ← stop_or_take config bar r.held r
  let now = note_equity bar (mark_held bar.close left.held left) in
      (do
        signal ← strategy.evaluate (record {
          candles = window;
          position = position_of now.held;
          bars_held = now.bars_held;
        })
        on_signal config strategy bar signal signal.direction now.held now)

-- The loop: `seen` are the candles before the bars that are left.
unfoldable pub bars : BacktestConfig → Strategy → List Candle → List Candle → Run → Option Run
bars config strategy seen [] r = some r
bars config strategy seen (bar ∷ rest) r = do
  r' ← step config strategy (seen ++ bar ∷ []) bar r
  bars config strategy (seen ++ bar ∷ []) rest r'

abbrev pub start : BacktestConfig → Run
start config = record {
  cash = config.initial_cash;
  held = none;
  trades = [];
  equity_curve = [];
  open_trade = none;
  bars_held = 0;
  peak = config.initial_cash;
}

-- the trade that `open_trade` still names, after it is closed
abbrev pub named : Costs → Position → ℕ → Reason → Option BacktestTrade → Option BacktestTrade
named fill p time reason none = none
named fill p time reason (some t) = some (closed_trade fill p time reason t)

-- A position that is left is sold at the last close; the variable still holds it.
unfoldable pub force_close : BacktestConfig → Candle → Option Held → Run → Option Run
force_close config last none r = some r
force_close config last (some h) r = do
  fill ← apply_costs config last.close OrderSide.sell
  some (record (sold fill h.position last.open_time end_of_data r) {
    open_trade = named fill h.position last.open_time end_of_data r.open_trade;
  })

abbrev pub last_of : Candle → List Candle → Candle
last_of c [] = c
last_of c (d ∷ rest) = last_of d rest

-- `none` is an exception: no candles, one of the strategy, or one of `decimal`.
unfoldable pub run : BacktestConfig → Strategy → List Candle → Option Run
run config strategy [] = none
run config strategy (c ∷ cs) = do
  r ← bars config strategy [] (c ∷ cs) (start config)
  force_close config (last_of c cs) r.held r
