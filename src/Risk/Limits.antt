-- ===== src/Risk/Limits.antt =====
-- The checks of `RiskEngine.evaluate` from the order frequency on: frequency, losses, exposure, and
-- the sizing of the order.
use live_auto_trading.Prelude.{
  ℕ, ◌+◌, ◌*◌, Bool, false, not, ◌&&◌, ◌||◌, Option, none, some, List, [], ◌∷◌, map, length, ltb,
  leb, if◌then◌else◌,
}
use live_auto_trading.Decimal.{
  Decimal, zero, add, sub, mul, div, neg, abs, lt, le, quantize, down, truthy, sum_from,
}
use live_auto_trading.Domain.Enums.{RiskDecision, RiskReasonCode}
use live_auto_trading.Domain.Trading.{OrderRequest, Position, PortfolioState}
use live_auto_trading.Risk.Check.{Check, go, reject_if, or_fault, when, ◌>>=◌, ◌>>◌}
use live_auto_trading.Risk.Gates.{holds_long, is_sell}
use live_auto_trading.Risk.State.{RiskContext, Settings}

-- the order times of the last minute
unfoldable pub recent : ℕ → List ℕ → List ℕ
recent now [] = []
recent now (t ∷ ts) = if leb now (t + 60_000_000) then t ∷ recent now ts else recent now ts

abbrev pub latest : ℕ → List ℕ → ℕ
latest t [] = t
latest t (u ∷ us) = latest (if ltb t u then u else t) us

-- fewer seconds than the cooldown have passed since the last order
unfoldable pub cooling_down : ℕ → ℕ → List ℕ → Bool
cooling_down now cooldown [] = false
cooling_down now cooldown (t ∷ ts) = ltb 0 cooldown && ltb now (latest t ts + cooldown * 1_000_000)

unfoldable pub check_rate : Settings → ℕ → List ℕ → Check (Unit {0})
check_rate settings now times = do
  reject_if (leb settings.max_orders_per_minute (length times)) RiskReasonCode.max_order_frequency
  reject_if (cooling_down now settings.order_cooldown_seconds times) RiskReasonCode.order_cooldown

-- `-daily_pnl / peak_equity if daily_pnl < 0 else 0`
unfoldable pub daily_loss : PortfolioState → Option Decimal
daily_loss p = if lt p.daily_pnl zero then div (neg p.daily_pnl) p.peak_equity else some zero

unfoldable pub check_losses : Settings → OrderRequest → PortfolioState → Check (Unit {0})
check_losses settings request p = do
  when (not (le p.peak_equity zero)) (do
    loss ← or_fault (daily_loss p)
    reject_if (le settings.max_daily_loss loss) RiskReasonCode.daily_loss_limit_reached
    reject_if (le settings.max_drawdown p.drawdown) RiskReasonCode.max_drawdown_reached)
  reject_if (leb settings.max_consecutive_losses p.consecutive_losses)
      RiskReasonCode.max_consecutive_losses
  reject_if
      (not (request.reduce_only || holds_long request.symbol p.open_positions)
        && leb settings.max_open_positions (length p.open_positions))
      RiskReasonCode.max_open_positions

-- `portfolio.equity if portfolio.equity > 0 else portfolio.cash_balance`
unfoldable pub equity_of : PortfolioState → Decimal
equity_of p = if le p.equity zero then p.cash_balance else p.equity

-- `p.quantity * (context.mark_price or p.current_price)`
abbrev pub marked_value : Option Decimal → Position → Decimal
marked_value none p = mul p.quantity p.current_price
marked_value (some m) p = mul p.quantity (if truthy m then m else p.current_price)

-- the marked value of all open positions
unfoldable pub open_notional : RiskContext → Decimal
open_notional context =
    sum_from zero (map (marked_value context.mark_price) context.portfolio.open_positions)

-- a size, and whether a limit has reduced it
pub record Sized : Type 0 where
  pub approved_qty : Decimal
  pub decision : RiskDecision
  pub reason : RiskReasonCode

abbrev pub reduced : Decimal → Sized
reduced qty = record {
  approved_qty = qty;
  decision = RiskDecision.reduced;
  reason = RiskReasonCode.size_reduced_by_risk;
}

abbrev pub as_requested : Decimal → Sized
as_requested qty = record {
  approved_qty = qty;
  decision = RiskDecision.approved;
  reason = RiskReasonCode.ok;
}

-- `(budget / unit).quantize(Decimal("0.00000001"), rounding=ROUND_DOWN)`
unfoldable pub units_in : Decimal → Decimal → Check Decimal
units_in budget unit = do ratio ← or_fault (div budget unit); or_fault (quantize 8 down ratio)

-- Risk per trade: by the distance to the stop, or of the whole notional without one.
unfoldable pub size_by_stop : Decimal → Decimal → Decimal → Decimal → Check Sized
size_by_stop qty budget price stop_price =
    let per_unit = abs (sub price stop_price) in
    if le per_unit zero then go (as_requested qty) else do
      most ← units_in budget per_unit
      reject_if (le most zero) RiskReasonCode.max_risk_per_trade
      go (if lt most qty then reduced most else as_requested qty)

unfoldable pub size_by_fraction : Decimal → Decimal → Decimal → Check Sized
size_by_fraction qty budget price = do
  most ← units_in budget price
  go (if lt most qty then reduced most else as_requested qty)

abbrev pub positive_stop : Option Decimal → Option Decimal
positive_stop none = none
positive_stop (some d) = if le d zero then none else some d

unfoldable pub size_by_risk : Settings → OrderRequest → Decimal → Decimal → Check Sized
size_by_risk settings request price equity =
    let budget = mul equity settings.max_risk_per_trade in
    elim (positive_stop request.stop_loss) [
      | some stop_price ↦ size_by_stop request.quantity budget price stop_price
      | none ↦ size_by_fraction request.quantity budget price
    ]

unfoldable pub cap_position : Settings → Decimal → Decimal → Sized → Check Sized
cap_position settings price equity sized =
    let most_notional = mul equity settings.max_position_exposure in
    if lt most_notional (mul sized.approved_qty price)
    then (do
      most ← units_in most_notional price
      reject_if (le most zero) RiskReasonCode.max_position_exposure
      go (reduced most))
    else go sized

unfoldable pub cap_portfolio : Settings → RiskContext → Decimal → Decimal → Sized → Check Sized
cap_portfolio settings context price equity sized =
    let most_notional = mul equity settings.max_portfolio_exposure in
    let current = open_notional context in
    if lt most_notional (add current (mul sized.approved_qty price))
    then (do
      let room = sub most_notional current
      reject_if (le room zero) RiskReasonCode.max_portfolio_exposure
      most ← units_in room price
      reject_if (le most zero) RiskReasonCode.max_portfolio_exposure
      go (reduced most))
    else go sized

-- the last checks, on the final size
unfoldable pub check_final : OrderRequest → PortfolioState → Decimal → Decimal → Check (Unit {0})
check_final request p price qty = do
  reject_if (le qty zero) RiskReasonCode.invalid_quantity
  reject_if
      (not (is_sell request.side) && not request.reduce_only && lt p.cash_balance (mul qty price))
      RiskReasonCode.insufficient_balance

unfoldable pub check_limits :
    Settings → RiskContext → ℕ → List ℕ → OrderRequest → Decimal → Check Sized
check_limits settings context now times request price = do
  check_rate settings now times
  check_losses settings request context.portfolio
  let equity = equity_of context.portfolio
  by_risk ← size_by_risk settings request price equity
  by_position ← cap_position settings price equity by_risk
  sized ← cap_portfolio settings context price equity by_position
  check_final request context.portfolio price sized.approved_qty
  go sized
