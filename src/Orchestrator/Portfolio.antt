-- ===== src/Orchestrator/Portfolio.antt =====
-- What the orchestrator reads off its ledger: `_equity`, `_portfolio_state`, `_risk_context`,
-- `_entry_quantity` and `_update_drawdown`.
use live_auto_trading.Prelude.{
  string_key, Bool, true, false, Option, none, some, map, if◌then◌else◌,
}
use live_auto_trading.Decimal as D
use live_auto_trading.Decimal.{
  Decimal, zero, add, sub, mul, div, lt, le, quantize, half_even, sum_from,
}
use live_auto_trading.Dict.{values}
use live_auto_trading.Domain.Trading.{PortfolioState}
use live_auto_trading.Paper.State.{Engine}
use live_auto_trading.Risk.State.{RiskContext}
use live_auto_trading.Orchestrator.State.{Session, Surroundings}
use live_auto_trading.Orchestrator.Step.{Step, pure, gets, modify, or_raise, ◌>>=◌, ◌>>◌}

unfoldable pub equity : Engine → Decimal
equity s =
    sum_from (add s.cash s.reserved_cash)
      (map (λ p. mul p.quantity p.current_price) (values s.positions))

-- The distance below the peak, as a share of it.
unfoldable pub drawdown : Decimal → Decimal → Option Decimal
drawdown peak now = if lt zero peak then div (sub peak now) peak else some zero

unfoldable pub portfolio_state : Step PortfolioState
portfolio_state = do
  s ← gets (λ o. o.gateway.backend)
  modify (λ o. record o { peak_equity = D.max o.peak_equity (equity s) })
  peak ← gets (λ o. o.peak_equity)
  dd ← or_raise (drawdown peak (equity s))
  losses ← gets (λ o. o.consecutive_losses)
  pure (record {
    cash_balance = s.cash;
    equity = equity s;
    daily_pnl = sub (equity s) s.config.initial_cash;
    peak_equity = peak;
    drawdown = dd;
    open_positions = values s.positions;
    consecutive_losses = losses;
  })

-- the override of the session, or the setting
abbrev pub kill_switch : Option Bool → Bool → Bool
kill_switch none setting = setting
kill_switch (some override) setting = override

unfoldable pub risk_context : Session → Surroundings → Decimal → Step RiskContext
risk_context session at mark = do
  portfolio ← portfolio_state
  pure (record {
    portfolio = portfolio;
    symbol_info = none;
    mark_price = some mark;
    market_data_ts = some at.market_data_at;
    trading_mode = session.settings.trading_mode;
    live_trading_enabled = session.settings.live_trading_enabled;
    kill_switch_enabled =
        kill_switch session.kill_switch_enabled session.settings.kill_switch_enabled;
    has_exchange_credentials = session.settings.has_exchange_credentials;
    live_approval_valid = false;
  })

-- `quantize(Decimal("0.00000001"))`
unfoldable pub entry_quantity : Session → Decimal → Decimal → Option Decimal
entry_quantity session cash price =
    if le price zero then some zero else rounded (div (mul cash session.entry_size_fraction) price)
  where
    rounded : Option Decimal → Option Decimal
    rounded none = none
    rounded (some q) = quantize 8 half_even q

abbrev pub deepened : Decimal → Bool → Decimal → Step (Unit {0})
deepened peak true now = do
  dd ← or_raise (div (sub peak now) peak)
  modify (λ o. record o { max_drawdown = D.max o.max_drawdown dd })
deepened peak false now = pure tt

unfoldable pub update_drawdown : Step (Unit {0})
update_drawdown = do
  _ ← portfolio_state
  s ← gets (λ o. o.gateway.backend)
  peak ← gets (λ o. o.peak_equity)
  deepened peak (lt zero peak) (equity s)
