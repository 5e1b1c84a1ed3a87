-- ===== src/Portfolio/Service.antt =====
-- `PortfolioService`: its state and `snapshot`. The realised and unrealised profit are left out of
-- the `PortfolioState`; nothing reads them.
use live_auto_trading.Prelude.{ℕ, String, Option, none, some, map, if◌then◌else◌}
use live_auto_trading.Decimal.{Decimal, zero, add, sub, mul, div, le, max, sum_from}
use live_auto_trading.Dict.{Dict, values}
use live_auto_trading.Domain.Trading.{Position, PortfolioState}

pub record PortfolioService : Type 0 where
  pub cash : Decimal
  pub positions : Dict String Position
  pub daily_pnl : Decimal
  pub consecutive_losses : ℕ
  pub peak_equity : Decimal

unfoldable pub equity_now : PortfolioService → Decimal
equity_now s =
    add s.cash (sum_from zero (map (λ p. mul p.quantity p.current_price) (values s.positions)))

-- `none` is the exception of a division.
unfoldable pub drawdown_from : Decimal → Decimal → Option Decimal
drawdown_from peak equity = if le peak zero then some zero else div (sub peak equity) peak

unfoldable pub snapshot_at :
    PortfolioService
    → Decimal
    → Decimal
    → Option Decimal
    → Option (PortfolioState × PortfolioService)
snapshot_at s equity peak none = none
snapshot_at s equity peak (some drawdown) = some (
  record {
    cash_balance = s.cash;
    equity = equity;
    daily_pnl = s.daily_pnl;
    peak_equity = peak;
    drawdown = drawdown;
    open_positions = values s.positions;
    consecutive_losses = s.consecutive_losses;
  },
  record s { peak_equity = peak },
)

unfoldable pub snapshot : PortfolioService → Option (PortfolioState × PortfolioService)
snapshot s =
    let equity = equity_now s in
    let peak = max s.peak_equity equity in snapshot_at s equity peak (drawdown_from peak equity)
