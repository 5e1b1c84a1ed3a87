-- ===== src/Portfolio/Tests.antt =====
-- Runs of the portfolio helper, and its theorems at concrete inputs.
use live_auto_trading.Prelude.{◌≡◌, true, some, [], ◌∷◌}
use live_auto_trading.Decimal.{zero, le}
use live_auto_trading.Decimal.Sign.{IsNonneg}
use live_auto_trading.Domain.Trading.{PortfolioState}
use live_auto_trading.Paper.Tests.{cents}
use live_auto_trading.Accounting.Tests.{held}
use live_auto_trading.Portfolio.Service.{PortfolioService, snapshot}
use live_auto_trading.Portfolio.Drawdown.{snapshot-IsNonneg}

abbrev service : PortfolioService
service = record {
  cash = cents 900000;
  positions = ("BTC/USDT", held) ∷ [];
  daily_pnl = zero;
  consecutive_losses = 0;
  peak_equity = cents 1000000;
}

snapshot-IsNonneg_example :
    (p : PortfolioState) × (s' : PortfolioService) × (snapshot service ≡ some (p, s'))
    × IsNonneg p.drawdown
    × (le p.equity p.peak_equity ≡ true)
    × (le service.peak_equity s'.peak_equity ≡ true)
snapshot-IsNonneg_example = snapshot-IsNonneg service
