-- ===== src/Portfolio/Drawdown.antt =====
-- The peak and the drawdown of a portfolio.
use live_auto_trading.Prelude.{◌≡◌, refl, ap, inl, inr, true, some, Bool-cases}
use live_auto_trading.Decimal.{Decimal, zero, sub, le, max}
use live_auto_trading.Decimal.Sign.{
  IsNonneg, IsPositive-of_le-zero, IsNonneg-of_pos, le-max_left, le-max_right, sub-IsNonneg,
  div-IsNonneg, div_pos,
}
use live_auto_trading.Domain.Trading.{PortfolioState}
use live_auto_trading.Portfolio.Service.{
  PortfolioService, equity_now, drawdown_from, snapshot_at, snapshot,
}

drawdown-IsNonneg :
    (peak equity : Decimal)
    → le equity peak ≡ true
    → (d : Decimal) × (drawdown_from peak equity ≡ some d) × IsNonneg d
unfolding drawdown_from
drawdown-IsNonneg peak equity h = elim (Bool-cases (le peak zero)) [
  | inl e ↦ (zero, rw e refl, refl)
  | inr e ↦
      let positive = IsPositive-of_le-zero peak e in
      let (q, found) = div_pos (sub peak equity) peak positive in
      (
        q,
        rw e found,
        div-IsNonneg (sub peak equity) peak (sub-IsNonneg peak equity h)
            (IsNonneg-of_pos peak positive) found,
      )
]

-- A snapshot never raises. Its drawdown is not negative, its peak is at least its equity, and the
-- peak that the service keeps is at least the one that it had.
pub snapshot-IsNonneg :
    (s : PortfolioService)
    → (p : PortfolioState) × (s' : PortfolioService) × (snapshot s ≡ some (p, s'))
      × IsNonneg p.drawdown
      × (le p.equity p.peak_equity ≡ true)
      × (le s.peak_equity s'.peak_equity ≡ true)
unfolding snapshot snapshot_at
snapshot-IsNonneg s =
    let equity = equity_now s in
    let peak = max s.peak_equity equity in
    let (d, found, nonneg) = drawdown-IsNonneg peak equity (le-max_right s.peak_equity equity) in
    (
      _,
      _,
      ap (snapshot_at s equity peak) found,
      nonneg,
      le-max_right s.peak_equity equity,
      le-max_left s.peak_equity equity,
    )
