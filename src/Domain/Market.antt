-- ===== src/Domain/Market.antt =====
-- The candle of app/models/domain/market.py. Instants are microseconds since the epoch, in UTC; the
-- fields that nothing reads are left out.
use live_auto_trading.Prelude.{ℕ, String, Bool}
use live_auto_trading.Decimal.{Decimal}

pub record Candle : Type 0 where
  pub symbol : String
  pub timeframe : String
  pub open_time : ℕ
  pub open_price : Decimal
  pub high : Decimal
  pub low : Decimal
  pub close : Decimal
  pub volume : Decimal
  pub is_closed : Bool
