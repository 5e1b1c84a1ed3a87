-- ===== src/Paper/State.antt =====
-- The objects of app/execution/paper/engine.py: `PaperConfig`, `PaperState` and the engine itself.
use live_auto_trading.Prelude.{ℕ, String, Option, List, []}
use live_auto_trading.Decimal.{Decimal, zero}
use live_auto_trading.Dict.{Dict}
use live_auto_trading.Domain.Enums.{OrderStatus}
use live_auto_trading.Domain.Trading.{Order, Fill, Position}

pub record PaperConfig : Type 0 where
  pub initial_cash : Decimal
  pub fee_rate : Decimal
  pub maker_fee_rate : Option Decimal
  pub taker_fee_rate : Option Decimal
  pub slippage_rate : Decimal
  pub spread_rate : Decimal
  pub partial_fill_fraction : Decimal
  pub reject_probability : Decimal
  pub mark_prices : Dict String Decimal

-- the entries that `_journal` is called with
pub data Event : Type 0 where
  reserve : ℕ → Decimal → Event
  reserve_release : ℕ → Decimal → Decimal → Event
  order_created : ℕ → Event
  order_status : ℕ → OrderStatus → Event
  fill : ℕ → Event
  order_cancelled order_expired : ℕ → Event

-- `PaperTradingEngine` with the `PaperState` that it owns. `uuids` are the numbers that `uuid4()`
-- returns, `rolls` those of `random()`, each with the count of those taken so far.
pub record Engine : Type 0 where
  pub config : PaperConfig
  pub cash : Decimal
  pub reserved_cash : Decimal
  pub positions : Dict String Position
  pub orders : Dict ℕ Order
  pub fills : List Fill
  pub journal : List Event
  pub idempotency_index : Dict String ℕ
  pub realized_pnl : Decimal
  pub uuids : ℕ → ℕ
  pub drawn : ℕ
  pub rolls : ℕ → Decimal
  pub rolled : ℕ

-- `PaperTradingEngine.__init__`
abbrev pub new_engine : PaperConfig → (ℕ → ℕ) → (ℕ → Decimal) → Engine
new_engine config uuids rolls = record {
  config = config;
  cash = config.initial_cash;
  reserved_cash = zero;
  positions = [];
  orders = [];
  fills = [];
  journal = [];
  idempotency_index = [];
  realized_pnl = zero;
  uuids = uuids;
  drawn = 0;
  rolls = rolls;
  rolled = 0;
}
