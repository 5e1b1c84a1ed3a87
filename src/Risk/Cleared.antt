-- ===== src/Risk/Cleared.antt =====
-- The gates of the risk engine, and the orders that they let go on.
use live_auto_trading.Prelude.{
  ◌==◌, string_key, is_empty, ℕ, ◌≡◌, ◌⊎◌, true, false, none, some, arith, inl, inr, Bool-cases,
  ◌||◌, ◌&&◌,
}
use mathlib.Core.Path.{subst}
use live_auto_trading.Decimal.{Decimal, zero, one, le, eq, or_else}
use live_auto_trading.Decimal.Sign.{IsPositive, IsPositive-of_le-zero}
use live_auto_trading.Domain.Trading.{OrderRequest}
use live_auto_trading.Risk.Check.{go_eq, go, reject_if, >>=-eq_go, reject_if-eq_go}
use live_auto_trading.Risk.State.{RiskEngineState, RiskContext, Settings}
use live_auto_trading.Risk.Gates.{
  contains, is_sell, holds_long, is_live, is_stale, kill_switch_on, check_live_gating, check_halts,
  check_permissions, check_health, check_fresh, check_prices, check_size, check_gates, first_known,
  is_limit, is_triggered, not_positive, bad_mark,
}
use live_auto_trading.Risk.Facts.{Holds, holds_long-Holds, IsFresh, stale-IsFresh}
use live_auto_trading.Risk.Fitting.{
  IsKnownPositive, IsFitting, size-IsFitting, needed_positive, mark_positive,
}

module _ (settings : Settings) (context : RiskContext) (s : RiskEngineState) where
  -- every gate of live mode
  pub record IsLiveCleared : Type 0 where
    pub enabled : (context.live_trading_enabled || settings.live_trading_enabled) ≡ true
    pub credentials : (context.has_exchange_credentials || settings.has_exchange_credentials) ≡ true
    pub approved : context.live_approval_valid ≡ true

  pub record IsRunning : Type 0 where
    pub healthy : s.risk_engine_healthy ≡ true
    pub no_kill_switch : (settings.kill_switch_enabled || context.kill_switch_enabled) ≡ false
    pub breaker_closed : s.circuit_breaker_open ≡ false
    pub live :
        ((context.trading_mode == "live" || settings.trading_mode == "live") ≡ false)
        ⊎ IsLiveCleared

  live-IsLiveCleared : {u : Unit {0}} → check_live_gating settings context s ≡ go u → IsLiveCleared
  unfolding check_live_gating
  live-IsLiveCleared h = record {
    enabled = ground arith;
    credentials = ground arith;
    approved = ground arith;
  }

  halts-IsRunning : {u : Unit {0}} → check_halts settings context s ≡ go u → IsRunning
  unfolding check_halts kill_switch_on is_live
  halts-IsRunning h = record {
    healthy = ground arith;
    no_kill_switch = ground arith;
    breaker_closed = ground arith;
    live = elim (Bool-cases (is_live settings context s)) [
      | inl l ↦ inr (live-IsLiveCleared {u = tt} (ground arith))
      | inr l ↦ inl l
    ];
  }

  -- the symbol is allowed, or none is listed
  abbrev pub IsAllowed : OrderRequest → Type 0
  IsAllowed r =
      (is_empty settings.allowed_symbols ≡ true)
      ⊎ (contains r.symbol settings.allowed_symbols ≡ true)

  -- A sale that may open a short position is of what is held.
  abbrev pub IsCoveredSale : OrderRequest → Type 0
  IsCoveredSale r =
      (is_sell r.side ≡ false)
      ⊎ (r.reduce_only ≡ true)
      ⊎ Holds r.symbol context.portfolio.open_positions

  permissions-IsAllowed :
      (r : OrderRequest) {u : Unit {0}}
      → check_permissions settings context s r ≡ go u
      → IsAllowed r
  unfolding check_permissions
  permissions-IsAllowed r h = ground arith

  permissions_long :
      (r : OrderRequest) {u : Unit {0}}
      → check_permissions settings context s r ≡ go u
      → IsCoveredSale r
  unfolding check_permissions
  permissions_long r h = elim (Bool-cases (holds_long r.symbol context.portfolio.open_positions)) [
    | inl e ↦ inr (inr (holds_long-Holds r.symbol context.portfolio.open_positions e))
    | inr e ↦ ground arith
  ]

  permissions_leverage :
      (r : OrderRequest) {u : Unit {0}}
      → check_permissions settings context s r ≡ go u
      → eq settings.default_leverage one ≡ true
  unfolding check_permissions
  permissions_leverage r h = ground arith

  -- what an order must meet to get past the gates at the price `price`
  pub record IsCleared (now : ℕ) (r : OrderRequest) (price : Decimal) : Type 0 where
    pub running : IsRunning
    pub allowed : IsAllowed r
    pub long : IsCoveredSale r
    pub leverage : eq settings.default_leverage one ≡ true
    pub market_data : s.market_data_healthy ≡ true
    pub database : s.database_healthy ≡ true
    pub reconciliation : s.reconciliation_healthy ≡ true
    pub fresh : IsFresh settings now (first_known context.market_data_ts s.last_market_data_ts)
    pub unseen : contains r.idempotency_key s.seen_idempotency_keys ≡ false
    pub quantity : IsPositive r.quantity
    pub priced : first_known r.price context.mark_price ≡ some price
    pub price_positive : IsPositive price
    pub limit_price : (is_limit r.order_type ≡ false) ⊎ IsKnownPositive r.price
    pub trigger_price :
        (is_triggered r.order_type ≡ false)
        ⊎ IsKnownPositive (or_else r.price (or_else r.stop_loss r.take_profit))
    pub mark_price : (context.mark_price ≡ none) ⊎ IsKnownPositive context.mark_price
    pub fitting : IsFitting settings r price context.symbol_info

  health :
      {u : Unit {0}}
      → check_health settings context s ≡ go u
      → (s.market_data_healthy ≡ true)
        × (s.database_healthy ≡ true)
        × (s.reconciliation_healthy ≡ true)
  unfolding check_health
  health h = (ground arith, ground arith, ground arith)

  freshness :
      (now : ℕ) (r : OrderRequest) {u : Unit {0}}
      → check_fresh settings context s now r ≡ go u
      → (is_stale settings context s now ≡ false)
        × (contains r.idempotency_key s.seen_idempotency_keys ≡ false)
  unfolding check_fresh
  freshness now r h = (ground arith, ground arith)

  prices :
      (r : OrderRequest) {price : Decimal}
      → check_prices settings context s r ≡ go price
      → (le r.quantity zero ≡ false)
        × (first_known r.price context.mark_price ≡ some price)
        × (le price zero ≡ false)
  unfolding check_prices
  prices r h = (ground arith, ground arith, ground arith)

  price_checks :
      (r : OrderRequest) {price : Decimal}
      → check_prices settings context s r ≡ go price
      → ((is_limit r.order_type && not_positive r.price) ≡ false)
        × ((is_triggered r.order_type
              && not_positive (or_else r.price (or_else r.stop_loss r.take_profit)))
            ≡ false)
        × (bad_mark context.mark_price ≡ false)
  unfolding check_prices
  price_checks r h =
      let (_, _, h1) = >>=-eq_go (reject_if (le r.quantity zero) _) _ h in
      let (_, limit, h2) =
        >>=-eq_go (reject_if (is_limit r.order_type && not_positive r.price) _) _ h1 in
      let (_, trigger, h3) =
        >>=-eq_go
          (reject_if
            (is_triggered r.order_type
              && not_positive (or_else r.price (or_else r.stop_loss r.take_profit)))
            _)
          _ h2 in
      let (_, mark, h4) = >>=-eq_go (reject_if (bad_mark context.mark_price) _) _ h3 in
      (reject_if-eq_go _ _ limit, reject_if-eq_go _ _ trigger, reject_if-eq_go _ _ mark)

  -- The gates let through only what is cleared.
  pub gates-IsCleared :
      (now : ℕ) (r : OrderRequest) {price : Decimal}
      → check_gates settings context s now r ≡ go price
      → IsCleared now r price
  unfolding check_gates
  gates-IsCleared now r {price} h =
      let (_, running, h1) = >>=-eq_go (check_halts settings context s) _ h in
      let (_, permitted, h2) = >>=-eq_go (check_permissions settings context s r) _ h1 in
      let (_, healthy, h3) = >>=-eq_go (check_health settings context s) _ h2 in
      let (_, fresh, h4) = >>=-eq_go (check_fresh settings context s now r) _ h3 in
      let (p, priced, h5) = >>=-eq_go (check_prices settings context s r) _ h4 in
      let (_, sized, h6) = >>=-eq_go (check_size settings r p context.symbol_info) _ h5 in
      subst (IsCleared now r) (go_eq h6) (record {
        running = halts-IsRunning running;
        allowed = permissions-IsAllowed r permitted;
        long = permissions_long r permitted;
        market_data = (health healthy).0;
        database = (health healthy).1;
        reconciliation = (health healthy).2;
        fresh = stale-IsFresh settings context s now (freshness now r fresh).0;
        unseen = (freshness now r fresh).1;
        quantity = IsPositive-of_le-zero r.quantity (prices r priced).0;
        priced = (prices r priced).1;
        price_positive = IsPositive-of_le-zero p (prices r priced).2;
        leverage = permissions_leverage r permitted;
        limit_price = needed_positive _ r.price (price_checks r priced).0;
        trigger_price = needed_positive _ _ (price_checks r priced).1;
        mark_price = mark_positive context.mark_price (price_checks r priced).2;
        fitting = size-IsFitting settings r p context.symbol_info sized;
      })
