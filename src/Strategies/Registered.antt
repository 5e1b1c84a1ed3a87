-- ===== src/Strategies/Registered.antt =====
-- The strategies that app/strategies/registry.py registers at the start.
use live_auto_trading.Prelude.{
  string_key, ◌≡◌, refl, sym, ap, ◌∙◌, String, true, ◌==◌, some, List, [], ◌∷◌, Bool-cases, inl,
  inr,
}
use mathlib.Core.Bool.{false≢true}
use live_auto_trading.Dict.{
  lookup, lookup-insert, lookup-insert_self, AllValues, All, AllValues-insert, AllValues-lookup,
}
use live_auto_trading.Strategies.Base.{Strategy}
use live_auto_trading.Strategies.Fits.{IsLongOnly}
use live_auto_trading.Strategies.LongOnly.{rsi_mean_reversion-IsLongOnly, breakout-IsLongOnly}
use live_auto_trading.Strategies.EmaLongOnly.{
  ema_crossover-IsLongOnly, ema_rsi-IsLongOnly, ema_trend-IsLongOnly,
}
use live_auto_trading.Strategies.Registry.{
  Registry, register, get_strategy, is_there, register_missing, Defaults, defaults,
  bootstrap_default_strategies,
}

register_missing-AllValues :
    (P : Strategy → Type 0) (ss : List Strategy) (r : Registry)
    → All P ss
    → AllValues P r
    → AllValues P (register_missing ss r)
unfolding register_missing register
register_missing-AllValues P [] r h k = k
register_missing-AllValues P (s ∷ ss) r (first, h) k =
    register_missing-AllValues P ss _ h (elim (Bool-cases (is_there (lookup s.strategy_id r))) [
      | inl e ↦ rw e k
      | inr e ↦ rw e (AllValues-insert P s.strategy_id s r first k)
    ])

-- Whatever is registered at the start is long-only, where what was registered before is so: under
-- any id, `get_strategy` returns a strategy that buys only while flat, and sells or exits only while
-- long, with signals of its own name, the symbol of the last candle and a confidence from 0 to 1.
pub get_strategy-IsLongOnly :
    (d : Defaults) (r : Registry) (strategy_id : String) {s : Strategy}
    → AllValues IsLongOnly r
    → get_strategy strategy_id (bootstrap_default_strategies d r) ≡ some s
    → IsLongOnly s
unfolding defaults
get_strategy-IsLongOnly d r strategy_id h found =
    AllValues-lookup IsLongOnly strategy_id _
      (register_missing-AllValues IsLongOnly (defaults d) r
        (
          ema_crossover-IsLongOnly d.crossover (d.text "ema_crossover"),
          (
            ema_rsi-IsLongOnly d.setup (d.text "ema_rsi"),
            (
              ema_trend-IsLongOnly d.trend (d.text "ema_trend"),
              (
                rsi_mean_reversion-IsLongOnly d.reversion (d.text "rsi_mean_reversion"),
                (breakout-IsLongOnly d.channel (d.text "breakout"), tt),
              ),
            ),
          ),
        )
        h)
      found

-- A registered id stays registered, whatever else is registered.
register_there :
    (id : String) (s : Strategy) (r : Registry)
    → is_there (lookup id r) ≡ true
    → is_there (lookup id (register s r)) ≡ true
unfolding register
register_there id s r h =
    rw (lookup-insert s.strategy_id id s r)
      (elim (Bool-cases (s.strategy_id == id)) [ inl e ↦ rw e refl | inr e ↦ rw e h ])

kept_there :
    (ss : List Strategy) (r : Registry) (id : String)
    → is_there (lookup id r) ≡ true
    → is_there (lookup id (register_missing ss r)) ≡ true
unfolding register_missing
kept_there [] r id h = h
kept_there (s ∷ ss) r id h =
    kept_there ss _ id (elim (Bool-cases (is_there (lookup s.strategy_id r))) [
      | inl e ↦ rw e h
      | inr e ↦ rw e (register_there id s r h)
    ])

abbrev IsThere : Registry → Strategy → Type 0
IsThere r s = is_there (lookup s.strategy_id r) ≡ true

none_missing : (ss : List Strategy) (r : Registry) → All (IsThere (register_missing ss r)) ss
unfolding register_missing register
none_missing [] r = tt
none_missing (s ∷ ss) r = (
  kept_there ss _ s.strategy_id (elim (Bool-cases (is_there (lookup s.strategy_id r))) [
    | inl e ↦ rw e e
    | inr e ↦ rw e (rw (lookup-insert_self s.strategy_id s r) refl)
  ]),
  none_missing ss _,
)

nothing_missing :
    (ss : List Strategy) (r : Registry) → All (IsThere r) ss → register_missing ss r ≡ r
unfolding register_missing
nothing_missing [] r h = refl
nothing_missing (s ∷ ss) r (there, h) = rw there (nothing_missing ss r h)

-- What is registered under an id stays there.
register_missing_keeps :
    (ss : List Strategy) (r : Registry) (id : String) {s : Strategy}
    → lookup id r ≡ some s
    → lookup id (register_missing ss r) ≡ some s
unfolding register_missing register
register_missing_keeps [] r id h = h
register_missing_keeps (t ∷ ss) r id {s} h =
    register_missing_keeps ss _ id (elim (Bool-cases (is_there (lookup t.strategy_id r))) [
      | inl e ↦ rw e h
      | inr e ↦
          rw (e, lookup-insert t.strategy_id id t r)
            (elim (Bool-cases (t.strategy_id == id)) [
              | inl same ↦ absurd (
                  false≢true (
                    sym e
                    ∙ ap is_there
                        (ap (λ k. lookup k r) ((string_key.decides t.strategy_id id).0 same) ∙ h)))
              | inr other ↦ rw other h
            ])
    ])

pub bootstrap_keeps :
    (d : Defaults) (r : Registry) (strategy_id : String) {s : Strategy}
    → get_strategy strategy_id r ≡ some s
    → (get_strategy strategy_id (bootstrap_default_strategies d r) ≡ some s)
      × (bootstrap_default_strategies d (bootstrap_default_strategies d r)
          ≡ bootstrap_default_strategies d r)
bootstrap_keeps d r strategy_id h = (
  register_missing_keeps (defaults d) r strategy_id h,
  nothing_missing (defaults d) _ (none_missing (defaults d) r),
)
