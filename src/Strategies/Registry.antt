-- ===== src/Strategies/Registry.antt =====
-- app/strategies/registry.py: the strategies by their ids.
use live_auto_trading.Prelude.{
  ℕ, string_key, String, Bool, true, false, Option, none, some, List, [], ◌∷◌, if◌then◌else◌,
}
use live_auto_trading.Dict.{Dict, lookup, insert, values}
use live_auto_trading.Domain.Market.{Candle}
use live_auto_trading.Strategies.Base.{Strategy}
use live_auto_trading.Strategies.EmaCrossover.{CrossoverParams, ema_crossover}
use live_auto_trading.Strategies.EmaRsi.{EmaRsiParams, ema_rsi}
use live_auto_trading.Strategies.EmaTrend.{TrendParams, ema_trend}
use live_auto_trading.Strategies.RsiMeanReversion.{ReversionParams, rsi_mean_reversion}
use live_auto_trading.Strategies.Breakout.{BreakoutParams, breakout}

-- `_REGISTRY`
abbrev pub Registry : Type 0
Registry = Dict String Strategy

unfoldable pub register : Strategy → Registry → Registry
register strategy r = insert strategy.strategy_id strategy r

-- `none` is the `KeyError`.
abbrev pub get_strategy : String → Registry → Option Strategy
get_strategy strategy_id r = lookup strategy_id r

abbrev pub list_strategies : Registry → List Strategy
list_strategies r = values r

abbrev pub is_there : Option Strategy → Bool
is_there none = false
is_there (some s) = true

unfoldable pub register_missing : List Strategy → Registry → Registry
register_missing [] r = r
register_missing (s ∷ rest) r =
    register_missing rest (if is_there (lookup s.strategy_id r) then r else register s r)

-- The parameters of each strategy, and how it formats its fingerprints.
pub record Defaults : Type 0 where
  pub crossover : CrossoverParams
  pub setup : EmaRsiParams
  pub trend : TrendParams
  pub reversion : ReversionParams
  pub channel : BreakoutParams
  pub text : String → Candle → ℕ → String

unfoldable pub defaults : Defaults → List Strategy
defaults d =
    ema_crossover d.crossover (d.text "ema_crossover")
    ∷ ema_rsi d.setup (d.text "ema_rsi")
    ∷ ema_trend d.trend (d.text "ema_trend")
    ∷ rsi_mean_reversion d.reversion (d.text "rsi_mean_reversion")
    ∷ breakout d.channel (d.text "breakout")
    ∷ []

abbrev pub bootstrap_default_strategies : Defaults → Registry → Registry
bootstrap_default_strategies d r = register_missing (defaults d) r
