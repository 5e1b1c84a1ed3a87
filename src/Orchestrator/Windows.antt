-- ===== src/Orchestrator/Windows.antt =====
-- The windows of candles that the strategies are shown.
use live_auto_trading.Prelude.{
  ℕ, string_key, ◌==◌, ◌<◌, ◌≡◌, refl, String, true, false, Option, none, some, List, [], ◌∷◌, ◌++◌,
  map, arith, Bool-cases, inl, inr,
}
use live_auto_trading.Dict.{lookup, lookup-insert, All}
use live_auto_trading.Domain.Market.{Candle}
use live_auto_trading.Gateway.Submit.{OrderGateway}
use live_auto_trading.Strategies.EmaCrossover.{goes_down}
use live_auto_trading.Orchestrator.State.{Orchestrator, Session, Surroundings, new_orchestrator}
use live_auto_trading.Orchestrator.Process.{not_after, or_empty, accepted, feed, process_candle}
use mathlib.Core.Path.{subst}
use live_auto_trading.Orchestrator.Acting.{submit}
use live_auto_trading.Orchestrator.Step.{on_paper}
use live_auto_trading.Orchestrator.Marks.{Marks, marks_of, Marked}
use live_auto_trading.Orchestrator.Accepting.{IsNew, process_candle-Keeps}

-- The window of a symbol holds closed candles of that symbol, each later than the one before it, and
-- none later than the last one.
pub record IsRising (symbol : String) (w : List Candle) (last : Option ℕ) : Type 0 where
  pub closed : All (λ c. c.is_closed ≡ true) w
  pub named : All (λ c. c.symbol ≡ symbol) w
  pub known : All (λ c. not_after c.open_time last ≡ true) w
  pub rising : goes_down (map (λ c. c.open_time) w) ≡ false

All-snoc :
    {A : Type 0} (P : A → Type 0) (xs : List A) (c : A) → All P xs → P c → All P (xs ++ c ∷ [])
All-snoc P [] c h p = (p, tt)
All-snoc P (x ∷ xs) c (first, h) p = (first, All-snoc P xs c h p)

-- A time that is not after the last one is before one that is.
pub before_new :
    (s t : ℕ) (last : Option ℕ) → not_after s last ≡ true → not_after t last ≡ false → s < t
before_new s t none h k = cc
before_new s t (some l) h k = ground arith

All-known :
    (xs : List Candle) (t : ℕ) (last : Option ℕ)
    → All (λ c. not_after c.open_time last ≡ true) xs
    → not_after t last ≡ false
    → All (λ c. c.open_time < t) xs
All-known [] t last h k = tt
All-known (x ∷ xs) t last (first, h) k =
    (before_new x.open_time t last first k, All-known xs t last h k)

goes_down-snoc :
    (xs : List Candle) (c : Candle)
    → goes_down (map (λ k. k.open_time) xs) ≡ false
    → All (λ k. k.open_time < c.open_time) xs
    → goes_down (map (λ k. k.open_time) (xs ++ c ∷ [])) ≡ false
unfolding goes_down
goes_down-snoc [] c h k = refl
goes_down-snoc (x ∷ []) c h (first, k) = ground arith
goes_down-snoc (x ∷ y ∷ xs) c h (first, k) =
    let later = goes_down-snoc (y ∷ xs) c (ground arith) k in ground arith

weaker :
    (xs : List Candle) (t : ℕ)
    → All (λ c. c.open_time < t) xs
    → All (λ c. not_after c.open_time (some t) ≡ true) xs
weaker [] t h = tt
weaker (x ∷ xs) t (first, h) = (ground arith, weaker xs t h)

snoc-IsRising :
    (w : List Candle) (last : Option ℕ) (c : Candle)
    → IsRising c.symbol w last
    → c.is_closed ≡ true
    → not_after c.open_time last ≡ false
    → IsRising c.symbol (w ++ c ∷ []) (some c.open_time)
snoc-IsRising w last c h k l =
    let below = All-known w c.open_time last h.known l in
    record {
      closed = All-snoc _ w c h.closed k;
      named = All-snoc _ w c h.named refl;
      known = All-snoc _ w c (weaker w c.open_time below) (ground arith);
      rising = goes_down-snoc w c h.rising below;
    }

-- Every window is rising.
abbrev pub IsOrdered : Marks → OrderGateway → Type 0
IsOrdered m g =
    (symbol : String)
    → IsRising symbol (or_empty (lookup symbol m.window)) (lookup symbol m.last_open_time)

accepted-IsOrdered :
    (candle : Candle) (o : Orchestrator) (g : OrderGateway)
    → IsNew candle o
    → IsOrdered (marks_of o) g
    → IsOrdered (marks_of (accepted candle o)) g
unfolding accepted
accepted-IsOrdered candle o g new h symbol =
    let w = or_empty (lookup candle.symbol o.window) ++ candle ∷ [] in
    rw
      (
        lookup-insert candle.symbol symbol w o.window,
        lookup-insert candle.symbol symbol candle.open_time o.last_open_time,
      )
      (elim (Bool-cases (candle.symbol == symbol)) [
        | inl e ↦ rw e (
            subst (λ s. IsRising s w (some candle.open_time))
              ((string_key.decides candle.symbol symbol).0 e)
              (snoc-IsRising _ _ candle (h candle.symbol) new.closed new.later))
        | inr e ↦ rw e (h symbol)
      ])

empty-IsOrdered : (g g' : OrderGateway) → IsOrdered (marks_of (new_orchestrator g)) g'
unfolding lookup goes_down
empty-IsOrdered g g' symbol = record { closed = tt; named = tt; known = tt; rising = refl }

feed-IsOrdered :
    (session : Session) (candles : List (Surroundings × Candle)) (o : Orchestrator)
    → Marked IsOrdered o
    → Marked IsOrdered (feed session candles o)
unfolding feed submit on_paper
feed-IsOrdered session [] o h = h
feed-IsOrdered session ((at, candle) ∷ candles) o h =
    feed-IsOrdered session candles (process_candle session at candle o).1 (
      (process_candle-Keeps IsOrdered session at candle
          (λ request context. record { at = λ o h. h }) (record { at = λ o h. h })
          (λ o new h. accepted-IsOrdered candle o o.gateway new h)).at
        o h)

-- Whatever candles a new session is fed, in whatever order, incomplete or repeated, every window that
-- its strategy is shown holds closed candles of the one symbol, in strictly increasing time.
pub feed_windows :
    (session : Session) (g : OrderGateway) (candles : List (Surroundings × Candle))
    (symbol : String)
    → let o = feed session candles (new_orchestrator g) in
      IsRising symbol (or_empty (lookup symbol o.window)) (lookup symbol o.last_open_time)
feed_windows session g candles symbol =
    feed-IsOrdered session candles (new_orchestrator g) (empty-IsOrdered g g) symbol
