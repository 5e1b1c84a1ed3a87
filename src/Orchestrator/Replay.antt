-- ===== src/Orchestrator/Replay.antt =====
-- Candles that are fed again.
use live_auto_trading.Prelude.{
  ℕ, string_key, ◌==◌, ◌+◌, ◌≡◌, refl, ap, ◌∙◌, Bool, true, false, not, ◌||◌, Option, none, some,
  List, [], ◌∷◌, arith, if◌then◌else◌, Bool-cases, inl, inr,
}
use mathlib.Core.Path.{subst}
use mathlib.Core.Bool.{false≢true}
use live_auto_trading.Dict.{lookup, lookup-insert, All}
use live_auto_trading.Domain.Market.{Candle}
use live_auto_trading.Orchestrator.State.{
  Orchestrator, Session, Surroundings, RejectReason, incomplete_candle, duplicate_candle,
  out_of_order_candle, Entry, no_stats,
}
use live_auto_trading.Orchestrator.Step.{
  settled, written, record_if, record_entry, on_paper, modify,
}
use live_auto_trading.Orchestrator.Acting.{submit}
use live_auto_trading.Orchestrator.Process.{
  is_seen, not_after, reject_reason, accepted, feed, process_candle, process_judged,
}
use live_auto_trading.Orchestrator.Keeps.{Keeps, Keeps-pure, keeps_rules}
use live_auto_trading.Orchestrator.Marks.{Marks, marks_of, follow-Keeps}
use live_auto_trading.Orchestrator.Accepting.{IsNew, process_candle-Keeps}
use live_auto_trading.Orchestrator.Windows.{before_new}

-- the state without the counters and the journal
abbrev pub trading_of : Orchestrator → Orchestrator
trading_of o = record o { stats = no_stats; journal = []; writes = 0 }

-- The candle cannot be accepted any more.
abbrev pub is_done : Candle → Marks → Bool
is_done c m =
    not c.is_closed
    || (is_seen c.symbol c.open_time m.seen_candles
        || not_after c.open_time (lookup c.symbol m.last_open_time))

-- A rejected candle changes the counters and the journal alone.
module _ (session : Session) (x : Orchestrator) where
  abbrev IsStill : Orchestrator → Type 0
  IsStill o = trading_of o ≡ x

  written-IsStill : (entry : Entry) → Keeps IsStill (modify (written session entry))
  unfolding written
  written-IsStill entry = record { at = λ o h. either (session.writable o.writes) o h }
    where
      either :
          (b : Bool) (o : Orchestrator)
          → IsStill o
          → IsStill (settled b entry (record o { writes = o.writes + 1 }))
      either true o h = h
      either false o h = h

  record_entry-IsStill : (entry : Entry) → Keeps IsStill (record_entry session entry)
  record_entry-IsStill entry = attach session.journal
    where
      attach : (b : Bool) → Keeps IsStill (record_if b session entry)
      attach true = written-IsStill entry
      attach false = Keeps-pure tt

  refused-IsStill :
      (at : Surroundings) (candle : Candle) (reason : RejectReason)
      → Keeps IsStill (process_judged session at candle (some reason))
  unfolding process_judged
  refused-IsStill at candle reason = search (keeps_rules, record_entry-IsStill)

done_reason :
    (session : Session) (now : ℕ) (c : Candle) (o : Orchestrator)
    → is_done c (marks_of o) ≡ true
    → (r : RejectReason) × (reject_reason session now c o ≡ some r)
unfolding reject_reason
done_reason session now c o h =
    reason c.is_closed (is_seen c.symbol c.open_time o.seen_candles)
      (not_after c.open_time (lookup c.symbol o.last_open_time)) _ h
  where
    reason :
        (a b c : Bool) (u : Option RejectReason)
        → (not a || (b || c)) ≡ true
        → (r : RejectReason) × ((if not a
              then some incomplete_candle
              else if b
              then some duplicate_candle
              else if c
              then some out_of_order_candle
              else u)
            ≡ some r)
    reason false b c u h = (incomplete_candle, refl)
    reason true true c u h = (duplicate_candle, refl)
    reason true false true u h = (out_of_order_candle, refl)
    reason true false false u h = absurd (false≢true h)

-- Without a limit on the age, a candle is rejected only where it cannot be accepted any more.
reason_done :
    (session : Session) (now : ℕ) (c : Candle) (o : Orchestrator) {r : RejectReason}
    → session.max_candle_age_seconds ≡ none
    → reject_reason session now c o ≡ some r
    → is_done c (marks_of o) ≡ true
unfolding reject_reason
reason_done session now c o ageless h =
    done c.is_closed (is_seen c.symbol c.open_time o.seen_candles)
      (not_after c.open_time (lookup c.symbol o.last_open_time)) (rw ageless at h)
  where
    done :
        {r : RejectReason} (a b c : Bool)
        → (if not a
            then some incomplete_candle
            else if b
            then some duplicate_candle
            else if c
            then some out_of_order_candle
            else none)
          ≡ some r
        → (not a || (b || c)) ≡ true
    done false b c h = refl
    done true true c h = refl
    done true false true h = refl
    done true false false h = cc

process-still :
    (session : Session) (at : Surroundings) (c : Candle) (o : Orchestrator)
    → is_done c (marks_of o) ≡ true
    → trading_of (process_candle session at c o).1 ≡ trading_of o
unfolding process_candle
process-still session at c o h =
    let counted : Orchestrator = record o {
      stats = record o.stats { candles_received = o.stats.candles_received + 1 };
    } in
    let (r, e) = done_reason session at.judged_at c counted h in
    rw e ((refused-IsStill session (trading_of o) at c r).at counted refl)

-- What was late stays late, once a later candle is accepted.
earlier :
    (s t : ℕ) (last : Option ℕ) (a b d : Bool)
    → not_after t last ≡ false
    → (a || (b || not_after s last)) ≡ true
    → (a || ((d || b) || not_after s (some t))) ≡ true
earlier s t last true b d h k = refl
earlier s t last false true d h k = ground arith
earlier s t last false false d h k = let before = before_new s t last k h in ground arith

accepted-done :
    (c candle : Candle) (o : Orchestrator)
    → IsNew candle o
    → is_done c (marks_of o) ≡ true
    → is_done c (marks_of (accepted candle o)) ≡ true
unfolding accepted
accepted-done c candle o new h =
    rw (lookup-insert candle.symbol c.symbol candle.open_time o.last_open_time)
      (elim (Bool-cases (candle.symbol == c.symbol)) [
        | inl e ↦
            let same : candle.symbol ≡ c.symbol = (string_key.decides candle.symbol c.symbol).0 e in
            rw e (
              earlier c.open_time candle.open_time (lookup c.symbol o.last_open_time) _ _ _
                (subst (λ s. not_after candle.open_time (lookup s o.last_open_time) ≡ false) same
                  new.later)
                h)
        | inr e ↦ rw e h
      ])

process-done :
    (session : Session) (at : Surroundings) (c candle : Candle) (o : Orchestrator)
    → is_done c (marks_of o) ≡ true
    → is_done c (marks_of (process_candle session at candle o).1) ≡ true
unfolding submit on_paper
process-done session at c candle o h =
    (process_candle-Keeps (λ m g. is_done c m ≡ true) session at candle
        (λ request context. record { at = λ o h. h }) (record { at = λ o h. h })
        (λ o new h. accepted-done c candle o new h)).at
      o h

now_done : (c : Candle) (o : Orchestrator) → is_done c (marks_of (accepted c o)) ≡ true
unfolding accepted
now_done c o = rw ((string_key.decides c.symbol c.symbol).1 refl) (ground arith)

-- Once a candle has been processed, it cannot be accepted any more.
processed-done :
    (session : Session) (at : Surroundings) (c : Candle) (o : Orchestrator)
    → session.max_candle_age_seconds ≡ none
    → is_done c (marks_of (process_candle session at c o).1) ≡ true
unfolding process_candle process_judged submit on_paper
processed-done session at c o ageless = ended (reject_reason session at.judged_at c counted) refl
  where
    counted : Orchestrator
    counted = record o {
      stats = record o.stats { candles_received = o.stats.candles_received + 1 };
    }

    ended :
        (r : Option RejectReason)
        → reject_reason session at.judged_at c counted ≡ r
        → is_done c (marks_of (process_judged session at c r counted).1) ≡ true
    ended (some reason) e =
        ap (λ x. is_done c (marks_of x))
          ((refused-IsStill session (trading_of counted) at c reason).at counted refl)
        ∙ reason_done session at.judged_at c counted ageless e
    ended none e =
        (follow-Keeps (λ m g. is_done c m ≡ true) session at c
            (λ request context. record { at = λ o h. h }) (record { at = λ o h. h })).at
          (accepted c counted) (now_done c counted)

-- A candle is among those of a feed.
pub data IsFed (c : Candle) : List (Surroundings × Candle) → Type 0 where
  here :
      {x : Surroundings × Candle} {xs : List (Surroundings × Candle)} → x.1 ≡ c → IsFed c (x ∷ xs)
  there :
      {x : Surroundings × Candle} {xs : List (Surroundings × Candle)}
      → IsFed c xs
      → IsFed c (x ∷ xs)

module _ (session : Session) where
  feed-done :
      (c : Candle) (candles : List (Surroundings × Candle)) (o : Orchestrator)
      → is_done c (marks_of o) ≡ true
      → is_done c (marks_of (feed session candles o)) ≡ true
  unfolding feed
  feed-done c [] o h = h
  feed-done c ((at, candle) ∷ candles) o h =
      feed-done c candles (process_candle session at candle o).1
        (process-done session at c candle o h)

  fed-done :
      (c : Candle) (candles : List (Surroundings × Candle)) (o : Orchestrator)
      → session.max_candle_age_seconds ≡ none
      → IsFed c candles
      → is_done c (marks_of (feed session candles o)) ≡ true
  unfolding feed
  fed-done c [] o ageless m = elim m [ ]
  fed-done c ((at, candle) ∷ candles) o ageless (here e) =
      feed-done c candles (process_candle session at candle o).1 (
        subst (λ k. is_done k (marks_of (process_candle session at candle o).1) ≡ true) e
          (processed-done session at candle o ageless))
  fed-done c ((at, candle) ∷ candles) o ageless (there m) =
      fed-done c candles (process_candle session at candle o).1 ageless m

  feed-still :
      (again : List (Surroundings × Candle)) (o : Orchestrator)
      → All (λ x. is_done x.1 (marks_of o) ≡ true) again
      → trading_of (feed session again o) ≡ trading_of o
  unfolding feed
  feed-still [] o h = refl
  feed-still ((at, c) ∷ again) o (first, h) =
      let still = process-still session at c o first in
      feed-still again (process_candle session at c o).1 (later again h) ∙ still
    where
      later :
          (again : List (Surroundings × Candle))
          → All (λ x. is_done x.1 (marks_of o) ≡ true) again
          → All (λ x. is_done x.1 (marks_of (process_candle session at c o).1) ≡ true) again
      later [] h = tt
      later (x ∷ again) (first, h) = (process-done session at x.1 c o first, later again h)

  again_done :
      (candles again : List (Surroundings × Candle)) (o : Orchestrator)
      → session.max_candle_age_seconds ≡ none
      → All (λ x. IsFed x.1 candles) again
      → All (λ x. is_done x.1 (marks_of (feed session candles o)) ≡ true) again
  again_done candles [] o ageless h = tt
  again_done candles (x ∷ again) o ageless (first, h) =
      (fed-done x.1 candles o ageless first, again_done candles again o ageless h)

  -- A replay is harmless: after a feed, any candles of it that come again, in whatever order, however
  -- often, at whatever times and whatever the first processing raised, change nothing but the counters
  -- and the journal: no order reaches the gateway, and the ledger, the windows and the memory of
  -- signals are as they were. The session sets no limit on the age of candles.
  pub feed_replay :
      (candles again : List (Surroundings × Candle)) (o : Orchestrator)
      → session.max_candle_age_seconds ≡ none
      → All (λ x. IsFed x.1 candles) again
      → trading_of (feed session again (feed session candles o))
        ≡ trading_of (feed session candles o)
  feed_replay candles again o ageless h =
      feed-still again (feed session candles o) (again_done candles again o ageless h)
