-- ===== src/Orchestrator/Step.antt =====
-- A method of the orchestrator: it reads and writes the state, and returns or raises (`none`). What was
-- written before a raise stays written.
use live_auto_trading.Prelude.{◌+◌, Bool, true, false, Option, none, some, ◌∷◌}
use live_auto_trading.Paper.Action as paper
use live_auto_trading.Paper.Action.{Action}
use live_auto_trading.Orchestrator.State.{Orchestrator, OrchestratorStats, Entry, Session}

abbrev pub Step : Type 0 → Type 0
Step A = Orchestrator → Option A × Orchestrator

abbrev pub pure : {A : Type 0} → A → Step A
pure a o = (some a, o)

abbrev pub gets : {A : Type 0} → (Orchestrator → A) → Step A
gets f o = (some (f o), o)

abbrev pub modify : (Orchestrator → Orchestrator) → Step (Unit {0})
modify f o = (some tt, f o)

abbrev pub or_raise : {A : Type 0} → Option A → Step A
or_raise m o = (m, o)

infixl 5 ◌>>=◌ ◌>>◌
abbrev pub continue : {A B : Type 0} → Option A → (A → Step B) → Step B
continue (some a) f o = f a o
continue none f o = (none, o)

abbrev pub ◌>>=◌ : {A B : Type 0} → Step A → (A → Step B) → Step B
◌>>=◌ m f o = continue (m o).0 f (m o).1

abbrev pub ◌>>◌ : {B : Type 0} → Step (Unit {0}) → Step B → Step B
m >> k = m >>= λ _. k

-- What an exception of `m` is turned into.
unfoldable pub attempt : {A : Type 0} → Step A → Step (Option A)
attempt m o = (some (m o).0, (m o).1)

abbrev pub count : (OrchestratorStats → OrchestratorStats) → Step (Unit {0})
count f = modify (λ o. record o { stats = f o.stats })

abbrev pub count_error : Step (Unit {0})
count_error = count (λ s. record s { errors = s.errors + 1 })

-- what a call on the paper engine returned
abbrev pub of_result : {A : Type 0} → paper.Result A → Option A
of_result (paper.ok a) = some a
of_result (paper.raised e) = none

-- A call on the paper engine that the gateway holds.
unfoldable pub on_paper : {A : Type 0} → Action A → Step A
on_paper m o =
    let (r, backend') = m o.gateway.backend in
    (of_result r, record o { gateway = record o.gateway { backend = backend' } })

-- One write to the journal, at its count, and what `_guarded` does with it.
abbrev pub settled : Bool → Entry → Orchestrator → Orchestrator
settled true entry o = record o { journal = entry ∷ o.journal }
settled false entry o = record o { stats = record o.stats { errors = o.stats.errors + 1 } }

unfoldable pub written : Session → Entry → Orchestrator → Orchestrator
written session entry o =
    settled (session.writable o.writes) entry (record o { writes = o.writes + 1 })

abbrev pub record_if : Bool → Session → Entry → Step (Unit {0})
record_if true session entry = modify (written session entry)
record_if false session entry = pure tt

abbrev pub record_entry : Session → Entry → Step (Unit {0})
record_entry session entry = record_if session.journal session entry
