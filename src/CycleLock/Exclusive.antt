-- ===== src/CycleLock/Exclusive.antt =====
-- Acquired locks, other workers, and the release.
use live_auto_trading.Prelude.{
  ℕ, ◌+◌, String, string_key, ◌≡◌, refl, sym, ap, ◌∙◌, Bool, true, false, Option, none, some, List,
  [], ◌∷◌, ltb, ◌==◌, inl, inr, Bool-cases,
}
use mathlib.Core.Option.{none-ne-some}
use mathlib.Core.Bool.{true≢false}
use live_auto_trading.Prelude.Options.{◌>>=◌}
use live_auto_trading.Dict.{All}
use live_auto_trading.CycleLock.Lock.{
  CycleLockOrm, LockAcquireResult, acquired, Database, IsTable, new_row, acquire_cycle_lock,
  release_held, or_start, release_cycle_lock,
}
use live_auto_trading.CycleLock.Cases.{
  IsAcquired, IsRefused, Judged, acquire_cases, acquired-IsAcquired,
}

row_eq : {r r' : CycleLockOrm} → some r ≡ some r' → r ≡ r'
row_eq e = cc

alive_at : ℕ → CycleLockOrm → Bool
alive_at now r = ltb now r.expires_at

-- What another worker calls with the key.
pub data Call : Type 0 where
  acquires : ℕ → Option String → String → ℕ → Call
  releases : String → Call

-- It comes before `expiry`, and does not release in the name of `owner`.
abbrev pub IsForeign : String → ℕ → Call → Type 0
IsForeign owner expiry (acquires ttl c other now) = ltb now expiry ≡ true
IsForeign owner expiry (releases other) = (owner == other) ≡ false

module _ {S : Type 0} (db : Database S) where
  -- the state after calls with one key
  unfoldable pub call : String → Call → S → S
  call key (acquires ttl c owner now) s = (acquire_cycle_lock db key ttl c owner now s).1
  call key (releases owner) s = release_cycle_lock db key owner s

  unfoldable pub calls : String → List Call → S → S
  calls key [] s = s
  calls key (k ∷ ks) s = calls key ks (call key k s)

module _ {S : Type 0} (db : Database S) (rows : S → String → Option CycleLockOrm)
    (table : IsTable db rows) where
  held_acquire :
      (row : CycleLockOrm) (ttl : ℕ) (c : Option String) (owner : String) (now : ℕ) (s : S)
      → rows s row.lock_key ≡ some row
      → ltb now row.expires_at ≡ true
      → IsRefused db rows s (acquire_cycle_lock db row.lock_key ttl c owner now s)
  unfolding alive_at
  held_acquire row ttl c owner now s e alive =
      refused_by (acquire_cases db rows table row.lock_key ttl c owner now s)
    where
      refused_by :
          {r : LockAcquireResult × S}
          → Judged db rows (new_row db row.lock_key ttl now owner c) s r
          → IsRefused db rows s r
      refused_by (inr r) = r
      refused_by (inl a) = elim a.free [
        | inl absent ↦ absurd (none-ne-some _ (sym absent ∙ e))
        | inr (old, there, over) ↦
            absurd (true≢false (sym alive ∙ ap (alive_at now) (row_eq (sym e ∙ there)) ∙ over))
      ]

  held_release :
      (row : CycleLockOrm) (other : String) (s : S)
      → rows s row.lock_key ≡ some row
      → (row.owner == other) ≡ false
      → release_cycle_lock db row.lock_key other s ≡ s
  unfolding release_cycle_lock release_held
  held_release row other s e foreign = by_read (db.get row.lock_key s) refl
    where
      by_read :
          (m : Option (Option CycleLockOrm))
          → db.get row.lock_key s ≡ m
          → or_start db s (db.get row.lock_key s >>= release_held db row.lock_key other s) ≡ s
      by_read none g = rw g refl
      by_read (some none) g = rw g refl
      by_read (some (some r)) g =
          rw (g, row_eq (sym (table.get-rows row.lock_key s g) ∙ e), foreign) refl

  held_calls :
      (row : CycleLockOrm) (ks : List Call) (s : S)
      → rows s row.lock_key ≡ some row
      → All (IsForeign row.owner row.expires_at) ks
      → calls db row.lock_key ks s ≡ s
  unfolding calls call
  held_calls row [] s e h = refl
  held_calls row (acquires ttl c owner now ∷ ks) s e h =
      rw (held_acquire row ttl c owner now s e h.0).unchanged (held_calls row ks s e h.1)
  held_calls row (releases other ∷ ks) s e h =
      rw (held_release row other s e h.0) (held_calls row ks s e h.1)

  own_row :
      {row : CycleLockOrm} {s : S} {r : LockAcquireResult × S}
      → IsAcquired db rows row s r
      → rows r.1 row.lock_key ≡ some row
  own_row {row} a =
      a.entered row.lock_key ∙ rw ((string_key.decides row.lock_key row.lock_key).1 refl) refl

  released :
      (row : CycleLockOrm) (s : S) {r : Option CycleLockOrm} {s' : S}
      → rows s row.lock_key ≡ some row
      → db.get row.lock_key s ≡ some r
      → db.remove row.lock_key s ≡ some s'
      → release_cycle_lock db row.lock_key row.owner s ≡ s'
  unfolding release_cycle_lock release_held
  released row s there got removed =
      rw
        (
          got,
          sym (table.get-rows row.lock_key s got) ∙ there,
          (string_key.decides row.owner row.owner).1 refl,
          removed,
        )
        refl

  -- Mutual exclusion: once a lock is acquired, any sequence of calls by others before it is over, with the
  -- same key and other owners, leaves the database as it is; and a further acquisition
  -- before that time gives no lock and changes nothing. The calls are whole, not interleaved.
  pub acquire_exclusive :
      (key : String) (ttl : ℕ) (c : Option String) (owner : String) (now : ℕ) (s : S)
      (ks : List Call) (ttl' : ℕ) (c' : Option String) (owner' : String) (now' : ℕ)
      → (acquire_cycle_lock db key ttl c owner now s).0.status ≡ acquired
      → All (IsForeign owner (now + ttl)) ks
      → ltb now' (now + ttl) ≡ true
      → IsRefused db rows (acquire_cycle_lock db key ttl c owner now s).1 (
          acquire_cycle_lock db key ttl' c' owner' now'
            (calls db key ks (acquire_cycle_lock db key ttl c owner now s).1))
  acquire_exclusive key ttl c owner now s ks ttl' c' owner' now' ok foreign early =
      rw (held_calls row ks _ there foreign) (held_acquire row ttl' c' owner' now' _ there early)
    where
      row : CycleLockOrm
      row = new_row db key ttl now owner c

      there : rows (acquire_cycle_lock db key ttl c owner now s).1 key ≡ some row
      there = own_row (acquired-IsAcquired db rows table key ttl c owner now s ok)

  -- The release undoes the acquisition: where the key was free, the acquisition gave a lock, and the
  -- database answers the two calls of the release, the table holds what it held before, under every key.
  pub acquire_release :
      (key : String) (ttl : ℕ) (c : Option String) (owner : String) (now : ℕ) (s : S)
      {r : Option CycleLockOrm} {s' : S}
      → rows s key ≡ none
      → (acquire_cycle_lock db key ttl c owner now s).0.status ≡ acquired
      → db.get key (acquire_cycle_lock db key ttl c owner now s).1 ≡ some r
      → db.remove key (acquire_cycle_lock db key ttl c owner now s).1 ≡ some s'
      → (j : String)
      → rows (release_cycle_lock db key owner (acquire_cycle_lock db key ttl c owner now s).1) j
        ≡ rows s j
  acquire_release key ttl c owner now s free ok got removed j =
      rw (released row s1 (own_row mine) got removed) (
        table.remove-rows key j removed ∙ elim (Bool-cases (key == j)) [
          | inl hit ↦ rw hit (sym free ∙ ap (rows s) ((string_key.decides key j).0 hit))
          | inr miss ↦ rw miss (rw miss at (mine.entered j))
        ])
    where
      row : CycleLockOrm
      row = new_row db key ttl now owner c

      s1 : S
      s1 = (acquire_cycle_lock db key ttl c owner now s).1

      mine : IsAcquired db rows row s (acquire_cycle_lock db key ttl c owner now s)
      mine = acquired-IsAcquired db rows table key ttl c owner now s ok
