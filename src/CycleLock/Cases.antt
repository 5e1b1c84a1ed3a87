-- ===== src/CycleLock/Cases.antt =====
-- The branches of the acquisition of a cycle lock.
use live_auto_trading.Prelude.{
  ℕ, String, string_key, ◌≡◌, refl, sym, ◌∙◌, false, Option, none, some, if◌then◌else◌, ltb, ◌==◌,
  inl, inr, ◌⊎◌, Bool-cases,
}
use live_auto_trading.Prelude.Options.{◌>>=◌}
use live_auto_trading.CycleLock.Lock.{
  CycleLockOrm, LockAcquireResult, acquired, held, unavailable, Database, IsTable, enter, take,
  caught, new_row, try_row, acquire_cycle_lock,
}

acquired≢held : ¬ (acquired ≡ held)
acquired≢held e = cc

acquired≢unavailable : ¬ (acquired ≡ unavailable)
acquired≢unavailable e = cc

module _ {S : Type 0} (db : Database S) (rows : S → String → Option CycleLockOrm) where
  -- The lock was free or over, and its row is all that is new.
  pub record IsAcquired (row : CycleLockOrm) (s : S) (r : LockAcquireResult × S) : Type 0 where
    pub status : r.0.status ≡ acquired
    pub free :
        (rows s row.lock_key ≡ none)
        ⊎ ((old : CycleLockOrm) × (rows s row.lock_key ≡ some old)
            × (ltb row.acquired_at old.expires_at ≡ false))
    pub entered : (j : String) → rows r.1 j ≡ (if row.lock_key == j then some row else rows s j)

  -- No lock, and nothing changed.
  pub record IsRefused (s : S) (r : LockAcquireResult × S) : Type 0 where
    pub status : (r.0.status ≡ held) ⊎ (r.0.status ≡ unavailable)
    pub lock : r.0.lock ≡ none
    pub unchanged : r.1 ≡ s

  abbrev pub Judged : CycleLockOrm → S → LockAcquireResult × S → Type 0
  Judged row s r = IsAcquired row s r ⊎ IsRefused s r

  raised : (row : CycleLockOrm) (s : S) → Judged row s (caught db s none)
  raised row s = inr (record { status = inr refl; lock = refl; unchanged = refl })

  module _ (table : IsTable db rows) where
    -- `s'` differs from `s` at most in the key's own row.
    enter_cases :
        (row : CycleLockOrm) (s s' : S)
        → ((rows s row.lock_key ≡ none)
            ⊎ ((old : CycleLockOrm) × (rows s row.lock_key ≡ some old)
                × (ltb row.acquired_at old.expires_at ≡ false)))
        → ((j : String) → (row.lock_key == j) ≡ false → rows s' j ≡ rows s j)
        → (m : Option (Option S)) → db.add row s' ≡ m
        → Judged row s (caught db s (enter db row s s'))
    enter_cases row s s' free same none e = rw e (raised row s)
    enter_cases row s s' free same (some none) e =
        rw e (inr (record { status = inl refl; lock = refl; unchanged = refl }))
    enter_cases row s s' free same (some (some s2)) e =
        rw e (inl (record { status = refl; free = free; entered = entered }))
      where
        entered : (j : String) → rows s2 j ≡ (if row.lock_key == j then some row else rows s j)
        entered j = elim (Bool-cases (row.lock_key == j)) [
          | inl hit ↦ rw hit (rw hit at (table.add-rows row j e))
          | inr miss ↦ rw miss ((rw miss at (table.add-rows row j e)) ∙ same j miss)
        ]

    take_cases :
        (row : CycleLockOrm) (s : S) (existing : Option CycleLockOrm)
        → rows s row.lock_key ≡ existing
        → Judged row s (caught db s (take db row s existing))
    unfolding take
    take_cases row s none e = enter_cases row s s (inl e) (λ j miss. refl) (db.add row s) refl
    take_cases row s (some old) e = elim (Bool-cases (ltb row.acquired_at old.expires_at)) [
      | inl alive ↦ rw alive (inr (record { status = inl refl; lock = refl; unchanged = refl }))
      | inr over ↦ rw over (replaced over (db.remove row.lock_key s) refl)
    ]
      where
        replaced :
            ltb row.acquired_at old.expires_at ≡ false
            → (m : Option S) → db.remove row.lock_key s ≡ m
            → Judged row s (caught db s (db.remove row.lock_key s >>= enter db row s))
        replaced over none f = rw f (raised row s)
        replaced over (some s') f = rw f (
            enter_cases row s s' (inr (old, e, over))
              (λ j miss. rw miss at (table.remove-rows row.lock_key j f)) (db.add row s') refl)

    pub acquire_cases :
        (key : String) (ttl : ℕ) (c : Option String) (owner : String) (now : ℕ) (s : S)
        → Judged (new_row db key ttl now owner c) s (acquire_cycle_lock db key ttl c owner now s)
    unfolding acquire_cycle_lock
    acquire_cases key ttl c owner now s = by_read (db.get key s) refl
      where
        by_read :
            (m : Option (Option CycleLockOrm))
            → db.get key s ≡ m
            → Judged
                (new_row db key ttl now owner c)
                s
                (caught db s (try_row db (new_row db key ttl now owner c) s))
        by_read none e = rw e (raised (new_row db key ttl now owner c) s)
        by_read (some r) e =
            rw e (take_cases (new_row db key ttl now owner c) s r (table.get-rows key s e))

    pub acquired-IsAcquired :
        (key : String) (ttl : ℕ) (c : Option String) (owner : String) (now : ℕ) (s : S)
        → (acquire_cycle_lock db key ttl c owner now s).0.status ≡ acquired
        → IsAcquired
            (new_row db key ttl now owner c)
            s
            (acquire_cycle_lock db key ttl c owner now s)
    acquired-IsAcquired key ttl c owner now s h = got (acquire_cases key ttl c owner now s)
      where
        got :
            Judged (new_row db key ttl now owner c) s (acquire_cycle_lock db key ttl c owner now s)
            → IsAcquired
                (new_row db key ttl now owner c)
                s
                (acquire_cycle_lock db key ttl c owner now s)
        got (inl a) = a
        got (inr r) = elim r.status [
          | inl e ↦ absurd (acquired≢held (sym h ∙ e))
          | inr e ↦ absurd (acquired≢unavailable (sym h ∙ e))
        ]
