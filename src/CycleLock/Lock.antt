-- ===== src/CycleLock/Lock.antt =====
-- The lock of a paper cycle. The database is SQLAlchemy's: its calls are the fields of `Database`, and
-- what they are documented to do to the table of locks is `IsTable`.
use live_auto_trading.Prelude.{
  ℕ, ◌+◌, String, string_key, ◌≡◌, Option, none, some, if◌then◌else◌, ltb, ◌==◌,
}
use live_auto_trading.Prelude.Options.{◌>>=◌}

-- a row of `cycle_locks`
pub record CycleLockOrm : Type 0 where
  pub lock_key : String
  pub owner : String
  pub acquired_at : ℕ
  pub expires_at : ℕ
  pub correlation_id : Option String

pub record CycleLock : Type 0 where
  pub lock_key : String
  pub owner : String
  pub correlation_id : Option String

pub data LockStatus : Type 0 where
  acquired held unavailable : LockStatus

pub record LockAcquireResult : Type 0 where
  pub status : LockStatus
  pub lock : Option CycleLock

-- The calls of a session on a database in the state `S`; `none` is an exception. `remove` is a delete
-- that is flushed, and the inner `none` of `add` is the `IntegrityError` of its commit.
pub record Database (S : Type 0) : Type 0 where
  pub get : String → S → Option (Option CycleLockOrm)
  pub remove : String → S → Option S
  pub add : CycleLockOrm → S → Option (Option S)

-- `rows` is what the table holds under a primary key.
pub record IsTable {S : Type 0} (db : Database S) (rows : S → String → Option CycleLockOrm)
    : Type 0 where
  pub get-rows : (k : String) (s : S) {r : Option CycleLockOrm} → db.get k s ≡ some r → rows s k ≡ r
  pub remove-rows :
      (k j : String) {s s' : S}
      → db.remove k s ≡ some s'
      → rows s' j ≡ (if k == j then none else rows s j)
  pub add-rows :
      (row : CycleLockOrm) (j : String) {s s' : S}
      → db.add row s ≡ some (some s')
      → rows s' j ≡ (if row.lock_key == j then some row else rows s j)

module _ {S : Type 0} (db : Database S) where
  abbrev pub refused : LockStatus → S → LockAcquireResult × S
  refused status s = (record { status = status; lock = none }, s)

  -- After an `IntegrityError`, the rollback brings back the state `start`.
  abbrev pub committed : CycleLockOrm → S → Option S → LockAcquireResult × S
  committed row start none = refused held start
  committed row start (some s) = (
    record {
      status = acquired;
      lock = some (record {
        lock_key = row.lock_key;
        owner = row.owner;
        correlation_id = row.correlation_id;
      });
    },
    s,
  )

  abbrev pub enter : CycleLockOrm → S → S → Option (LockAcquireResult × S)
  enter row start s = do added ← db.add row s; some (committed row start added)

  unfoldable pub take : CycleLockOrm → S → Option CycleLockOrm → Option (LockAcquireResult × S)
  take row start none = enter row start start
  take row start (some existing) =
      if ltb row.acquired_at existing.expires_at
      then some (refused held start)
      else do s ← db.remove row.lock_key start; enter row start s

  -- An exception is caught: what was done is rolled back.
  abbrev pub caught : S → Option (LockAcquireResult × S) → LockAcquireResult × S
  caught start none = refused unavailable start
  caught start (some result) = result

  abbrev pub new_row : String → ℕ → ℕ → String → Option String → CycleLockOrm
  new_row key ttl now owner correlation = record {
    lock_key = key;
    owner = owner;
    acquired_at = now;
    expires_at = now + ttl;
    correlation_id = correlation;
  }

  abbrev pub try_row : CycleLockOrm → S → Option (LockAcquireResult × S)
  try_row row start = do existing ← db.get row.lock_key start; take row start existing

  -- `owner` is the text of uuid4.
  unfoldable pub acquire_cycle_lock :
      String → ℕ → Option String → String → ℕ → S → LockAcquireResult × S
  acquire_cycle_lock key ttl correlation owner now start =
      caught start (try_row (new_row key ttl now owner correlation) start)

  unfoldable pub release_held : String → String → S → Option CycleLockOrm → Option S
  release_held key owner s none = some s
  release_held key owner s (some row) = if row.owner == owner then db.remove key s else some s

  abbrev pub or_start : S → Option S → S
  or_start s none = s
  or_start s (some s') = s'

  unfoldable pub release_cycle_lock : String → String → S → S
  release_cycle_lock key owner s = or_start s (do row ← db.get key s; release_held key owner s row)
