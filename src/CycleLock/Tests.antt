-- ===== src/CycleLock/Tests.antt =====
-- Runs of the cycle lock on a table in memory, and its theorems at concrete inputs.
use live_auto_trading.Prelude.{
  String, string_key, ◌≡◌, refl, sym, ap, Option, none, some, [], ◌∷◌, if◌then◌else◌, ◌==◌,
}
use live_auto_trading.CycleLock.Lock.{
  CycleLockOrm, acquired, Database, IsTable, take, caught, new_row, acquire_cycle_lock,
  release_cycle_lock,
}
use live_auto_trading.CycleLock.Cases.{IsRefused}
use live_auto_trading.CycleLock.Exclusive.{
  acquires, releases, calls, acquire_exclusive, acquire_release,
}

abbrev Table : Type 0
Table = String → Option CycleLockOrm

abbrev put : CycleLockOrm → Table → Option CycleLockOrm → Option (Option Table)
put row s none = some (some (λ j. if row.lock_key == j then some row else s j))
put row s (some old) = some none

-- `add` reports a second row under a primary key.
abbrev memory : Database Table
memory = record {
  get = λ k s. some (s k);
  remove = λ k s. some (λ j. if k == j then none else s j);
  add = λ row s. put row s (s row.lock_key);
}

abbrev memory_rows : Table → String → Option CycleLockOrm
memory_rows s k = s k

at_key : (j : String) {s s' : Table} → some s ≡ some s' → s' j ≡ s j
at_key j e = sym (ap (λ m. read m) e)
  where
    read : Option Table → Option CycleLockOrm
    read none = none
    read (some s) = s j

same_row : {r r' : Option CycleLockOrm} → some r ≡ some r' → r ≡ r'
same_row e = cc

put_row :
    (row : CycleLockOrm) (j : String) (s : Table) (old : Option CycleLockOrm) {s' : Table}
    → put row s old ≡ some (some s')
    → s' j ≡ (if row.lock_key == j then some row else s j)
put_row row j s none e = at_key j (same_table e)
  where
    same_table : {t t' : Option Table} → some t ≡ some t' → t ≡ t'
    same_table e = cc
put_row row j s (some old) e = cc

memory-IsTable : IsTable memory memory_rows
memory-IsTable = record {
  get-rows = λ k s e. same_row e;
  remove-rows = λ k j e. at_key j e;
  add-rows = λ row j {s} e. put_row row j s (s row.lock_key) e;
}

abbrev empty : Table
empty k = none

abbrev locked : Table
locked = (acquire_cycle_lock memory "cycle" 120 none "first" 1000 empty).1

locked_status : (acquire_cycle_lock memory "cycle" 120 none "first" 1000 empty).0.status ≡ acquired
unfolding acquire_cycle_lock take
locked_status = refl

-- over at 1120, it is given to another
taken_over : (acquire_cycle_lock memory "cycle" 120 none "second" 1120 locked).0.status ≡ acquired
unfolding acquire_cycle_lock take
taken_over = refl

-- Two workers that have both read a lock that is over: each deletes by the key, so the later one deletes
-- the row that the other has just entered, and both have the lock.
stale_read :
    (acquire_cycle_lock memory "cycle" 120 none "second" 1120 locked).0.status
    ≡ (caught memory locked (
        take memory
          (new_row memory "cycle" 120 1121 "third" none)
          (acquire_cycle_lock memory "cycle" 120 none "second" 1120 locked).1
          (locked "cycle"))).0.status
unfolding acquire_cycle_lock take
stale_read = refl

acquire_exclusive_example : IsRefused memory memory_rows locked (
    acquire_cycle_lock memory "cycle" 120 none "third" 1119
      (calls memory "cycle" (acquires 60 none "second" 1001 ∷ releases "second" ∷ []) locked))
acquire_exclusive_example =
    acquire_exclusive memory memory_rows memory-IsTable "cycle" 120 none "first" 1000 empty
      (acquires 60 none "second" 1001 ∷ releases "second" ∷ []) 120 none "third" 1119 locked_status
      (refl, (refl, tt)) refl

acquire_release_example :
    memory_rows (release_cycle_lock memory "cycle" "first" locked) "cycle" ≡ none
acquire_release_example =
    acquire_release memory memory_rows memory-IsTable "cycle" 120 none "first" 1000 empty refl
      locked_status refl refl "cycle"
