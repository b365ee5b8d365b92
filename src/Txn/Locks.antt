-- ===== src/Txn/Locks.antt =====
-- server/txn/lock_manager.c: a hash table of lock entries. Each function is one critical section
-- under the bucket's mutex, so a call of `lock_mgr_lock` is a first attempt, then one more attempt
-- for each time that `pthread_cond_wait` returns.
pub mod Chains
pub mod Laws
pub mod Counts
pub mod Threads
use event_ticketing_platform.Base.{
  ℕ, ◌+◌, ◌-◌, ◌*◌, ◌%◌, Bool, true, false, ◌&&◌, ◌||◌, not, Option, none, some, List, [], ◌∷◌, ltb,
  ◌==◌, if◌then◌else◌,
}
use event_ticketing_platform.Types.{
  TableId, table_code, LockType, lock_shared, lock_exclusive, u32_mod,
}

abbrev pub lock_table_size : ℕ
lock_table_size = 251

pub record LockEntry : Type 0 where
  pub table : TableId
  pub record_id : ℕ
  pub mode : LockType
  pub shared_count : ℕ
  pub exclusive_held : Bool
  pub waiters : ℕ

-- The array of buckets, each a chain.
pub record LockManager : Type 0 where
  pub buckets : ℕ → List LockEntry

unfoldable pub lock_hash : TableId → ℕ → ℕ
lock_hash table record_id = (table_code table * 10007 + record_id) % u32_mod % lock_table_size

-- `e->table == table && e->record_id == record_id`.
unfoldable pub same_key : TableId → ℕ → TableId → ℕ → Bool
same_key table record_id table' record_id' =
    table_code table == table_code table' && record_id == record_id'

unfoldable pub find_entry : List LockEntry → TableId → ℕ → Option LockEntry
find_entry [] table record_id = none
find_entry (e ∷ es) table record_id =
    if same_key e.table e.record_id table record_id then some e else find_entry es table record_id

-- What `create_entry` puts at the head of the chain.
abbrev pub new_entry : TableId → ℕ → LockEntry
new_entry table record_id = record {
  table = table;
  record_id = record_id;
  mode = lock_shared;
  shared_count = 0;
  exclusive_held = false;
  waiters = 0;
}

-- A write through the pointer that `find_entry` returned.
unfoldable pub store_entry : List LockEntry → TableId → ℕ → LockEntry → List LockEntry
store_entry [] table record_id e' = []
store_entry (e ∷ es) table record_id e' =
    if same_key e.table e.record_id table record_id
    then e' ∷ es
    else e ∷ store_entry es table record_id e'

unfoldable pub unlink : List LockEntry → TableId → ℕ → List LockEntry
unlink [] table record_id = []
unlink (e ∷ es) table record_id =
    if same_key e.table e.record_id table record_id then es else e ∷ unlink es table record_id

abbrev pub in_use : LockEntry → Bool
in_use e = ltb 0 e.shared_count || e.exclusive_held || ltb 0 e.waiters

unfoldable pub try_remove_entry : List LockEntry → LockEntry → List LockEntry
unfolding unlink
try_remove_entry bucket e = if in_use e then bucket else unlink bucket e.table e.record_id

pub data LockOutcome : Type 0 where
  granted waits failed : LockOutcome

-- The test of the `while` loop, negated.
abbrev pub compatible : LockType → LockEntry → Bool
compatible lock_shared e = not e.exclusive_held
compatible lock_exclusive e = not (e.exclusive_held || ltb 0 e.shared_count)

abbrev pub take_lock : LockType → LockEntry → LockEntry
take_lock lock_shared e = record e { shared_count = e.shared_count + 1; mode = lock_shared }
take_lock lock_exclusive e = record e { exclusive_held = true; mode = lock_exclusive }

abbrev pub sleep : LockEntry → LockEntry
sleep e = record e { waiters = e.waiters + 1 }

abbrev pub attempt : LockType → LockEntry → LockEntry
attempt mode e = if compatible mode e then take_lock mode e else sleep e

abbrev pub outcome : LockType → LockEntry → LockOutcome
outcome mode e = if compatible mode e then granted else waits

abbrev pub bucket_of : LockManager → TableId → ℕ → List LockEntry
bucket_of lm table record_id = lm.buckets (lock_hash table record_id)

abbrev pub set_bucket : LockManager → ℕ → List LockEntry → LockManager
set_bucket lm idx bucket = record { buckets = λ i. if i == idx then bucket else lm.buckets i }

unfoldable pub lock_mgr_create : LockManager
lock_mgr_create = record { buckets = λ _. [] }

-- From the call to its grant or its first wait. `can_alloc` is the answer of `calloc`.
unfoldable pub lock_mgr_lock :
    LockManager → TableId → ℕ → LockType → Bool → LockOutcome × LockManager
lock_mgr_lock lm table record_id mode can_alloc = elim (find_entry bucket table record_id) [
  | none ↦
      if can_alloc
      then (
        outcome mode (new_entry table record_id),
        set_bucket lm idx (attempt mode (new_entry table record_id) ∷ bucket),
      )
      else (failed, lm)
  | some e ↦
      (outcome mode e, set_bucket lm idx (store_entry bucket table record_id (attempt mode e)))
]
  where
    idx : ℕ
    idx = lock_hash table record_id

    bucket : List LockEntry
    bucket = bucket_of lm table record_id

abbrev pub awake : LockEntry → LockEntry
awake e = record e { waiters = e.waiters - 1 }

-- From the return of `pthread_cond_wait` to the grant or the next wait.
pub lock_mgr_wake : LockManager → TableId → ℕ → LockType → LockOutcome × LockManager
lock_mgr_wake lm table record_id mode = elim (find_entry bucket table record_id) [
  | none ↦ (failed, lm)
  | some e ↦ (
    outcome mode (awake e),
    set_bucket lm (lock_hash table record_id)
        (store_entry bucket table record_id (attempt mode (awake e))),
  )
]
  where
    bucket : List LockEntry
    bucket = bucket_of lm table record_id

abbrev pub drop_lock : LockEntry → Option LockEntry
drop_lock e =
    if e.exclusive_held
    then some (record e { exclusive_held = false })
    else if ltb 0 e.shared_count
    then some (record e { shared_count = e.shared_count - 1 })
    else none

-- `true` is the return value 0, `false` is -1.
unfoldable pub lock_mgr_unlock : LockManager → TableId → ℕ → Bool × LockManager
lock_mgr_unlock lm table record_id = elim (find_entry bucket table record_id) [
  | none ↦ (false, lm)
  | some e ↦ elim (drop_lock e) [
    | none ↦ (false, lm)
    | some e' ↦ (
      true,
      set_bucket lm (lock_hash table record_id)
          (try_remove_entry (store_entry bucket table record_id e') e'),
    )
  ]
]
  where
    bucket : List LockEntry
    bucket = bucket_of lm table record_id

-- The inner loop of `lock_mgr_release_all` over one chain.
unfoldable pub release_chain : List LockEntry → List LockEntry
release_chain [] = []
release_chain (e ∷ es) =
    let rest = release_chain es in
    if ltb 0 e.waiters then record e { shared_count = 0; exclusive_held = false } ∷ rest else rest

unfoldable pub lock_mgr_release_all : LockManager → LockManager
unfolding release_chain
lock_mgr_release_all lm = record {
  buckets = λ i. if ltb i lock_table_size then release_chain (lm.buckets i) else lm.buckets i;
}
