-- ===== src/Txn/Manager.antt =====
-- server/txn/txn_manager.c: the slots of the transactions and two-phase locking. Each function is
-- its critical sections one after the other; `txn_lock` leaves the mutex while it waits for the lock
-- manager, so it is two functions here, before the grant and after it.
pub mod Slots
pub mod Phases
pub mod Growth
use event_ticketing_platform.Base.{
  ℕ, ◌+◌, ◌%◌, Bool, true, false, ◌&&◌, ◌||◌, not, Option, none, some, List, [], ◌∷◌, ◌++◌, leb,
  ◌==◌, if◌then◌else◌, length, replicate,
}
use event_ticketing_platform.Types.{TableId, LockType, u32_mod, invalid_txn_id, invalid_lsn}
use event_ticketing_platform.Txn.Locks.{
  LockManager, LockOutcome, granted, waits, failed, same_key, lock_mgr_lock, lock_mgr_wake,
  lock_mgr_unlock,
}
use event_ticketing_platform.Storage.Wal.{Env, wal_log_commit, wal_log_abort, wal_flush}

abbrev pub max_active_txns : ℕ
max_active_txns = 128

abbrev pub max_locks_per_txn : ℕ
max_locks_per_txn = 64

pub data TxnState : Type 0 where
  txn_active txn_committed txn_aborted : TxnState

pub record HeldLock : Type 0 where
  pub table : TableId
  pub record_id : ℕ

-- `locks` is the first `num_locks` elements of the array.
pub record Txn : Type 0 where
  pub id : ℕ
  pub state : TxnState
  pub locks : List HeldLock
  pub active : Bool

pub record TxnManager : Type 0 where
  pub txns : List Txn
  pub next_txn_id : ℕ

abbrev pub is_active : TxnState → Bool
is_active txn_active = true
is_active txn_committed = false
is_active txn_aborted = false

abbrev pub free_slot : Txn
free_slot = record { id = 0; state = txn_active; locks = []; active = false }

abbrev pub txn_mgr_create : TxnManager
txn_mgr_create = record { txns = replicate max_active_txns free_slot; next_txn_id = 1 }

unfoldable pub find_txn : List Txn → ℕ → Option Txn
find_txn [] txn_id = none
find_txn (x ∷ xs) txn_id = if x.active && x.id == txn_id then some x else find_txn xs txn_id

-- A write through the pointer that `find_txn_locked` returned.
unfoldable pub store_txn : List Txn → ℕ → Txn → List Txn
store_txn [] txn_id x' = []
store_txn (x ∷ xs) txn_id x' =
    if x.active && x.id == txn_id then x' ∷ xs else x ∷ store_txn xs txn_id x'

-- The first slot that is not in use is taken.
unfoldable pub claim : List Txn → Txn → Option (List Txn)
claim [] x' = none
claim (x ∷ xs) x' =
    let later : Option (List Txn) = elim (claim xs x') [ none ↦ none | some ys ↦ some (x ∷ ys) ] in
    if x.active then later else some (x' ∷ xs)

abbrev pub begun : ℕ → Txn
begun id = record { id = id; state = txn_active; locks = []; active = true }

-- The next id, with the guard against 0.
abbrev pub next_id_after : ℕ → ℕ
next_id_after id = if (id + 1) % u32_mod == invalid_txn_id then 1 else (id + 1) % u32_mod

unfoldable pub txn_begin : TxnManager → ℕ × TxnManager
txn_begin tm = elim (claim tm.txns (begun tm.next_txn_id)) [
  | none ↦ (invalid_txn_id, tm)
  | some txns ↦ (tm.next_txn_id, record { txns = txns; next_txn_id = next_id_after tm.next_txn_id })
]

-- The loop over `locks_copy`: each lock is given back, whatever `lock_mgr_unlock` answers.
unfoldable pub release_locks : LockManager → List HeldLock → LockManager
release_locks lm [] = lm
release_locks lm (l ∷ ls) = release_locks (lock_mgr_unlock lm l.table l.record_id).1 ls

-- The transaction, if it is known and active.
abbrev pub active_txn : TxnManager → ℕ → Option Txn
active_txn tm txn_id = elim (find_txn tm.txns txn_id) [
  | none ↦ none
  | some x ↦ if is_active x.state then some x else none
]

abbrev pub ended : TxnManager → ℕ → Txn → TxnState → TxnManager
ended tm txn_id x state = record tm {
  txns = store_txn tm.txns txn_id (record x { state = state; locks = []; active = false });
}

-- `true` is the return value 0, `false` is -1.
unfoldable pub txn_abort :
    TxnManager → LockManager → Env → ℕ → Bool × TxnManager × LockManager × Env
txn_abort tm lm env txn_id = elim (active_txn tm txn_id) [
  | none ↦ (false, tm, lm, env)
  | some x ↦
      (true, ended tm txn_id x txn_aborted, release_locks lm x.locks, (wal_log_abort env txn_id).1)
]

-- What `txn_commit` returns after the abort that a log failure leads to.
abbrev pub commit_failed :
    Bool × TxnManager × LockManager × Env → Bool × TxnManager × LockManager × Env
commit_failed (_, tm, lm, env) = (false, tm, lm, env)

unfoldable pub txn_commit :
    TxnManager → LockManager → Env → ℕ → Bool × TxnManager × LockManager × Env
unfolding txn_abort
txn_commit tm lm env txn_id = elim (active_txn tm txn_id) [
  | none ↦ (false, tm, lm, env)
  | some x ↦
      let logged = wal_log_commit env txn_id in
      let flushed = wal_flush logged.1 in
      if logged.0 == invalid_lsn
      then commit_failed (txn_abort tm lm logged.1 txn_id)
      else if flushed.0
      then (true, ended tm txn_id x txn_committed, release_locks lm x.locks, flushed.1)
      else commit_failed (txn_abort tm lm flushed.1 txn_id)
]

-- Is the key among the locks?
unfoldable pub holds : List HeldLock → TableId → ℕ → Bool
holds [] table record_id = false
holds (l ∷ ls) table record_id =
    same_key l.table l.record_id table record_id || holds ls table record_id

pub data LockReply : Type 0 where
  -- 0, and -1, and a thread that sleeps in the lock manager.
  locked refused asleep : LockReply

-- From the return of `lock_mgr_lock` with 0: the lock is registered, or given back when the
-- transaction has ended meanwhile.
unfoldable pub txn_lock_granted :
    TxnManager → LockManager → ℕ → TableId → ℕ → LockReply × TxnManager × LockManager
txn_lock_granted tm lm txn_id table record_id = elim (active_txn tm txn_id) [
  | none ↦ (refused, tm, (lock_mgr_unlock lm table record_id).1)
  | some x ↦ (
    locked,
    record tm {
      txns =
          store_txn tm.txns txn_id
            (record x { locks = x.locks ++ record { table = table; record_id = record_id } ∷ [] });
    },
    lm,
  )
]

unfoldable pub after_lock :
    TxnManager → ℕ → TableId → ℕ → LockOutcome × LockManager → LockReply × TxnManager × LockManager
unfolding txn_lock_granted
after_lock tm txn_id table record_id (granted, lm) = txn_lock_granted tm lm txn_id table record_id
after_lock tm txn_id table record_id (waits, lm) = (asleep, tm, lm)
after_lock tm txn_id table record_id (failed, lm) = (refused, tm, lm)

-- From the call to its return, or to its first wait in the lock manager.
unfoldable pub txn_lock :
    TxnManager
    → LockManager
    → ℕ
    → TableId
    → ℕ
    → LockType
    → Bool
    → LockReply × TxnManager × LockManager
unfolding holds after_lock
txn_lock tm lm txn_id table record_id mode can_alloc = elim (active_txn tm txn_id) [
  | none ↦ (refused, tm, lm)
  | some x ↦
      if holds x.locks table record_id
      then (locked, tm, lm)
      else if leb max_locks_per_txn (length x.locks)
      then (refused, tm, lm)
      else after_lock tm txn_id table record_id (lock_mgr_lock lm table record_id mode can_alloc)
]

-- One more try of the thread that `lock_mgr_lock` let sleep: the number of locks and the locks held are
-- not looked at again.
unfoldable pub txn_lock_woken :
    TxnManager → LockManager → ℕ → TableId → ℕ → LockType → LockReply × TxnManager × LockManager
unfolding after_lock
txn_lock_woken tm lm txn_id table record_id mode =
    after_lock tm txn_id table record_id (lock_mgr_wake lm table record_id mode)
