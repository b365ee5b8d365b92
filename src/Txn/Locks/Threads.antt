-- ===== src/Txn/Locks/Threads.antt =====
-- Threads that call server/txn/lock_manager.c, in any interleaving of its critical sections. A
-- thread gives back only locks that it was granted; wake-ups may be spurious.
pub mod Invariant
pub mod Exclusion
use event_ticketing_platform.Base.{
  ℕ, ◌+◌, ◌-◌, ◌<◌, ◌≡◌, refl, ap, sym, subst, ◌∙◌, Bool, true, false, ◌⊎◌, inl, inr, none, some,
  List, [], ◌∷◌, ◌++◌, arith, Bool-cases, if◌then◌else◌,
}
use event_ticketing_platform.Types.{TableId, LockType, lock_shared, lock_exclusive}
use event_ticketing_platform.Txn.Locks.{
  LockManager, LockEntry, LockOutcome, granted, waits, failed, same_key, find_entry, new_entry,
  attempt, outcome, awake, drop_lock, lock_mgr_create, lock_mgr_lock, lock_mgr_wake,
  lock_mgr_unlock,
}
use event_ticketing_platform.Txn.Locks.Chains.{same_key_iff, same_key_refl}
use event_ticketing_platform.Txn.Locks.Laws.{
  entry_at, IsValid, counts, Updates, Attempts, lock-Attempts, wake-Attempts, unlock_lem,
}

-- A thread's lock, granted or asked for.
pub record Grant : Type 0 where
  pub thread : ℕ
  pub table : TableId
  pub record_id : ℕ
  pub mode : LockType

pub record System : Type 0 where
  pub lm : LockManager
  pub held : List Grant
  pub waiting : List Grant

abbrev pub init : System
init = record { lm = lock_mgr_create; held = []; waiting = [] }

-- Where a thread stands after an attempt.
abbrev pub settle : List Grant → List Grant → Grant → LockOutcome × LockManager → System
settle held waiting g (granted, lm) = record { lm = lm; held = g ∷ held; waiting = waiting }
settle held waiting g (waits, lm) = record { lm = lm; held = held; waiting = g ∷ waiting }
settle held waiting g (failed, lm) = record { lm = lm; held = held; waiting = waiting }

pub data Step (s : System) : System → Type 0 where
  request :
      (g : Grant) (can_alloc : Bool)
      → Step s (settle s.held s.waiting g (lock_mgr_lock s.lm g.table g.record_id g.mode can_alloc))
  retry :
      (g : Grant) (before after : List Grant)
      → s.waiting ≡ before ++ g ∷ after
      → Step s (settle s.held (before ++ after) g (lock_mgr_wake s.lm g.table g.record_id g.mode))
  release :
      (g : Grant) (before after : List Grant)
      → s.held ≡ before ++ g ∷ after
      → Step s (record {
        lm = (lock_mgr_unlock s.lm g.table g.record_id).1;
        held = before ++ after;
        waiting = s.waiting;
      })

pub data Reach : System → Type 0 where
  start : Reach init
  next : {s t : System} → Reach s → Step s t → Reach t

abbrev pub weight : Bool → ℕ
weight true = 1
weight false = 0

abbrev pub is_exclusive : LockType → Bool
is_exclusive lock_shared = false
is_exclusive lock_exclusive = true

abbrev pub shared_weight : LockType → ℕ
shared_weight lock_shared = 1
shared_weight lock_exclusive = 0

abbrev pub exclusive_weight : LockType → ℕ
exclusive_weight lock_shared = 0
exclusive_weight lock_exclusive = 1

-- The sum of `w` over the locks on one record.
pub tally : (LockType → ℕ) → TableId → ℕ → List Grant → ℕ
tally w t r [] = 0
tally w t r (g ∷ gs) = (if same_key g.table g.record_id t r then w g.mode else 0) + tally w t r gs

tally-remove :
    (w : LockType → ℕ) (t : TableId) (r : ℕ) (before : List Grant) (g : Grant) (after : List Grant)
    → tally w t r (before ++ g ∷ after)
      ≡ (if same_key g.table g.record_id t r then w g.mode else 0) + tally w t r (before ++ after)
unfolding tally
tally-remove w t r [] g after = refl
tally-remove w t r (x ∷ before) g after = ground (arith, tally-remove w t r before g after)

abbrev pub one : LockType → ℕ
one _ = 1
