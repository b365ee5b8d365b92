-- ===== src/Txn/Tests.antt =====
-- The lock manager and the transactions at work: two threads that share one seat's lock.
use event_ticketing_platform.Base.{
  ℕ, Bool, ◌≡◌, ◌≢◌, refl, ◌⊎◌, true, false, none, some, [], ◌∷◌, arith,
}
use event_ticketing_platform.Types.{seats, LockType, lock_shared, lock_exclusive}
use event_ticketing_platform.Storage.Wal.{Env}
use event_ticketing_platform.Txn.Locks.{
  failed, lock_mgr_create, lock_hash, same_key, find_entry, store_entry, lock_mgr_lock,
  lock_mgr_wake, lock_mgr_unlock,
}
use event_ticketing_platform.Txn.Locks.Counts.{
  counts_at, SetsCounts, asked, given_back, lock_mgr_lock_lem, lock_mgr_wake_lem,
  lock_mgr_unlock_lem,
}
use event_ticketing_platform.Txn.Locks.Threads.{
  Grant, System, init, settle, request, Reach, start, next,
}
use event_ticketing_platform.Txn.Locks.Threads.Invariant.{Reach-Inv}
use event_ticketing_platform.Txn.Locks.Threads.Exclusion.{
  held_both_shared, held_unlocks, waiting_wakes,
}
use event_ticketing_platform.Txn.Manager.{
  Txn, txn_active, TxnManager, free_slot, find_txn, active_txn, txn_abort, txn_commit,
}
use event_ticketing_platform.Txn.Manager.Slots.{Apart}
use event_ticketing_platform.Txn.Manager.Growth.{
  Call, first, answer_of, bound_of, Locks, txn_lock-Reach,
}
use event_ticketing_platform.Txn.Manager.Phases.{
  Backs, none_left, one_more, after_release, txn_abort-Reach, txn_commit-Reach,
}

abbrev seat_7 : ℕ → LockType → Grant
seat_7 thread mode = record { thread = thread; table = seats; record_id = 7; mode = mode }

abbrev ask : System → Grant → System
ask s g = settle s.held s.waiting g (lock_mgr_lock s.lm g.table g.record_id g.mode true)

abbrev both_shared : System
both_shared = ask (ask init (seat_7 1 lock_shared)) (seat_7 2 lock_shared)

abbrev one_waits : System
one_waits = ask (ask init (seat_7 1 lock_exclusive)) (seat_7 2 lock_shared)

program : Unit {0}
unfolding lock_mgr_create lock_mgr_lock lock_hash same_key find_entry store_entry
program = tt

both_shared-held : both_shared.held ≡ seat_7 2 lock_shared ∷ seat_7 1 lock_shared ∷ []
unfolding program
both_shared-held = refl

one_waits-waiting : one_waits.waiting ≡ seat_7 2 lock_shared ∷ []
unfolding program
one_waits-waiting = refl

both_shared-Reach : Reach both_shared
both_shared-Reach =
    next (next start (request (seat_7 1 lock_shared) true)) (request (seat_7 2 lock_shared) true)

one_waits-Reach : Reach one_waits
one_waits-Reach =
    next (next start (request (seat_7 1 lock_exclusive) true)) (request (seat_7 2 lock_shared) true)

held_both_shared_example : (lock_shared ≡ lock_shared) × (lock_shared ≡ lock_shared)
held_both_shared_example =
    held_both_shared {s = both_shared} (seat_7 2 lock_shared) (seat_7 1 lock_shared) []
      (seat_7 1 lock_shared ∷ []) [] [] both_shared-Reach both_shared-held refl refl refl

held_unlocks_example : (lock_mgr_unlock both_shared.lm seats 7).0 ≡ true
held_unlocks_example =
    held_unlocks {s = both_shared} (seat_7 2 lock_shared) [] (seat_7 1 lock_shared ∷ [])
      both_shared-Reach both_shared-held

waiting_wakes_example : (lock_mgr_wake one_waits.lm seats 7 lock_shared).0 ≢ failed
waiting_wakes_example =
    waiting_wakes {s = one_waits} (seat_7 2 lock_shared) [] [] one_waits-Reach one_waits-waiting

lock_mgr_lock_lem_example :
    ((true ≡ false)
      × (lock_mgr_lock both_shared.lm seats 7 lock_exclusive true ≡ (failed, both_shared.lm)))
    ⊎ (((lock_mgr_lock both_shared.lm seats 7 lock_exclusive true).0
          ≡ (asked lock_exclusive (counts_at both_shared.lm seats 7)).0)
        × SetsCounts both_shared.lm seats 7
            (asked lock_exclusive (counts_at both_shared.lm seats 7)).1
            (lock_mgr_lock both_shared.lm seats 7 lock_exclusive true).1)
lock_mgr_lock_lem_example =
    lock_mgr_lock_lem both_shared.lm seats 7 lock_exclusive true (Reach-Inv both_shared-Reach).valid

one_waits-counts : counts_at one_waits.lm seats 7 ≡ (0, true, 1)
unfolding program
one_waits-counts = refl

lock_mgr_wake_lem_example :
    ((lock_mgr_wake one_waits.lm seats 7 lock_shared).0 ≡ (asked lock_shared (0, true, 0)).0)
    × SetsCounts one_waits.lm seats 7
        (asked lock_shared (0, true, 0)).1
        (lock_mgr_wake one_waits.lm seats 7 lock_shared).1
lock_mgr_wake_lem_example =
    lock_mgr_wake_lem one_waits.lm seats 7 lock_shared 0 0 true (Reach-Inv one_waits-Reach).valid
      one_waits-counts

lock_mgr_unlock_lem_example :
    ((given_back (counts_at both_shared.lm seats 7) ≡ none)
      × (lock_mgr_unlock both_shared.lm seats 7 ≡ (false, both_shared.lm)))
    ⊎ ((c' : ℕ × Bool × ℕ) × (given_back (counts_at both_shared.lm seats 7) ≡ some c')
        × ((lock_mgr_unlock both_shared.lm seats 7).0 ≡ true)
        × SetsCounts both_shared.lm seats 7 c' (lock_mgr_unlock both_shared.lm seats 7).1)
lock_mgr_unlock_lem_example =
    lock_mgr_unlock_lem both_shared.lm seats 7 (Reach-Inv both_shared-Reach).valid

-- A transaction of the first thread, in a table of two slots.
abbrev calm : Env
calm = record { wal = record { file = []; next_lsn = 1; flushed_lsn = 0 }; faults = [] }

abbrev idle : TxnManager
idle = record { txns = free_slot ∷ free_slot ∷ []; next_txn_id = 1 }

abbrev holder : Txn
holder = record {
  id = 1;
  state = txn_active;
  locks = record { table = seats; record_id = 7 } ∷ [];
  active = true;
}

abbrev busy : TxnManager
busy = record { txns = holder ∷ free_slot ∷ []; next_txn_id = 2 }

busy-Apart : Apart busy.txns
unfolding find_txn
busy-Apart = ((λ h. refl), ((λ h. refl), tt))

busy-holder : active_txn busy 1 ≡ some holder
unfolding find_txn
busy-holder = refl

both_shared-split :
    Reach (after_release both_shared.lm (seat_7 2 lock_shared ∷ seat_7 1 lock_shared ∷ []) [])
unfolding program
both_shared-split = both_shared-Reach

backed : Backs (seat_7 2 lock_shared ∷ []) holder.locks
backed = one_more (seat_7 2 lock_shared) _ [] [] refl refl refl none_left

txn_abort-Reach_example :
    Reach (after_release (txn_abort busy both_shared.lm calm 1).2 (seat_7 1 lock_shared ∷ []) [])
txn_abort-Reach_example =
    txn_abort-Reach busy both_shared.lm calm 1 holder (seat_7 2 lock_shared ∷ [])
      (seat_7 1 lock_shared ∷ []) [] busy-holder backed both_shared-split

txn_commit-Reach_example :
    Reach (after_release (txn_commit busy both_shared.lm calm 1).2 (seat_7 1 lock_shared ∷ []) [])
txn_commit-Reach_example =
    txn_commit-Reach busy both_shared.lm calm 1 holder (seat_7 2 lock_shared ∷ [])
      (seat_7 1 lock_shared ∷ []) [] busy-holder backed both_shared-split

abbrev seat_8 : Grant
seat_8 = record { thread = 2; table = seats; record_id = 8; mode = lock_exclusive }

abbrev at_once : Call seat_8 [] []
at_once = first true

txn_lock-Reach_example :
    Locks busy 1 holder
      (bound_of at_once holder)
      (seat_7 2 lock_shared ∷ [])
      (seat_7 1 lock_shared ∷ [])
      []
      seat_8
      (answer_of at_once busy both_shared.lm 1)
txn_lock-Reach_example =
    txn_lock-Reach busy both_shared.lm 1 seat_8 holder (seat_7 2 lock_shared ∷ [])
      (seat_7 1 lock_shared ∷ []) [] [] at_once busy-holder busy-Apart (omega arith) backed
      both_shared-split
