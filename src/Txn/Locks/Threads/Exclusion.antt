-- ===== src/Txn/Locks/Threads/Exclusion.antt =====
-- What every interleaving of the callers of server/txn/lock_manager.c can rely on.
use event_ticketing_platform.Base.{
  ℕ, ◌+◌, ◌≡◌, refl, ap, sym, ◌∙◌, true, List, ◌∷◌, ◌++◌, ◌≢◌, arith,
}
use event_ticketing_platform.Types.{LockType, lock_shared}
use event_ticketing_platform.Txn.Locks.{
  LockEntry, failed, outcome, awake, lock_mgr_wake, lock_mgr_unlock,
}
use event_ticketing_platform.Txn.Locks.Chains.{same_key_iff, same_key_refl}
use event_ticketing_platform.Txn.Locks.Laws.{entry_at, wake-Attempts}
use event_ticketing_platform.Txn.Locks.Threads.{
  Grant, System, Reach, shared_weight, exclusive_weight, tally, tally-remove,
}
use event_ticketing_platform.Txn.Locks.Threads.Invariant.{Inv, Reach-Inv, release-Inv, waiting_pos}

-- Two locks held at once on one record are both shared locks, in every state that the threads can
-- reach.
pub held_both_shared :
    {s : System} (g h : Grant) (before after before' after' : List Grant)
    → Reach s
    → s.held ≡ before ++ g ∷ after
    → before ++ after ≡ before' ++ h ∷ after'
    → g.table ≡ h.table
    → g.record_id ≡ h.record_id
    → (g.mode ≡ lock_shared) × (h.mode ≡ lock_shared)
held_both_shared {s} g h before after before' after' r e e' et er = by_mode g.mode h.mode refl refl
  where
    inv : Inv s
    inv = Reach-Inv r

    total :
        (w : LockType → ℕ)
        → tally w h.table h.record_id s.held
          ≡ w g.mode + w h.mode + tally w h.table h.record_id (before' ++ after')
    total w = ground (
      arith,
      ap (tally w h.table h.record_id) e,
      ap (tally w h.table h.record_id) e',
      tally-remove w h.table h.record_id before g after,
      tally-remove w h.table h.record_id before' h after',
      same_key_iff g.table g.record_id h.table h.record_id,
      same_key_refl h.table h.record_id,
    )

    by_mode :
        (m n : LockType) → g.mode ≡ m → h.mode ≡ n → (g.mode ≡ lock_shared) × (h.mode ≡ lock_shared)
    by_mode lock_shared lock_shared p q = (p, q)
    by_mode m n p q = absurd (
        ground (arith, inv.agrees h.table h.record_id, total shared_weight, total exclusive_weight))

-- In every state that the threads can reach, giving back a lock that is held succeeds.
pub held_unlocks :
    {s : System} (g : Grant) (before after : List Grant)
    → Reach s
    → s.held ≡ before ++ g ∷ after
    → (lock_mgr_unlock s.lm g.table g.record_id).0 ≡ true
held_unlocks {s} g before after r e = (release-Inv s g before after (Reach-Inv r) e).0

-- In every state that the threads can reach, a thread that waits finds the entry that it waits at, so
-- its next attempt does not fail.
pub waiting_wakes :
    {s : System} (g : Grant) (before after : List Grant)
    → Reach s
    → s.waiting ≡ before ++ g ∷ after
    → (lock_mgr_wake s.lm g.table g.record_id g.mode).0 ≢ failed
waiting_wakes {s} g before after r e h = not_failed (entry_at s.lm g.table g.record_id) (
    sym h
    ∙ (wake-Attempts s.lm g.table g.record_id g.mode (Reach-Inv r).valid
        (waiting_pos s g before after (Reach-Inv r) e)).0)
  where
    not_failed : (e : LockEntry) → ¬ (failed ≡ outcome g.mode (awake e))
    not_failed e h = ground arith
