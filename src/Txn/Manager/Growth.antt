-- ===== src/Txn/Manager/Growth.antt =====
-- The growing phase of two-phase locking in server/txn/txn_manager.c.
use event_ticketing_platform.Base.{
  ℕ, ◌+◌, ◌≤◌, ◌≡◌, refl, ◌⊎◌, inl, inr, Bool, true, Bool-cases, some, List, [], ◌∷◌, ◌++◌, arith,
  leb, length, length-append,
}
use event_ticketing_platform.Types.{TableId}
use event_ticketing_platform.Txn.Locks.{
  LockManager, LockOutcome, granted, waits, failed, lock_mgr_lock, lock_mgr_wake,
}
use event_ticketing_platform.Txn.Locks.Chains.{same_key_refl}
use event_ticketing_platform.Txn.Locks.Threads.{Grant, settle, request, retry, Reach, next}
use event_ticketing_platform.Txn.Manager.{
  HeldLock, Txn, TxnManager, find_txn, store_txn, active_txn, holds, max_locks_per_txn, LockReply,
  locked, refused, asleep, txn_lock, txn_lock_woken, txn_lock_granted, after_lock,
}
use event_ticketing_platform.Txn.Manager.Slots.{Apart, find-store, find_txn-id}
use event_ticketing_platform.Txn.Manager.Phases.{Backs, Backs-grant, after_release}

-- The transaction with one more lock.
abbrev pub with_lock : Txn → TableId → ℕ → Txn
with_lock x table record_id = record x {
  locks = x.locks ++ record { table = table; record_id = record_id } ∷ [];
}

holds-last :
    (ls : List HeldLock) (t : TableId) (r : ℕ)
    → holds (ls ++ record { table = t; record_id = r } ∷ []) t r ≡ true
unfolding holds
holds-last [] t r = ground (arith, same_key_refl t r)
holds-last (l ∷ ls) t r = ground (arith, holds-last ls t r)

find_txn-active : (xs : List Txn) (id : ℕ) (x : Txn) → find_txn xs id ≡ some x → x.active ≡ true
unfolding find_txn
find_txn-active [] id x e = absurd (ground arith)
find_txn-active (y ∷ ys) id x e = ground (arith, find_txn-active ys id x)

active_txn-with_lock :
    (tm : TxnManager) (id : ℕ) (x : Txn) (t : TableId) (r : ℕ)
    → active_txn tm id ≡ some x
    → Apart tm.txns
    → active_txn (record tm { txns = store_txn tm.txns id (with_lock x t r) }) id
      ≡ some (with_lock x t r)
active_txn-with_lock tm id x t r e a =
    let found : find_txn tm.txns id ≡ some x = ground (arith, e) in
    let stored =
      find-store tm.txns id x (with_lock x t r) id found (find_txn-id tm.txns id x found) a in
    ground (arith, e, stored, find_txn-active tm.txns id x found)

-- How a lock call comes to an answer, while other threads wait: at its first attempt, or when its
-- thread, which is one of those that wait, wakes up.
pub data Call (g : Grant) : List Grant → List Grant → Type 0 where
  first : {waiting : List Grant} → Bool → Call g waiting waiting
  woken : (before after : List Grant) → Call g (before ++ g ∷ after) (before ++ after)

unfoldable pub answer_of :
    {g : Grant} {waiting others : List Grant}
    → Call g waiting others
    → TxnManager
    → LockManager
    → ℕ
    → LockReply × TxnManager × LockManager
answer_of {g} (first can_alloc) tm lm id = txn_lock tm lm id g.table g.record_id g.mode can_alloc
answer_of {g} (woken before after) tm lm id = txn_lock_woken tm lm id g.table g.record_id g.mode

-- How many locks a transaction can have after a call that is granted.
unfoldable pub bound_of :
    {g : Grant} {waiting others : List Grant} → Call g waiting others → Txn → ℕ
bound_of (first can_alloc) x = 64
bound_of (woken before after) x = length x.locks + 1

-- What a lock call of the transaction `x` may come to, when `gs` backs its locks: the key is among its
-- locks, at most `bound` in number, and the lock manager has granted all of them, or the call fails and
-- the transaction has what it had, or the thread waits.
abbrev pub Locks :
    TxnManager
    → ℕ
    → Txn
    → ℕ
    → List Grant
    → List Grant
    → List Grant
    → Grant
    → LockReply × TxnManager × LockManager
    → Type 0
Locks tm id x bound gs rest waiting g (reply, tm', lm') =
    ((reply ≡ locked)
      × ((x' : Txn) × (gs' : List Grant) × (active_txn tm' id ≡ some x')
          × (holds x'.locks g.table g.record_id ≡ true)
          × (length x'.locks ≤ bound)
          × Backs gs' x'.locks
          × Reach (after_release lm' (gs' ++ rest) waiting)))
    ⊎ (((reply ≡ refused) × (tm' ≡ tm) × Reach (after_release lm' (gs ++ rest) waiting))
        ⊎ ((reply ≡ asleep) × (tm' ≡ tm) × Reach (after_release lm' (gs ++ rest) (g ∷ waiting))))

module _ (tm : TxnManager) (id : ℕ) (g : Grant) (x : Txn) (gs rest : List Grant)
    (e : active_txn tm id ≡ some x) (a : Apart tm.txns) (b : Backs gs x.locks) where
  after_lock-Locks :
      (bound : ℕ) (waiting : List Grant)
      → length x.locks + 1 ≤ bound
      → (o : LockOutcome × LockManager) → Reach (settle (gs ++ rest) waiting g o)
      → Locks tm id x bound gs rest waiting g (after_lock tm id g.table g.record_id o)
  unfolding after_lock
  after_lock-Locks bound waiting fits (granted, lm') r =
      rw (e, after_lock, txn_lock_granted)
        (inl (
          refl,
          (
            with_lock x g.table g.record_id,
            g ∷ gs,
            active_txn-with_lock tm id x g.table g.record_id e a,
            holds-last x.locks g.table g.record_id,
            omega (
              arith,
              fits,
              length-append x.locks (record { table = g.table; record_id = g.record_id } ∷ []),
            ),
            Backs-grant gs x.locks g _ refl refl b,
            r,
          ),
        ))
  after_lock-Locks bound waiting fits (waits, lm') r = inr (inr (refl, refl, r))
  after_lock-Locks bound waiting fits (failed, lm') r = inr (inl (refl, refl, r))

  first-Locks :
      (lm : LockManager) (can_alloc : Bool) (waiting : List Grant)
      → length x.locks ≤ 64
      → Reach (after_release lm (gs ++ rest) waiting)
      → Locks tm id x 64 gs rest waiting g (txn_lock tm lm id g.table g.record_id g.mode can_alloc)
  unfolding txn_lock
  first-Locks lm can_alloc waiting few r = elim (Bool-cases (holds x.locks g.table g.record_id)) [
    | inl h ↦ rw (e, txn_lock) (rw (h, txn_lock) (inl (refl, (x, gs, e, h, few, b, r))))
    | inr h ↦ elim (Bool-cases (leb max_locks_per_txn (length x.locks))) [
      | inl full ↦ rw (e, txn_lock) (rw (h, full, txn_lock) (inr (inl (refl, refl, r))))
      | inr room ↦
          rw (e, txn_lock)
            (rw (h, room, txn_lock)
              (after_lock-Locks 64 waiting (ground (arith, room))
                (lock_mgr_lock lm g.table g.record_id g.mode can_alloc)
                (next r (request g can_alloc))))
    ]
  ]

  woken-Locks :
      (lm : LockManager) (before after : List Grant)
      → Reach (after_release lm (gs ++ rest) (before ++ g ∷ after))
      → Locks tm id x
          (length x.locks + 1)
          gs
          rest
          (before ++ after)
          g
          (txn_lock_woken tm lm id g.table g.record_id g.mode)
  unfolding txn_lock_woken
  woken-Locks lm before after r =
      after_lock-Locks (length x.locks + 1) (before ++ after) (omega arith)
        (lock_mgr_wake lm g.table g.record_id g.mode) (next r (retry g before after refl))

-- A lock call of an active transaction, in any state that threads can reach, when each id has at most one
-- slot in use, and the transaction has at most 64 locks, each of them granted by the lock manager. Either
-- the key is then among the transaction's locks, all of which the lock manager has granted, at most 64
-- after a first attempt, and at most one more than before after a wake-up, which does not look at the
-- bound again; or the call is refused and the transaction keeps what it had; or the thread waits.
pub txn_lock-Reach :
    (tm : TxnManager) (lm : LockManager) (id : ℕ) (g : Grant) (x : Txn)
    (gs rest waiting others : List Grant) (call : Call g waiting others)
    → active_txn tm id ≡ some x
    → Apart tm.txns
    → length x.locks ≤ 64
    → Backs gs x.locks
    → Reach (after_release lm (gs ++ rest) waiting)
    → Locks tm id x (bound_of call x) gs rest others g (answer_of call tm lm id)
unfolding answer_of bound_of
txn_lock-Reach tm lm id g x gs rest waiting others (first can_alloc) e a few b r =
    first-Locks tm id g x gs rest e a b lm can_alloc waiting few r
txn_lock-Reach tm lm id g x gs rest waiting others (woken before after) e a few b r =
    woken-Locks tm id g x gs rest e a b lm before after r
