-- ===== src/Txn/Manager/Phases.antt =====
-- Two-phase locking in server/txn/txn_manager.c, under any interleaving of the lock manager's callers:
-- the end of a transaction gives back the locks that it holds and no other.
use event_ticketing_platform.Base.{ℕ, ◌≡◌, refl, sym, ap, ◌∙◌, some, List, [], ◌∷◌, ◌++◌, arith}
use event_ticketing_platform.Storage.Wal.{Env}
use event_ticketing_platform.Txn.Locks.{LockManager, lock_mgr_unlock}
use event_ticketing_platform.Txn.Locks.Threads.{Grant, System, release, Reach, next}
use event_ticketing_platform.Txn.Manager.{
  HeldLock, Txn, TxnManager, active_txn, release_locks, txn_abort, txn_commit,
}

-- The lock manager's grants behind the locks that a transaction has registered, in any order.
pub data Backs : List Grant → List HeldLock → Type 0 where
  none_left : Backs [] []
  one_more :
      {gs : List Grant} {ls : List HeldLock} (g : Grant) (l : HeldLock) (before after : List Grant)
      → gs ≡ before ++ g ∷ after
      → g.table ≡ l.table
      → g.record_id ≡ l.record_id
      → Backs (before ++ after) ls
      → Backs gs (l ∷ ls)

-- The system once the locks are given back.
abbrev pub after_release : LockManager → List Grant → List Grant → System
after_release lm held waiting = record { lm = lm; held = held; waiting = waiting }

append_assoc : (xs ys zs : List Grant) → (xs ++ ys) ++ zs ≡ xs ++ (ys ++ zs)
append_assoc [] ys zs = refl
append_assoc (x ∷ xs) ys zs = ap (λ (m : List Grant). x ∷ m) (append_assoc xs ys zs)

release_locks-Reach :
    (lm : LockManager) (gs rest waiting : List Grant) (ls : List HeldLock)
    → Backs gs ls
    → Reach (after_release lm (gs ++ rest) waiting)
    → Reach (after_release (release_locks lm ls) rest waiting)
unfolding release_locks
release_locks-Reach lm [] rest waiting [] none_left r = r
release_locks-Reach lm (_ ∷ _) rest waiting [] b r = elim b [ ]
release_locks-Reach lm gs rest waiting (_ ∷ ls) (one_more g l before after e et er b) r =
    release_locks-Reach (lock_mgr_unlock lm l.table l.record_id).1 (before ++ after) rest waiting ls
      b
      (rw (sym et, sym er, append_assoc before after rest)
        (next r (
          release g before (after ++ rest)
            (ap (λ (m : List Grant). m ++ rest) e ∙ append_assoc before (g ∷ after) rest))))

-- A lock that is granted and registered last.
pub Backs-grant :
    (gs : List Grant) (ls : List HeldLock) (g : Grant) (l : HeldLock)
    → g.table ≡ l.table
    → g.record_id ≡ l.record_id
    → Backs gs ls
    → Backs (g ∷ gs) (ls ++ l ∷ [])
Backs-grant [] [] g l et er none_left = one_more g l [] [] refl et er none_left
Backs-grant (_ ∷ _) [] g l et er b = elim b [ ]
Backs-grant gs (_ ∷ ls) g l et er (one_more h k before after e ft fr b) =
    one_more h k (g ∷ before) after (ap (λ (m : List Grant). g ∷ m) e) ft fr
      (Backs-grant (before ++ after) ls g l et er b)

-- The lock manager after the end of a transaction with the locks of `x`.
abort-locks :
    (tm : TxnManager) (lm : LockManager) (env : Env) (txn_id : ℕ) (x : Txn)
    → active_txn tm txn_id ≡ some x
    → (txn_abort tm lm env txn_id).2 ≡ release_locks lm x.locks
unfolding txn_abort
abort-locks tm lm env txn_id x e = rw (e, txn_abort) refl

commit-locks :
    (tm : TxnManager) (lm : LockManager) (env : Env) (txn_id : ℕ) (x : Txn)
    → active_txn tm txn_id ≡ some x
    → (txn_commit tm lm env txn_id).2 ≡ release_locks lm x.locks
unfolding txn_commit
commit-locks tm lm env txn_id x e = ground arith

-- `txn_abort` of an active transaction, in any state that threads can reach, gives back every lock that
-- the transaction has registered, and leaves a reachable state in which all other locks are held.
pub txn_abort-Reach :
    (tm : TxnManager) (lm : LockManager) (env : Env) (txn_id : ℕ) (x : Txn)
    (gs rest waiting : List Grant)
    → active_txn tm txn_id ≡ some x
    → Backs gs x.locks
    → Reach (after_release lm (gs ++ rest) waiting)
    → Reach (after_release (txn_abort tm lm env txn_id).2 rest waiting)
txn_abort-Reach tm lm env txn_id x gs rest waiting e b r =
    rw (abort-locks tm lm env txn_id x e) (release_locks-Reach lm gs rest waiting x.locks b r)

-- `txn_commit` of an active transaction, in any state that threads can reach, gives back every lock that the transaction has registered,
-- whether the commit succeeds or the log fails, and leaves a reachable state in which all other locks
-- are held.
pub txn_commit-Reach :
    (tm : TxnManager) (lm : LockManager) (env : Env) (txn_id : ℕ) (x : Txn)
    (gs rest waiting : List Grant)
    → active_txn tm txn_id ≡ some x
    → Backs gs x.locks
    → Reach (after_release lm (gs ++ rest) waiting)
    → Reach (after_release (txn_commit tm lm env txn_id).2 rest waiting)
txn_commit-Reach tm lm env txn_id x gs rest waiting e b r =
    rw (commit-locks tm lm env txn_id x e) (release_locks-Reach lm gs rest waiting x.locks b r)
