-- ===== src/Txn/Locks/Counts.antt =====
-- The answers and the counts of server/txn/lock_manager.c in plain numbers, for each kind of lock.
use event_ticketing_platform.Base.{
  ℕ, zero, suc, ◌+◌, ◌≡◌, ◌≢◌, refl, ◌∙◌, ap, subst, Option, none, some, Bool, true, false, ◌⊎◌,
  inl, inr, arith,
}
use event_ticketing_platform.Types.{TableId, LockType, lock_shared, lock_exclusive}
use event_ticketing_platform.Txn.Locks.{
  LockManager, LockEntry, LockOutcome, granted, waits, failed, outcome, attempt, awake, drop_lock,
  lock_mgr_lock, lock_mgr_wake, lock_mgr_unlock,
}
use event_ticketing_platform.Txn.Locks.Chains.{same_key_iff, same_key_refl}
use event_ticketing_platform.Txn.Locks.Laws.{
  entry_at, IsValid, counts, Updates, lock-Attempts, wake-Attempts, unlock_lem,
}

-- The shared locks on a key, whether an exclusive one is held, and the waiters.
abbrev pub counts_at : LockManager → TableId → ℕ → ℕ × Bool × ℕ
counts_at lm table record_id = counts (entry_at lm table record_id)

-- The key has the counts `c`, every other key has the counts it had, and no bucket holds two entries
-- for one key.
abbrev pub SetsCounts : LockManager → TableId → ℕ → ℕ × Bool × ℕ → LockManager → Type 0
SetsCounts lm t r c lm' =
    (counts_at lm' t r ≡ c)
    × ((t' : TableId) (r' : ℕ) → (t ≢ t') ⊎ (r ≢ r') → counts_at lm' t' r' ≡ counts_at lm t' r')
    × IsValid lm'

-- What a request has to come to: a shared lock excludes only an exclusive one, an exclusive lock
-- excludes every other.
unfoldable pub asked : LockType → ℕ × Bool × ℕ → LockOutcome × (ℕ × Bool × ℕ)
asked lock_shared (shared, true, sleepers) = (waits, (shared, true, sleepers + 1))
asked lock_shared (shared, false, sleepers) = (granted, (shared + 1, false, sleepers))
asked lock_exclusive (shared, true, sleepers) = (waits, (shared, true, sleepers + 1))
asked lock_exclusive (zero, false, sleepers) = (granted, (zero, true, sleepers))
asked lock_exclusive (suc n, false, sleepers) = (waits, (suc n, false, sleepers + 1))

Updates-others :
    (lm : LockManager) (t : TableId) (r : ℕ) (e' : LockEntry) (lm' : LockManager)
    → Updates lm t r e' lm'
    → IsValid lm'
    → SetsCounts lm t r (counts e') lm'
Updates-others lm t r e' lm' u v = (
  ground (arith, u t r, same_key_refl t r),
  (λ t' r' d. ground (arith, u t' r', same_key_iff t r t' r', d)),
  v,
)

attempt-asked :
    (m : LockType) (e : LockEntry)
    → (outcome m e ≡ (asked m (counts e)).0) × (counts (attempt m e) ≡ (asked m (counts e)).1)
unfolding asked
attempt-asked m e = ground arith

-- When no bucket holds two entries for one key: `lock_mgr_lock` fails only for want of memory, and
-- then changes nothing. Otherwise a shared lock is granted exactly when no exclusive lock is held, and
-- counted; an exclusive one exactly when no lock at all is held, and marked; a thread that has to wait
-- is counted among the waiters. The counts of no other key change.
pub lock_mgr_lock_lem :
    (lm : LockManager) (t : TableId) (r : ℕ) (m : LockType) (can_alloc : Bool)
    → IsValid lm
    → ((can_alloc ≡ false) × (lock_mgr_lock lm t r m can_alloc ≡ (failed, lm)))
      ⊎ (((lock_mgr_lock lm t r m can_alloc).0 ≡ (asked m (counts_at lm t r)).0)
          × SetsCounts lm t r (asked m (counts_at lm t r)).1 (lock_mgr_lock lm t r m can_alloc).1)
lock_mgr_lock_lem lm t r m can_alloc v = elim (lock-Attempts lm t r m can_alloc v) [
  | inl f ↦ inl f
  | inr (o, u, v') ↦
      let same = attempt-asked m (entry_at lm t r) in
      inr (
        o ∙ same.0,
        subst (λ c. SetsCounts lm t r c (lock_mgr_lock lm t r m can_alloc).1) same.1
            (Updates-others lm t r (attempt m (entry_at lm t r)) _ u v'),
      )
]

-- When no bucket holds two entries for one key: a thread that wakes up and is counted among the
-- waiters of the key is no longer counted, and then is answered like a new request: granted and
-- counted, or once more among the waiters. The counts of no other key change.
pub lock_mgr_wake_lem :
    (lm : LockManager) (t : TableId) (r : ℕ) (m : LockType) (shared sleepers : ℕ) (exclusive : Bool)
    → IsValid lm
    → counts_at lm t r ≡ (shared, exclusive, sleepers + 1)
    → ((lock_mgr_wake lm t r m).0 ≡ (asked m (shared, exclusive, sleepers)).0)
      × SetsCounts lm t r (asked m (shared, exclusive, sleepers)).1 (lock_mgr_wake lm t r m).1
lock_mgr_wake_lem lm t r m shared sleepers exclusive v h =
    let e : LockEntry = entry_at lm t r in
    let attempts = wake-Attempts lm t r m v (ground (arith, h)) in
    let same = attempt-asked m (awake e) in
    let before : counts (awake e) ≡ (shared, exclusive, sleepers) = ground (arith, h) in
    (
      attempts.0 ∙ same.0 ∙ ap (λ (c : ℕ × Bool × ℕ). (asked m c).0) before,
      subst (λ c. SetsCounts lm t r c (lock_mgr_wake lm t r m).1)
          (same.1 ∙ ap (λ (c : ℕ × Bool × ℕ). (asked m c).1) before)
          (Updates-others lm t r (attempt m (awake e)) _ attempts.1 attempts.2),
    )

-- What an unlock has to come to: none when no lock is held.
unfoldable pub given_back : ℕ × Bool × ℕ → Option (ℕ × Bool × ℕ)
given_back (shared, true, sleepers) = some (shared, false, sleepers)
given_back (zero, false, sleepers) = none
given_back (suc n, false, sleepers) = some (n, false, sleepers)

abbrev counted : Option LockEntry → Option (ℕ × Bool × ℕ)
counted none = none
counted (some e) = some (counts e)

drop-given_back : (e : LockEntry) → given_back (counts e) ≡ counted (drop_lock e)
unfolding given_back
drop-given_back e = held e.shared_count e.exclusive_held
  where
    held :
        (n : ℕ) (x : Bool)
        → given_back (n, x, e.waiters)
          ≡ counted (drop_lock (record e { shared_count = n; exclusive_held = x }))
    held n true = refl
    held zero false = refl
    held (suc n) false = ground arith

-- When no bucket holds two entries for one key: `lock_mgr_unlock` returns -1 exactly when no lock is held
-- on the key, and then changes nothing. Otherwise it returns 0 and takes back the exclusive lock, or,
-- where none is held, one of the shared locks. The waiters and the counts of every other key stay.
pub lock_mgr_unlock_lem :
    (lm : LockManager) (t : TableId) (r : ℕ)
    → IsValid lm
    → ((given_back (counts_at lm t r) ≡ none) × (lock_mgr_unlock lm t r ≡ (false, lm)))
      ⊎ ((c' : ℕ × Bool × ℕ) × (given_back (counts_at lm t r) ≡ some c')
          × ((lock_mgr_unlock lm t r).0 ≡ true)
          × SetsCounts lm t r c' (lock_mgr_unlock lm t r).1)
lock_mgr_unlock_lem lm t r v = elim (unlock_lem lm t r v) [
  | inl (d, same) ↦ inl (drop-given_back (entry_at lm t r) ∙ ap counted d, same)
  | inr (e', d, o, u, v') ↦ inr (
    counts e',
    drop-given_back (entry_at lm t r) ∙ ap counted d,
    o,
    Updates-others lm t r e' _ u v',
  )
]
