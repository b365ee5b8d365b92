-- ===== src/Txn/Locks/Laws.antt =====
-- What the calls of server/txn/lock_manager.c do to the counts that a key's entry holds.
use event_ticketing_platform.Base.{
  ℕ, ◌<◌, ◌≡◌, refl, Bool, true, false, ◌⊎◌, inl, inr, none, some, List, ◌∷◌, arith, ◌==◌,
  Option-cases, Bool-cases, if◌then◌else◌,
}
use event_ticketing_platform.Types.{TableId, LockType}
use event_ticketing_platform.Txn.Locks.{
  LockManager, LockEntry, LockOutcome, failed, lock_hash, same_key, find_entry, new_entry,
  store_entry, try_remove_entry, in_use, attempt, outcome, awake, drop_lock, bucket_of, set_bucket,
  lock_mgr_lock, lock_mgr_wake, lock_mgr_unlock,
}
use event_ticketing_platform.Txn.Locks.Chains.{
  Distinct, entry_or_new, HasKey, same_key_iff, find-HasKey, find-store, Distinct-store,
  find-unlink, Distinct-unlink,
}

abbrev pub entry_at : LockManager → TableId → ℕ → LockEntry
entry_at lm t r = entry_or_new t r (find_entry (bucket_of lm t r) t r)

-- No bucket holds two entries for one key.
abbrev pub IsValid : LockManager → Type 0
IsValid lm = (i : ℕ) → Distinct (lm.buckets i)

abbrev pub counts : LockEntry → ℕ × Bool × ℕ
counts e = (e.shared_count, e.exclusive_held, e.waiters)

-- The key (t, r) now counts as `e'` does, and every other key as before.
abbrev pub Updates : LockManager → TableId → ℕ → LockEntry → LockManager → Type 0
Updates lm t r e' lm' =
    (t' : TableId) (r' : ℕ)
    → counts (entry_at lm' t' r')
      ≡ (if same_key t r t' r' then counts e' else counts (entry_at lm t' r'))

-- A chain in which the key (t, r) counts as `e'`, and every other key as in `es`.
abbrev Rewrites : List LockEntry → TableId → ℕ → LockEntry → List LockEntry → Type 0
Rewrites es t r e' es' =
    (t' : TableId) (r' : ℕ)
    → counts (entry_or_new t' r' (find_entry es' t' r')) ≡ (
        if same_key t r t' r' then counts e' else counts (entry_or_new t' r' (find_entry es t' r')))

set_bucket-Updates :
    (lm : LockManager) (t : TableId) (r : ℕ) (e' : LockEntry) (es' : List LockEntry)
    → Rewrites (bucket_of lm t r) t r e' es'
    → Updates lm t r e' (set_bucket lm (lock_hash t r) es')
set_bucket-Updates lm t r e' es' h t' r' = ground (arith, h t' r', same_key_iff t r t' r')

IsValid-set_bucket :
    (lm : LockManager) (i : ℕ) (es : List LockEntry)
    → IsValid lm
    → Distinct es
    → IsValid (set_bucket lm i es)
IsValid-set_bucket lm i es v d j = elim (Bool-cases (j == i)) [
  | inl e ↦ rw e d
  | inr e ↦ rw e (v j)
]

Rewrites-store :
    (es : List LockEntry) (t : TableId) (r : ℕ) (e e' : LockEntry)
    → find_entry es t r ≡ some e
    → HasKey e' t r
    → Rewrites es t r e' (store_entry es t r e')
Rewrites-store es t r e e' h k t' r' = ground (arith, find-store es t r e' t' r' k)

Rewrites-cons :
    (es : List LockEntry) (t : TableId) (r : ℕ) (e' : LockEntry)
    → HasKey e' t r
    → Rewrites es t r e' (e' ∷ es)
unfolding find_entry
Rewrites-cons es t r e' k t' r' =
    ground (arith, same_key_iff e'.table e'.record_id t' r', same_key_iff t r t' r')

Rewrites-remove :
    (es : List LockEntry) (t : TableId) (r : ℕ) (e e' : LockEntry)
    → Distinct es
    → find_entry es t r ≡ some e
    → HasKey e' t r
    → Rewrites es t r e' (try_remove_entry (store_entry es t r e') e')
unfolding try_remove_entry
Rewrites-remove es t r e e' d h k t' r' = ground (
  arith,
  find-store es t r e' t' r' k,
  find-unlink (store_entry es t r e') e'.table e'.record_id t' r' (Distinct-store es t r e' k d),
  same_key_iff t r t' r',
  same_key_iff e'.table e'.record_id t' r',
)

Distinct-remove :
    (es : List LockEntry) (t : TableId) (r : ℕ) (e' : LockEntry)
    → Distinct es
    → HasKey e' t r
    → Distinct (try_remove_entry (store_entry es t r e') e')
unfolding try_remove_entry
Distinct-remove es t r e' d k = elim (Bool-cases (in_use e')) [
  | inl h ↦ rw h (Distinct-store es t r e' k d)
  | inr h ↦ rw h (Distinct-unlink _ e'.table e'.record_id (Distinct-store es t r e' k d))
]

attempt-HasKey :
    (m : LockType) (e : LockEntry) (t : TableId) (r : ℕ) → HasKey e t r → HasKey (attempt m e) t r
attempt-HasKey m e t r k = ground arith

module _ (lm : LockManager) (t : TableId) (r : ℕ) (m : LockType) where
  -- The key's entry goes from `e` through one attempt at the lock.
  abbrev pub Attempts : LockEntry → LockOutcome × LockManager → Type 0
  Attempts e (o, lm') = (o ≡ outcome m e) × Updates lm t r (attempt m e) lm' × IsValid lm'

  Attempts-cons :
      IsValid lm
      → find_entry (bucket_of lm t r) t r ≡ none
      → Attempts (new_entry t r) (
        outcome m (new_entry t r),
        set_bucket lm (lock_hash t r) (attempt m (new_entry t r) ∷ bucket_of lm t r),
      )
  Attempts-cons v h = (
    refl,
    set_bucket-Updates lm t r (attempt m (new_entry t r)) _
        (Rewrites-cons _ t r _ (attempt-HasKey m _ t r (refl, refl))),
    IsValid-set_bucket lm _ _ v (ground (arith, v (lock_hash t r))),
  )

  Attempts-store :
      (e e' : LockEntry)
      → IsValid lm
      → find_entry (bucket_of lm t r) t r ≡ some e
      → HasKey e' t r
      → Attempts e' (
        outcome m e',
        set_bucket lm (lock_hash t r) (store_entry (bucket_of lm t r) t r (attempt m e')),
      )
  Attempts-store e e' v h k = (
    refl,
    set_bucket-Updates lm t r (attempt m e') _
        (Rewrites-store _ t r e _ h (attempt-HasKey m e' t r k)),
    IsValid-set_bucket lm _ _ v
        (Distinct-store _ t r _ (attempt-HasKey m e' t r k) (v (lock_hash t r))),
  )

  -- When no bucket holds two entries for one key: `lock_mgr_lock` fails only for want of memory, and then changes nothing. Otherwise its outcome
  -- is decided by the entry of the key, and only that key's counts change.
  pub lock-Attempts :
      (can_alloc : Bool)
      → IsValid lm
      → ((can_alloc ≡ false) × (lock_mgr_lock lm t r m can_alloc ≡ (failed, lm)))
        ⊎ Attempts (entry_at lm t r) (lock_mgr_lock lm t r m can_alloc)
  unfolding lock_mgr_lock
  lock-Attempts can_alloc v = elim (Option-cases (find_entry (bucket_of lm t r) t r)) [
    | inl h ↦ fresh can_alloc h
    | inr (e, h) ↦ inr (rw (h, lock_mgr_lock) (Attempts-store e e v h (find-HasKey _ t r e h)))
  ]
    where
      fresh :
          (a : Bool)
          → find_entry (bucket_of lm t r) t r ≡ none
          → ((a ≡ false) × (lock_mgr_lock lm t r m a ≡ (failed, lm)))
            ⊎ Attempts (entry_at lm t r) (lock_mgr_lock lm t r m a)
      fresh true h = inr (rw (h, lock_mgr_lock) (Attempts-cons v h))
      fresh false h = inl (refl, rw (h, lock_mgr_lock) refl)

  -- When no bucket holds two entries for one key: a thread that wakes up finds its entry again if it is counted as a waiter there, and makes one
  -- more attempt without being counted.
  pub wake-Attempts :
      IsValid lm
      → 0 < (entry_at lm t r).waiters
      → Attempts (awake (entry_at lm t r)) (lock_mgr_wake lm t r m)
  unfolding lock_mgr_wake
  wake-Attempts v w = elim (Option-cases (find_entry (bucket_of lm t r) t r)) [
    | inl h ↦ absurd (ground arith)
    | inr (e, h) ↦ rw (h, lock_mgr_wake) (Attempts-store e (awake e) v h (find-HasKey _ t r e h))
  ]

-- When no bucket holds two entries for one key: `lock_mgr_unlock` returns -1 exactly when the key is not locked, and then changes nothing.
-- Otherwise it takes back the exclusive lock, or else one shared lock, of that key only.
pub unlock_lem :
    (lm : LockManager) (t : TableId) (r : ℕ)
    → IsValid lm
    → ((drop_lock (entry_at lm t r) ≡ none) × (lock_mgr_unlock lm t r ≡ (false, lm)))
      ⊎ ((e' : LockEntry) × (drop_lock (entry_at lm t r) ≡ some e')
          × ((lock_mgr_unlock lm t r).0 ≡ true)
          × Updates lm t r e' (lock_mgr_unlock lm t r).1
          × IsValid (lock_mgr_unlock lm t r).1)
unfolding lock_mgr_unlock
unlock_lem lm t r v = elim (Option-cases (find_entry (bucket_of lm t r) t r)) [
  | inl h ↦ inl (rw h refl, rw (h, lock_mgr_unlock) refl)
  | inr (e, h) ↦ elim (Option-cases (drop_lock e)) [
    | inl d ↦ inl (rw h d, rw (h, lock_mgr_unlock) (rw (d, lock_mgr_unlock) refl))
    | inr (e', d) ↦
        let k : HasKey e' t r = ground (arith, find-HasKey _ t r e h) in
        inr (
          e',
          rw h d,
          rw (h, lock_mgr_unlock) (rw (d, lock_mgr_unlock) refl),
          rw (h, lock_mgr_unlock)
              (rw (d, lock_mgr_unlock)
                (set_bucket-Updates lm t r e' _
                  (Rewrites-remove _ t r e e' (v (lock_hash t r)) h k))),
          rw (h, lock_mgr_unlock)
              (rw (d, lock_mgr_unlock)
                (IsValid-set_bucket lm _ _ v (Distinct-remove _ t r e' (v (lock_hash t r)) k))),
        )
  ]
]
