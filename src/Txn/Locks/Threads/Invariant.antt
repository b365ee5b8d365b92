-- ===== src/Txn/Locks/Threads/Invariant.antt =====
-- The counts that server/txn/lock_manager.c keeps are right in every interleaving of its callers.
use event_ticketing_platform.Base.{
  ℕ, ◌+◌, ◌-◌, ◌<◌, ◌≡◌, refl, ap, sym, subst, ◌∙◌, Bool, true, false, ◌⊎◌, inl, inr, some, List,
  ◌∷◌, ◌++◌, arith, Bool-cases, if◌then◌else◌,
}
use event_ticketing_platform.Types.{TableId, LockType, lock_shared, lock_exclusive}
use event_ticketing_platform.Txn.Locks.{
  LockManager, LockEntry, LockOutcome, granted, waits, failed, same_key, find_entry, attempt,
  outcome, awake, drop_lock, lock_mgr_create, lock_mgr_lock, lock_mgr_wake, lock_mgr_unlock,
}
use event_ticketing_platform.Txn.Locks.Chains.{same_key_iff, same_key_refl}
use event_ticketing_platform.Txn.Locks.Laws.{
  entry_at, IsValid, counts, Attempts, lock-Attempts, wake-Attempts, unlock_lem,
}
use event_ticketing_platform.Txn.Locks.Threads.{
  Grant, System, init, settle, Step, request, retry, release, Reach, start, next, weight,
  shared_weight, exclusive_weight, tally, tally-remove, one,
}

-- The counts of a record's entry are the numbers of its holders and waiters, and a record that is
-- held exclusively has no shared holder.
abbrev pub Fits : ℕ × Bool × ℕ → List Grant → List Grant → TableId → ℕ → Type 0
Fits (shared, exclusive, waiters) held waiting t r =
    (shared ≡ tally shared_weight t r held)
    × (weight exclusive ≡ tally exclusive_weight t r held)
    × (waiters ≡ tally one t r waiting)
    × ((exclusive ≡ false) ⊎ (shared ≡ 0))

abbrev pub Agrees : System → TableId → ℕ → Type 0
Agrees s t r = Fits (counts (entry_at s.lm t r)) s.held s.waiting t r

pub record Inv (s : System) : Type 0 where
  pub valid : IsValid s.lm
  pub agrees : (t : TableId) (r : ℕ) → Agrees s t r

init-Inv : Inv init
unfolding lock_mgr_create tally find_entry
init-Inv = record { valid = λ i. tt; agrees = λ t r. (refl, refl, refl, inl refl) }

attempt-Fits :
    (m : LockType) (held ws : List Grant) (g : Grant) (e : LockEntry) (lm : LockManager)
    → g.mode ≡ m
    → Fits (counts e) held ws g.table g.record_id
    → counts (entry_at lm g.table g.record_id) ≡ counts (attempt g.mode e)
    → Agrees (settle held ws g (outcome g.mode e, lm)) g.table g.record_id
unfolding tally
attempt-Fits lock_shared held ws g e lm k f c = ground (arith, same_key_refl g.table g.record_id)
attempt-Fits lock_exclusive held ws g e lm k f c = ground (arith, same_key_refl g.table g.record_id)

other-Fits :
    (o : LockOutcome) (held ws : List Grant) (g : Grant) (lm : LockManager) (t : TableId) (r : ℕ)
    → same_key g.table g.record_id t r ≡ false
    → Agrees (record { lm = lm; held = held; waiting = ws }) t r
    → Agrees (settle held ws g (o, lm)) t r
unfolding tally
other-Fits granted held ws g lm t r k f = ground arith
other-Fits waits held ws g lm t r k f = ground arith
other-Fits failed held ws g lm t r k f = f

-- An attempt that starts from the entry `e` keeps the agreement of every record.
settle-Inv :
    (lm : LockManager) (held ws : List Grant) (g : Grant) (e : LockEntry)
    (p : LockOutcome × LockManager)
    → Fits (counts e) held ws g.table g.record_id
    → ((t : TableId) (r : ℕ)
        → same_key g.table g.record_id t r ≡ false
        → Agrees (record { lm = lm; held = held; waiting = ws }) t r)
    → Attempts lm g.table g.record_id g.mode e p
    → Inv (settle held ws g p)
settle-Inv lm held ws g e (o, lm') f others (eo, upd, v) = record {
  valid = kept o;
  agrees = λ t r. elim (Bool-cases (same_key g.table g.record_id t r)) [
    | inl k ↦ at_key t r ((same_key_iff g.table g.record_id t r).0 k)
    | inr k ↦
        other-Fits o held ws g lm' t r k
          (subst (λ c. Fits c held ws t r) (sym (rw k at (upd t r))) (others t r k))
  ];
}
  where
    kept : (o : LockOutcome) → IsValid (settle held ws g (o, lm')).lm
    kept granted = v
    kept waits = v
    kept failed = v

    here : Agrees (settle held ws g (o, lm')) g.table g.record_id
    here = rw eo (
        attempt-Fits g.mode held ws g e lm' refl f
          (rw (upd g.table g.record_id, same_key_refl g.table g.record_id) refl))

    at_key :
        (t : TableId) (r : ℕ)
        → (g.table ≡ t) × (g.record_id ≡ r)
        → Agrees (settle held ws g (o, lm')) t r
    at_key t r (et, er) =
        subst (λ t. Agrees (settle held ws g (o, lm')) t r) et
          (subst (λ r. Agrees (settle held ws g (o, lm')) g.table r) er here)

request-Inv :
    (s : System) (g : Grant) (can_alloc : Bool)
    → Inv s
    → Inv (settle s.held s.waiting g (lock_mgr_lock s.lm g.table g.record_id g.mode can_alloc))
request-Inv s g can_alloc inv =
    elim (lock-Attempts s.lm g.table g.record_id g.mode can_alloc inv.valid) [
      | inl (_, e) ↦ rw e inv
      | inr a ↦
          settle-Inv s.lm s.held s.waiting g _ _ (inv.agrees g.table g.record_id)
            (λ t r _. inv.agrees t r) a
    ]

-- A thread that is counted as waiting finds its entry again.
pub waiting_pos :
    (s : System) (g : Grant) (before after : List Grant)
    → Inv s
    → s.waiting ≡ before ++ g ∷ after
    → 0 < (entry_at s.lm g.table g.record_id).waiters
waiting_pos s g before after inv e = ground (
  arith,
  inv.agrees g.table g.record_id,
  ap (tally one g.table g.record_id) e,
  tally-remove one g.table g.record_id before g after,
  same_key_refl g.table g.record_id,
)

retry-Inv :
    (s : System) (g : Grant) (before after : List Grant)
    → Inv s
    → s.waiting ≡ before ++ g ∷ after
    → Inv (settle s.held (before ++ after) g (lock_mgr_wake s.lm g.table g.record_id g.mode))
retry-Inv s g before after inv e =
    settle-Inv s.lm s.held (before ++ after) g (awake (entry_at s.lm g.table g.record_id)) _
      (ground (
        arith,
        inv.agrees g.table g.record_id,
        moved g.table g.record_id,
        same_key_refl g.table g.record_id,
      ))
      (λ t r k. ground (arith, inv.agrees t r, moved t r, k))
      (wake-Attempts s.lm g.table g.record_id g.mode inv.valid (waiting_pos s g before after inv e))
  where
    moved :
        (t : TableId) (r : ℕ)
        → tally one t r s.waiting
          ≡ (if same_key g.table g.record_id t r then 1 else 0) + tally one t r (before ++ after)
    moved t r = ap (tally one t r) e ∙ tally-remove one t r before g after

-- A lock that is held can be given back.
held_drop :
    (s : System) (g : Grant) (before after : List Grant)
    → Inv s
    → s.held ≡ before ++ g ∷ after
    → (e' : LockEntry) × (drop_lock (entry_at s.lm g.table g.record_id) ≡ some e')
      × Fits (counts e') (before ++ after) s.waiting g.table g.record_id
held_drop s g before after inv e = by_mode g.mode refl
  where
    entry : LockEntry
    entry = entry_at s.lm g.table g.record_id

    left :
        (w : LockType → ℕ)
        → tally w g.table g.record_id s.held
          ≡ w g.mode + tally w g.table g.record_id (before ++ after)
    left w = ground (
      arith,
      ap (tally w g.table g.record_id) e,
      tally-remove w g.table g.record_id before g after,
      same_key_refl g.table g.record_id,
    )

    by_mode :
        (m : LockType)
        → g.mode ≡ m
        → (e' : LockEntry) × (drop_lock entry ≡ some e')
          × Fits (counts e') (before ++ after) s.waiting g.table g.record_id
    by_mode lock_shared k = (
      record entry { shared_count = entry.shared_count - 1 },
      ground (arith, inv.agrees g.table g.record_id, left shared_weight, left exclusive_weight),
      ground (arith, inv.agrees g.table g.record_id, left shared_weight, left exclusive_weight),
    )
    by_mode lock_exclusive k = (
      record entry { exclusive_held = false },
      ground (arith, inv.agrees g.table g.record_id, left shared_weight, left exclusive_weight),
      ground (arith, inv.agrees g.table g.record_id, left shared_weight, left exclusive_weight),
    )

pub release-Inv :
    (s : System) (g : Grant) (before after : List Grant)
    → Inv s
    → s.held ≡ before ++ g ∷ after
    → ((lock_mgr_unlock s.lm g.table g.record_id).0 ≡ true)
      × Inv (record {
        lm = (lock_mgr_unlock s.lm g.table g.record_id).1;
        held = before ++ after;
        waiting = s.waiting;
      })
release-Inv s g before after inv e =
    let (e', d, f) = held_drop s g before after inv e in
    elim (unlock_lem s.lm g.table g.record_id inv.valid) [
      | inl (d', _) ↦ absurd (cc)
      | inr (e'', d', done, upd, v) ↦ (
        done,
        record {
          valid = v;
          agrees = λ t r.
              subst (λ c. Fits c (before ++ after) s.waiting t r) (sym (upd t r))
                (released t r e'' (cc) f);
        },
      )
    ]
  where
    released :
        (t : TableId) (r : ℕ) (e'' : LockEntry)
        → some e'' ≡ some (held_drop s g before after inv e).0
        → Fits
            (counts (held_drop s g before after inv e).0)
            (before ++ after)
            s.waiting
            g.table
            g.record_id
        → Fits
            (if same_key g.table g.record_id t r then counts e'' else counts (entry_at s.lm t r))
            (before ++ after)
            s.waiting
            t
            r
    released t r e'' same f = ground (
      arith,
      inv.agrees t r,
      same_key_iff g.table g.record_id t r,
      ap (tally shared_weight t r) e,
      ap (tally exclusive_weight t r) e,
      tally-remove shared_weight t r before g after,
      tally-remove exclusive_weight t r before g after,
    )

pub Step-Inv : {s t : System} → Step s t → Inv s → Inv t
Step-Inv {s} (request g can_alloc) inv = request-Inv s g can_alloc inv
Step-Inv {s} (retry g before after e) inv = retry-Inv s g before after inv e
Step-Inv {s} (release g before after e) inv = (release-Inv s g before after inv e).1

pub Reach-Inv : {s : System} → Reach s → Inv s
Reach-Inv start = init-Inv
Reach-Inv (next r st) = Step-Inv st (Reach-Inv r)
