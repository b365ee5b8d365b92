-- ===== src/Txn/Locks/Chains.antt =====
-- The chain of one bucket of server/txn/lock_manager.c: lookup after a store and after an unlink.
use event_ticketing_platform.Base.{
  ℕ, ◌≡◌, refl, true, ◌↔◌, Option, none, some, List, [], ◌∷◌, arith, if◌then◌else◌,
}
use event_ticketing_platform.Types.{TableId, table_code-injective}
use event_ticketing_platform.Txn.Locks.{
  LockEntry, same_key, find_entry, new_entry, store_entry, unlink,
}

pub same_key_iff :
    (t : TableId) (r : ℕ) (t' : TableId) (r' : ℕ)
    → (same_key t r t' r' ≡ true) ↔ ((t ≡ t') × (r ≡ r'))
unfolding same_key
same_key_iff t r t' r' = (
  (λ h. (table_code-injective t t' (ground arith), ground arith)),
  (λ h. rw (h.0, h.1) (ground arith)),
)

pub same_key_refl : (t : TableId) (r : ℕ) → same_key t r t r ≡ true
same_key_refl t r = (same_key_iff t r t r).1 (refl, refl)

-- No key twice in a chain.
abbrev pub Distinct : List LockEntry → Type 0
Distinct [] = Unit {0}
Distinct (e ∷ es) = (find_entry es e.table e.record_id ≡ none) × Distinct es

-- The entry of a key, or the one that `create_entry` would make.
abbrev pub entry_or_new : TableId → ℕ → Option LockEntry → LockEntry
entry_or_new t r none = new_entry t r
entry_or_new t r (some e) = e

abbrev pub HasKey : LockEntry → TableId → ℕ → Type 0
HasKey e t r = (e.table ≡ t) × (e.record_id ≡ r)

pub find-HasKey :
    (es : List LockEntry) (t : TableId) (r : ℕ) (e' : LockEntry)
    → find_entry es t r ≡ some e'
    → HasKey e' t r
unfolding find_entry
find-HasKey [] t r e' h = ground arith
find-HasKey (e ∷ es) t r e' h =
    ground (arith, find-HasKey es t r e', same_key_iff e.table e.record_id t r)

abbrev replaced : Option LockEntry → LockEntry → Option LockEntry
replaced none e' = none
replaced (some _) e' = some e'

pub find-store :
    (es : List LockEntry) (t : TableId) (r : ℕ) (e' : LockEntry) (t' : TableId) (r' : ℕ)
    → HasKey e' t r
    → find_entry (store_entry es t r e') t' r'
      ≡ (if same_key t r t' r' then replaced (find_entry es t r) e' else find_entry es t' r')
unfolding find_entry store_entry
find-store [] t r e' t' r' h = ground arith
find-store (e ∷ es) t r e' t' r' h = ground (
  arith,
  find-store es t r e' t' r' h,
  same_key_iff e.table e.record_id t r,
  same_key_iff t r t' r',
  same_key_iff e.table e.record_id t' r',
  same_key_iff e'.table e'.record_id t' r',
)

pub Distinct-store :
    (es : List LockEntry) (t : TableId) (r : ℕ) (e' : LockEntry)
    → HasKey e' t r
    → Distinct es
    → Distinct (store_entry es t r e')
unfolding find_entry store_entry
Distinct-store [] t r e' h d = tt
Distinct-store (e ∷ es) t r e' h d = ground (
  arith,
  Distinct-store es t r e' h d.1,
  find-store es t r e' e.table e.record_id h,
  same_key_iff e.table e.record_id t r,
  same_key_iff t r e.table e.record_id,
)

pub find-unlink :
    (es : List LockEntry) (t : TableId) (r : ℕ) (t' : TableId) (r' : ℕ)
    → Distinct es
    → find_entry (unlink es t r) t' r' ≡ (if same_key t r t' r' then none else find_entry es t' r')
unfolding find_entry unlink
find-unlink [] t r t' r' d = ground arith
find-unlink (e ∷ es) t r t' r' d = ground (
  arith,
  find-unlink es t r t' r' d.1,
  same_key_iff e.table e.record_id t r,
  same_key_iff t r t' r',
  same_key_iff e.table e.record_id t' r',
)

pub Distinct-unlink :
    (es : List LockEntry) (t : TableId) (r : ℕ) → Distinct es → Distinct (unlink es t r)
unfolding find_entry unlink
Distinct-unlink [] t r d = tt
Distinct-unlink (e ∷ es) t r d = ground (
  arith,
  Distinct-unlink es t r d.1,
  find-unlink es t r e.table e.record_id d.1,
  same_key_iff t r e.table e.record_id,
  same_key_iff e.table e.record_id t r,
)
