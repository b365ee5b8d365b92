-- ===== src/Txn/Manager/Slots.antt =====
-- The slots of server/txn/txn_manager.c: what a begin, a commit, an abort and a lock leave to find.
use event_ticketing_platform.Base.{
  ℕ, ◌≡◌, Bool, true, ◌&&◌, none, some, List, [], ◌∷◌, ◌==◌, arith, if◌then◌else◌,
}
use event_ticketing_platform.Txn.Manager.{Txn, find_txn, store_txn}

-- At most one slot in use has a given id.
abbrev pub Apart : List Txn → Type 0
Apart [] = Unit {0}
Apart (x ∷ xs) = ((x.active ≡ true) → find_txn xs x.id ≡ none) × Apart xs

unfoldable pub all_in_use : List Txn → Bool
all_in_use [] = true
all_in_use (x ∷ xs) = x.active && all_in_use xs

-- The answer to a search after the write of a transaction that is found.
pub find-store :
    (xs : List Txn) (id : ℕ) (x x' : Txn) (j : ℕ)
    → find_txn xs id ≡ some x
    → x'.id ≡ id
    → Apart xs
    → find_txn (store_txn xs id x') j
      ≡ (if id == j then (if x'.active then some x' else none) else find_txn xs j)
unfolding find_txn store_txn
find-store [] id x x' j e i a = ground arith
find-store (y ∷ ys) id x x' j e i a = ground (arith, find-store ys id x x' j)

pub find_txn-id : (xs : List Txn) (id : ℕ) (x : Txn) → find_txn xs id ≡ some x → x.id ≡ id
unfolding find_txn
find_txn-id [] id x e = absurd (ground arith)
find_txn-id (y ∷ ys) id x e = ground (arith, find_txn-id ys id x)
