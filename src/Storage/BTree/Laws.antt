-- ===== src/Storage/BTree/Laws.antt =====
-- The promises of the index of server/storage/btree.c: it is a finite map from ids to pointers.
use event_ticketing_platform.Base.{
  ℕ, zero, suc, ◌≤◌, ◌<◌, ◌≡◌, ◌∙◌, refl, true, inl, inr, ◌⊎◌, none, some, [], ◌∷◌, arith, ltb,
  ◌==◌, Bool-cases, if◌then◌else◌,
}
use event_ticketing_platform.Types.{u32_mod}
use event_ticketing_platform.Storage.BTree.{
  Node, leaf, RecordPtr, key_at, Inserted, duplicate, same, split, insert_recursive, search_node,
  BTree, btree_create, btree_insert, btree_search, grown, root_over,
}
use event_ticketing_platform.Storage.BTree.Order.{
  IsLeaf, Separates, Ordered, lower, upper, child_index_unique, search-leaf_miss,
}
use event_ticketing_platform.Storage.BTree.InnerSplit.{search-internal}
use event_ticketing_platform.Storage.BTree.Insert.{bound_to, Inserts}
use event_ticketing_platform.Storage.BTree.Insertion.{insert_recursive-Inserts}

-- The tree's order is legal, and its keys are `uint32_t` values in search order.
abbrev pub IsTree : BTree → Type 0
IsTree t = (3 ≤ t.order) × Ordered 0 u32_mod t.root

module _ (hi p : ℕ) (l r : Node) (pos : 0 < p) (small : p < hi) where
  root-Separates : Separates 0 hi (p ∷ [])
  root-Separates = record { sorted = λ i j h k. absurd (omega arith); above = above; below = below }
    where
      above : (i : ℕ) → i < 1 → 0 < key_at (p ∷ []) i
      above zero h = pos
      above (suc i) h = absurd (omega arith)

      below : (i : ℕ) → i < 1 → key_at (p ∷ []) i < hi
      below zero h = small
      below (suc i) h = absurd (omega arith)

  root_over-Ordered : Ordered 0 p l → Ordered p hi r → Ordered 0 hi (root_over l p r)
  root_over-Ordered ol or = (root-Separates, child)
    where
      child :
          (i : ℕ)
          → i ≤ 1
          → Ordered (lower 0 (p ∷ []) i) (upper hi (p ∷ []) i) (if i == 0 then l else r)
      child zero h = ol
      child (suc zero) h = or
      child (suc (suc i)) h = absurd (omega arith)

  search-root_over :
      (j : ℕ)
      → j < hi
      → search_node (root_over l p r) j ≡ (if ltb j p then search_node l j else search_node r j)
  search-root_over j h = elim (Bool-cases (ltb j p)) [
    | inl a ↦ rw a (
        search-internal (p ∷ []) _ j 0 (
          child_index_unique 0 hi (p ∷ []) root-Separates j 0 (omega arith) h (omega arith)
            (omega arith) (ground arith)))
    | inr a ↦ rw a (
        search-internal (p ∷ []) _ j 1 (
          child_index_unique 0 hi (p ∷ []) root-Separates j 1 (omega arith) h (omega arith)
            (ground arith) h))
  ]

-- The new tree is a tree, and it answers as the old one, but for the new key.
abbrev pub Adds : BTree → ℕ → RecordPtr → BTree → Type 0
Adds t key value t' =
    IsTree t' × ((j : ℕ) → j < u32_mod → btree_search t' j ≡ bound_to key value (btree_search t) j)

-- On a tree whose nodes are in order and for a key below 2^32, `btree_insert` refuses a key that a
-- search finds. Any other key it adds, and no other key's answer
-- changes; the tree keeps its order, through splits at every level and of the root.
pub btree_insert_lem :
    (t : BTree) (key : ℕ) (value : RecordPtr)
    → IsTree t
    → key < u32_mod
    → ((old : RecordPtr) × (btree_search t key ≡ some old) × (btree_insert t key value ≡ none))
      ⊎ ((t' : BTree) × (btree_search t key ≡ none)
          × (btree_insert t key value ≡ some t')
          × Adds t key value t')
unfolding btree_insert btree_search
btree_insert_lem t key value (big, o) small =
    by_outcome (insert_recursive t.order t.root key value) refl
      (insert_recursive-Inserts t.order 0 u32_mod t.root key value big o (omega arith) small)
  where
    by_outcome :
        (r : Inserted)
        → insert_recursive t.order t.root key value ≡ r
        → Inserts 0 u32_mod key value (search_node t.root) r
        → ((old : RecordPtr) × (btree_search t key ≡ some old) × (btree_insert t key value ≡ none))
          ⊎ ((t' : BTree) × (btree_search t key ≡ none)
              × (btree_insert t key value ≡ some t')
              × Adds t key value t')
    by_outcome duplicate e (old, found) = inl (old, found, rw (e, btree_insert) refl)
    by_outcome (same root) e (fresh, (ok, law)) =
        inr (
          grown t root,
          fresh,
          rw (e, btree_insert) refl,
          ((big, ok), λ j h. law j (omega arith) h),
        )
    by_outcome (split l p r) e (fresh, (a, b, ol, or, law)) = inr (
      grown t (root_over l p r),
      fresh,
      rw (e, btree_insert) refl,
      (
        (big, root_over-Ordered u32_mod p l r a b ol or),
        λ j h. search-root_over u32_mod p l r a b j h ∙ law j (omega arith) h,
      ),
    )

pub empty : IsLeaf 0 u32_mod [] []
empty = record {
  sorted = λ i j h k. absurd (omega arith);
  above = λ i h. absurd (omega arith);
  below = λ i h. absurd (omega arith);
  matched = refl;
}

pub search-empty :
    (order j : ℕ)
    → btree_search (record { order = order; root = leaf [] []; size = 0; dirty = true }) j ≡ none
unfolding btree_search
search-empty order j = search-leaf_miss [] [] empty.sorted j (λ i k. absurd (omega arith))

-- A new tree answers no search, and keeps the order it is given, which must be at least 3.
pub btree_create_lem :
    (order : ℕ)
    → ((order < 3) × (btree_create order ≡ none))
      ⊎ ((t : BTree) × (btree_create order ≡ some t)
          × IsTree t
          × ((j : ℕ) → btree_search t j ≡ none))
unfolding btree_create
btree_create_lem order = elim (Bool-cases (ltb order 3)) [
  | inl h ↦ inl (ground arith, rw h refl)
  | inr h ↦ inr (
    record { order = order; root = leaf [] []; size = 0; dirty = true },
    rw h refl,
    (ground arith, empty),
    search-empty order,
  )
]
