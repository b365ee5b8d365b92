-- ===== src/Storage/BTree/Order.antt =====
-- The order of the keys in the nodes of server/storage/btree.c, and what a search finds by it.
use event_ticketing_platform.Base.{
  ℕ, ◌+◌, ◌-◌, ◌≤◌, ◌<◌, ◌≡◌, ◌≢◌, ◌⊎◌, inl, inr, none, some, List, arith, ltb, ◌==◌, if◌then◌else◌,
  length, get_or, Bool-cases,
}
use event_ticketing_platform.Storage.BTree.{
  Node, leaf, internal, RecordPtr, invalid_record_ptr, key_at, key_lower_bound, is_key,
  key_find_exact, child_index, find_leaf, search_node,
}
use event_ticketing_platform.Storage.BTree.Search.{
  Sorted, IsLowerBound, key_lower_bound-IsLowerBound,
}

pub record IsLeaf (lo hi : ℕ) (keys : List ℕ) (values : List RecordPtr) : Type 0 where
  pub sorted : Sorted keys
  pub above : (i : ℕ) → i < length keys → lo ≤ key_at keys i
  pub below : (i : ℕ) → i < length keys → key_at keys i < hi
  pub matched : length values ≡ length keys

pub record Separates (lo hi : ℕ) (keys : List ℕ) : Type 0 where
  pub sorted : Sorted keys
  pub above : (i : ℕ) → i < length keys → lo < key_at keys i
  pub below : (i : ℕ) → i < length keys → key_at keys i < hi

-- The bounds of child `i`.
abbrev pub lower : ℕ → List ℕ → ℕ → ℕ
lower lo keys i = if i == 0 then lo else key_at keys (i - 1)

abbrev pub upper : ℕ → List ℕ → ℕ → ℕ
upper hi keys i = if ltb i (length keys) then key_at keys i else hi

-- Every key below the node lies in [lo, hi), and the separators keep the children apart.
abbrev pub Ordered : ℕ → ℕ → Node → Type 0
Ordered lo hi (leaf keys values) = IsLeaf lo hi keys values
Ordered lo hi (internal keys children) =
    Separates lo hi keys
    × ((i : ℕ) → i ≤ length keys → Ordered (lower lo keys i) (upper hi keys i) (children i))

module _ (keys : List ℕ) (values : List RecordPtr) (s : Sorted keys) where
  -- A key is found at its index.
  pub search-leaf_hit :
      (i k : ℕ)
      → i < length keys
      → key_at keys i ≡ k
      → search_node (leaf keys values) k ≡ some (get_or values i invalid_record_ptr)
  unfolding search_node find_leaf key_find_exact
  search-leaf_hit i k h e =
      let lb : IsLowerBound keys k (key_lower_bound keys k) =
        key_lower_bound-IsLowerBound keys k s in
      let at : key_lower_bound keys k ≡ i =
        ground
          (arith, lb.below i, lb.above (key_lower_bound keys k), s (key_lower_bound keys k) i) in
      ground arith

  pub search-leaf_miss :
      (k : ℕ)
      → ((i : ℕ) → i < length keys → key_at keys i ≢ k)
      → search_node (leaf keys values) k ≡ none
  unfolding search_node find_leaf key_find_exact
  search-leaf_miss k h = ground (arith, h (key_lower_bound keys k))

  -- The key stands somewhere, or nowhere.
  pub key_cases :
      (k : ℕ)
      → ((i : ℕ) × (i < length keys) × (key_at keys i ≡ k))
        ⊎ ((i : ℕ) → i < length keys → key_at keys i ≢ k)
  key_cases k =
      let pos = key_lower_bound keys k in
      let lb : IsLowerBound keys k pos = key_lower_bound-IsLowerBound keys k s in
      elim (Bool-cases (is_key keys pos k)) [
        | inl h ↦ inl (pos, ground arith, ground arith)
        | inr h ↦ inr (λ i m e. ground (arith, lb.below i, lb.above i, lb.above pos, s pos i))
      ]

module _ (lo hi : ℕ) (keys : List ℕ) (sep : Separates lo hi keys) (k : ℕ) where
  -- The child that a search descends to has the key within its bounds.
  pub child_index_bounds :
      lo ≤ k
      → k < hi
      → (child_index keys k ≤ length keys)
        × (lower lo keys (child_index keys k) ≤ k)
        × (k < upper hi keys (child_index keys k))
  unfolding child_index
  child_index_bounds a b =
      let pos = key_lower_bound keys k in
      let lb : IsLowerBound keys k pos = key_lower_bound-IsLowerBound keys k sep.sorted in
      ground (arith, lb.in_range, lb.below (pos - 1), lb.above pos, sep.sorted pos (pos + 1))

  -- No other child has.
  pub child_index_unique :
      (i : ℕ)
      → lo ≤ k
      → k < hi
      → i ≤ length keys
      → lower lo keys i ≤ k
      → k < upper hi keys i
      → child_index keys k ≡ i
  child_index_unique i a b c d e =
      let at = child_index keys k in
      ground (arith, child_index_bounds a b, sep.sorted at (i - 1), sep.sorted i (at - 1))
