-- ===== src/Storage/BTree/Insert.antt =====
-- Insertion into the nodes of server/storage/btree.c.
use event_ticketing_platform.Base.{
  ℕ, ◌+◌, ◌-◌, ◌≤◌, ◌<◌, ◌≡◌, ◌≢◌, false, inl, inr, Option, none, some, List, arith, ◌==◌,
  Bool-cases, if◌then◌else◌, length,
}
use event_ticketing_platform.Storage.BTree.{
  leaf, RecordPtr, invalid_record_ptr, key_at, key_lower_bound, is_key, Inserted, duplicate, same,
  split, insert_at, insert_leaf, search_node,
}
use event_ticketing_platform.Storage.BTree.Search.{IsLowerBound, key_lower_bound-IsLowerBound}
use event_ticketing_platform.Storage.BTree.Arrays.{length-insert_at, get_or-insert_at}
use event_ticketing_platform.Storage.BTree.Order.{
  IsLeaf, search-leaf_hit, search-leaf_miss, key_cases,
}
use event_ticketing_platform.Storage.BTree.Split.{Becomes, Becomes-cong, grow_leaf-Becomes}

-- What a search answers once `key` leads to `value`.
abbrev pub bound_to : ℕ → RecordPtr → (ℕ → Option RecordPtr) → ℕ → Option RecordPtr
bound_to key value f j = if key == j then some value else f j

-- The outcome of inserting `key` under a node on which a search answers as `f` does.
abbrev pub Inserts : ℕ → ℕ → ℕ → RecordPtr → (ℕ → Option RecordPtr) → Inserted → Type 0
Inserts lo hi key value f duplicate = (old : RecordPtr) × (f key ≡ some old)
Inserts lo hi key value f (same node) =
    (f key ≡ none) × Becomes lo hi (bound_to key value f) (same node)
Inserts lo hi key value f (split left promoted right) =
    (f key ≡ none) × Becomes lo hi (bound_to key value f) (split left promoted right)

pub Becomes-Inserts :
    (lo hi key : ℕ) (value : RecordPtr) (f : ℕ → Option RecordPtr) (r : Inserted)
    → f key ≡ none
    → Becomes lo hi (bound_to key value f) r
    → Inserts lo hi key value f r
Becomes-Inserts lo hi key value f duplicate e b = absurd b
Becomes-Inserts lo hi key value f (same node) e b = (e, b)
Becomes-Inserts lo hi key value f (split left promoted right) e b = (e, b)

module _ (lo hi : ℕ) (keys : List ℕ) (values : List RecordPtr) (l : IsLeaf lo hi keys values)
    (key : ℕ) (value : RecordPtr) (from : lo ≤ key) (to : key < hi)
    (absent : is_key keys (key_lower_bound keys key) key ≡ false) where
  place : IsLowerBound keys key (key_lower_bound keys key)
  place = key_lower_bound-IsLowerBound keys key l.sorted

  nowhere : (i : ℕ) → i < length keys → key_at keys i ≢ key
  nowhere i h e =
      let pos = key_lower_bound keys key in
      ground (arith, absent, place.below i, place.above pos, l.sorted pos i)

  grown-IsLeaf :
      IsLeaf lo hi
        (insert_at keys (key_lower_bound keys key) key)
        (insert_at values (key_lower_bound keys key) value)
  grown-IsLeaf =
      let pos = key_lower_bound keys key in
      let size = length-insert_at keys pos key in
      let at = λ (i : ℕ). get_or-insert_at keys pos key i 0 place.in_range in
      record {
        sorted = λ i j h k. ground (
          arith,
          size,
          place.in_range,
          at i,
          at j,
          l.sorted i j,
          l.sorted i (j - 1),
          l.sorted (i - 1) (j - 1),
          place.below i,
          place.above (j - 1),
          nowhere (j - 1),
        );
        above = λ i h. ground (arith, size, place.in_range, at i, l.above i, l.above (i - 1));
        below = λ i h. ground (arith, size, place.in_range, at i, l.below i, l.below (i - 1));
        matched = omega (arith, size, length-insert_at values pos value, l.matched);
      }

  search-grown :
      (j : ℕ)
      → search_node
          (leaf
            (insert_at keys (key_lower_bound keys key) key)
            (insert_at values (key_lower_bound keys key) value))
          j
        ≡ bound_to key value (search_node (leaf keys values)) j
  search-grown j =
      let pos = key_lower_bound keys key in
      let keys' = insert_at keys pos key in
      let values' = insert_at values pos value in
      let size = length-insert_at keys pos key in
      let at = λ (i : ℕ). get_or-insert_at keys pos key i 0 place.in_range in
      let put = λ (i : ℕ). get_or-insert_at values pos value i invalid_record_ptr in
      elim (Bool-cases (key == j)) [
        | inl e ↦ ground (
          arith,
          size,
          at pos,
          put pos,
          place.in_range,
          l.matched,
          search-leaf_hit keys' values' grown-IsLeaf.sorted pos j,
        )
        | inr e ↦ elim (key_cases keys values l.sorted j) [
          | inl (i, h, k) ↦ ground (
            arith,
            size,
            at i,
            at (i + 1),
            put i,
            put (i + 1),
            place.in_range,
            l.matched,
            search-leaf_hit keys' values' grown-IsLeaf.sorted i j,
            search-leaf_hit keys' values' grown-IsLeaf.sorted (i + 1) j,
            search-leaf_hit keys values l.sorted i j h k,
          )
          | inr miss ↦
              let gone =
                search-leaf_miss keys' values' grown-IsLeaf.sorted j
                  (λ i h. ground (arith, size, at i, miss i, miss (i - 1), place.in_range)) in
              ground (arith, gone, search-leaf_miss keys values l.sorted j miss)
        ]
      ]

pub insert_leaf-Inserts :
    (order lo hi : ℕ) (keys : List ℕ) (values : List RecordPtr) (key : ℕ) (value : RecordPtr)
    → 3 ≤ order
    → IsLeaf lo hi keys values
    → lo ≤ key
    → key < hi
    → Inserts lo hi key value
        (search_node (leaf keys values))
        (insert_leaf order keys values key value)
unfolding insert_leaf
insert_leaf-Inserts order lo hi keys values key value big l from to =
    let pos = key_lower_bound keys key in
    elim (Bool-cases (is_key keys pos key)) [
      | inl here ↦
          rw (here, insert_leaf)
            (_, search-leaf_hit keys values l.sorted pos key (ground arith) (ground arith))
      | inr absent ↦
          rw (absent, insert_leaf)
            (Becomes-Inserts lo hi key value (search_node (leaf keys values)) _
              (search-leaf_miss keys values l.sorted key
                (nowhere lo hi keys values l key value from to absent))
              (Becomes-cong lo hi _ _ _
                (λ j h k. search-grown lo hi keys values l key value from to absent j)
                (grow_leaf-Becomes lo hi _ _
                  (grown-IsLeaf lo hi keys values l key value from to absent) order big)))
    ]
