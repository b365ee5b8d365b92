-- ===== src/Storage/BTree/Split.antt =====
-- Splitting of a full node in server/storage/btree.c: nothing is lost between the two halves.
use event_ticketing_platform.Base.{
  ℕ, ◌+◌, ◌-◌, ◌/◌, ◌≤◌, ◌<◌, ◌≡◌, ◌∙◌, refl, inl, inr, Option, List, arith, ltb, leb, Bool-cases,
  if◌then◌else◌, length, take, drop, length-take, length-drop,
}
use event_ticketing_platform.Storage.BTree.{
  leaf, RecordPtr, invalid_record_ptr, key_at, Inserted, duplicate, same, split, split_leaf,
  grow_leaf, search_node,
}
use event_ticketing_platform.Storage.BTree.Arrays.{get_or-take, get_or-drop}
use event_ticketing_platform.Storage.BTree.Order.{
  IsLeaf, Ordered, search-leaf_hit, search-leaf_miss, key_cases,
}

-- The outcome of an insertion is ordered within [lo, hi), and a search in it answers as `f` does.
abbrev pub Becomes : ℕ → ℕ → (ℕ → Option RecordPtr) → Inserted → Type 0
Becomes lo hi f duplicate = ⊥
Becomes lo hi f (same node) =
    Ordered lo hi node × ((j : ℕ) → lo ≤ j → j < hi → search_node node j ≡ f j)
Becomes lo hi f (split left promoted right) =
    (lo < promoted)
    × (promoted < hi)
    × Ordered lo promoted left
    × Ordered promoted hi right
    × ((j : ℕ)
        → lo ≤ j
        → j < hi
        → (if ltb j promoted then search_node left j else search_node right j) ≡ f j)

pub Becomes-cong :
    (lo hi : ℕ) (f g : ℕ → Option RecordPtr) (r : Inserted)
    → ((j : ℕ) → lo ≤ j → j < hi → f j ≡ g j)
    → Becomes lo hi f r
    → Becomes lo hi g r
Becomes-cong lo hi f g duplicate e b = b
Becomes-cong lo hi f g (same node) e (o, s) = (o, λ j h k. s j h k ∙ e j h k)
Becomes-cong lo hi f g (split left promoted right) e (a, b, l, r, s) =
    (a, b, l, r, λ j h k. s j h k ∙ e j h k)

module _ (lo hi : ℕ) (keys : List ℕ) (values : List RecordPtr) (l : IsLeaf lo hi keys values) where
  module _ (mid : ℕ) (inside : mid < length keys) where
    left-IsLeaf : IsLeaf lo (key_at keys mid) (take mid keys) (take mid values)
    left-IsLeaf = record {
      sorted = λ i j h k. ground (
        arith,
        get_or-take mid keys i 0,
        get_or-take mid keys j 0,
        l.sorted i j,
        length-take mid keys,
      );
      above = λ i h. ground (arith, get_or-take mid keys i 0, l.above i, length-take mid keys);
      below = λ i h. ground (arith, get_or-take mid keys i 0, l.sorted i mid, length-take mid keys);
      matched = omega (arith, length-take mid keys, length-take mid values, l.matched);
    }

    right-IsLeaf : IsLeaf (key_at keys mid) hi (drop mid keys) (drop mid values)
    right-IsLeaf = record {
      sorted = λ i j h k. ground (
        arith,
        get_or-drop mid keys i 0,
        get_or-drop mid keys j 0,
        l.sorted (i + mid) (j + mid),
        length-drop mid keys,
      );
      above = λ i h.
          ground (arith, get_or-drop mid keys i 0, l.sorted mid (i + mid), length-drop mid keys);
      below =
          λ i h. ground (arith, get_or-drop mid keys i 0, l.below (i + mid), length-drop mid keys);
      matched = omega (arith, length-drop mid keys, length-drop mid values, l.matched);
    }

    search-halves :
        (j : ℕ)
        → (if ltb j (key_at keys mid)
            then search_node (leaf (take mid keys) (take mid values)) j
            else search_node (leaf (drop mid keys) (drop mid values)) j)
          ≡ search_node (leaf keys values) j
    search-halves j = elim (key_cases keys values l.sorted j) [
      | inl (i, h, e) ↦ ground (
        arith,
        l.sorted i mid,
        l.sorted mid i,
        search-leaf_hit keys values l.sorted i j h e,
        search-leaf_hit (take mid keys) (take mid values) left-IsLeaf.sorted i j,
        search-leaf_hit (drop mid keys) (drop mid values) right-IsLeaf.sorted (i - mid) j,
        get_or-take mid keys i 0,
        get_or-take mid values i invalid_record_ptr,
        get_or-drop mid keys (i - mid) 0,
        get_or-drop mid values (i - mid) invalid_record_ptr,
        length-take mid keys,
        length-drop mid keys,
      )
      | inr none ↦
          let in_left =
            search-leaf_miss (take mid keys) (take mid values) left-IsLeaf.sorted j
              (λ i h. ground (arith, none i, get_or-take mid keys i 0, length-take mid keys)) in
          let in_right =
            search-leaf_miss (drop mid keys) (drop mid values) right-IsLeaf.sorted j (λ i h.
              ground (arith, none (i + mid), get_or-drop mid keys i 0, length-drop mid keys)) in
          ground (arith, in_left, in_right, search-leaf_miss keys values l.sorted j none)
    ]

  pub grow_leaf-Becomes :
      (order : ℕ)
      → 3 ≤ order
      → Becomes lo hi (search_node (leaf keys values)) (grow_leaf order keys values)
  unfolding grow_leaf split_leaf
  grow_leaf-Becomes order big = elim (Bool-cases (leb (order - 1) (length keys))) [
    | inr few ↦ rw (few, grow_leaf) (l, λ j h k. refl)
    | inl full ↦
        let mid = length keys / 2 in
        let inside : mid < length keys = ground arith in
        let first : key_at (drop mid keys) 0 ≡ key_at keys mid =
          ground (arith, get_or-drop mid keys 0 0) in
        rw (full, grow_leaf)
          (rw first (
            ground (arith, l.above 0, l.sorted 0 mid),
            l.below mid inside,
            left-IsLeaf mid inside,
            right-IsLeaf mid inside,
            λ j h k. search-halves mid inside j,
          ))
  ]
