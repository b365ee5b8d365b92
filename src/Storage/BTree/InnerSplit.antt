-- ===== src/Storage/BTree/InnerSplit.antt =====
-- Splitting of a full internal node in server/storage/btree.c.
use event_ticketing_platform.Base.{
  ℕ, ◌+◌, ◌-◌, ◌/◌, ◌≤◌, ◌<◌, ◌≡◌, ◌∙◌, sym, refl, ap, inl, inr, List, arith, ltb, leb, Bool-cases,
  length, take, drop, length-take, length-drop,
}
use event_ticketing_platform.Storage.BTree.{
  Node, internal, key_at, child_index, split_internal, grow_internal, find_leaf, search_node,
}
use event_ticketing_platform.Storage.BTree.Arrays.{get_or-take, get_or-drop}
use event_ticketing_platform.Storage.BTree.Order.{
  Separates, Ordered, lower, upper, child_index_bounds, child_index_unique,
}
use event_ticketing_platform.Storage.BTree.Split.{Becomes}

-- A node is ordered within equal bounds.
pub Ordered-cong :
    (a b a' b' : ℕ) (node : Node) → a ≡ a' → b ≡ b' → Ordered a b node → Ordered a' b' node
Ordered-cong a b a' b' node e f o = rw (← e, ← f) o

-- A search in an internal node is a search in one child.
pub search-internal :
    (keys : List ℕ) (children : ℕ → Node) (j i : ℕ)
    → child_index keys j ≡ i
    → search_node (internal keys children) j ≡ search_node (children i) j
unfolding search_node find_leaf
search-internal keys children j i e = ap (λ (c : ℕ). search_node (children c) j) e

module _ (lo hi : ℕ) (keys : List ℕ) (children : ℕ → Node)
    (o : Ordered lo hi (internal keys children)) where
  module _ (mid : ℕ) (inside : mid < length keys) where
    left-Separates : Separates lo (key_at keys mid) (take mid keys)
    left-Separates = record {
      sorted = λ i j h k. ground (
        arith,
        get_or-take mid keys i 0,
        get_or-take mid keys j 0,
        o.0.sorted i j,
        length-take mid keys,
      );
      above = λ i h. ground (arith, get_or-take mid keys i 0, o.0.above i, length-take mid keys);
      below =
          λ i h. ground (arith, get_or-take mid keys i 0, o.0.sorted i mid, length-take mid keys);
    }

    right-Separates : Separates (key_at keys mid) hi (drop (mid + 1) keys)
    right-Separates = record {
      sorted = λ i j h k. ground (
        arith,
        get_or-drop (mid + 1) keys i 0,
        get_or-drop (mid + 1) keys j 0,
        o.0.sorted (i + (mid + 1)) (j + (mid + 1)),
        length-drop (mid + 1) keys,
      );
      above = λ i h. ground (
        arith,
        get_or-drop (mid + 1) keys i 0,
        o.0.sorted mid (i + (mid + 1)),
        length-drop (mid + 1) keys,
      );
      below = λ i h. ground (
        arith,
        get_or-drop (mid + 1) keys i 0,
        o.0.below (i + (mid + 1)),
        length-drop (mid + 1) keys,
      );
    }

    left-Ordered : Ordered lo (key_at keys mid) (internal (take mid keys) children)
    left-Ordered = (
      left-Separates,
      λ i h.
          Ordered-cong _ _ _ _ (children i)
            (ground (arith, get_or-take mid keys (i - 1) 0, length-take mid keys))
            (ground (arith, get_or-take mid keys i 0, length-take mid keys))
            (o.1 i (ground (arith, length-take mid keys))),
    )

    right-Ordered :
        Ordered
          (key_at keys mid)
          hi
          (internal (drop (mid + 1) keys) (λ j. children (j + (mid + 1))))
    right-Ordered = (
      right-Separates,
      λ i h.
          Ordered-cong _ _ _ _ (children (i + (mid + 1)))
            (ground (arith, get_or-drop (mid + 1) keys (i - 1) 0, length-drop (mid + 1) keys))
            (ground (arith, get_or-drop (mid + 1) keys i 0, length-drop (mid + 1) keys))
            (o.1 (i + (mid + 1)) (ground (arith, length-drop (mid + 1) keys))),
    )

    module _ (j : ℕ) (from : lo ≤ j) (to : j < hi) where
      search-left :
          j < key_at keys mid
          → search_node (internal (take mid keys) children) j
            ≡ search_node (internal keys children) j
      search-left h =
          let c = child_index keys j in
          search-internal (take mid keys) children j c (
            child_index_unique lo (key_at keys mid) (take mid keys) left-Separates j c from h
              (ground (arith, bounds, o.0.sorted mid (c - 1), length-take mid keys))
              (ground (arith, bounds, o.0.sorted mid (c - 1), get_or-take mid keys (c - 1) 0))
              (ground (arith, bounds, get_or-take mid keys c 0, length-take mid keys)))
          ∙ sym (search-internal keys children j c refl)
        where
          bounds :
              (child_index keys j ≤ length keys)
              × (lower lo keys (child_index keys j) ≤ j)
              × (j < upper hi keys (child_index keys j))
          bounds = child_index_bounds lo hi keys o.0 j from to

      search-right :
          key_at keys mid ≤ j
          → search_node (internal (drop (mid + 1) keys) (λ i. children (i + (mid + 1)))) j
            ≡ search_node (internal keys children) j
      search-right h =
          let c = child_index keys j in
          let beyond : mid < c = ground (arith, bounds, o.0.sorted c mid) in
          let i = c - (mid + 1) in
          search-internal (drop (mid + 1) keys) (λ i. children (i + (mid + 1))) j i
            (child_index_unique (key_at keys mid) hi (drop (mid + 1) keys) right-Separates j i h to
              (ground (arith, bounds, length-drop (mid + 1) keys))
              (ground (arith, bounds, get_or-drop (mid + 1) keys (i - 1) 0))
              (ground (arith, bounds, get_or-drop (mid + 1) keys i 0, length-drop (mid + 1) keys)))
          ∙ sym (search-internal keys children j (i + (mid + 1)) (omega arith))
        where
          bounds :
              (child_index keys j ≤ length keys)
              × (lower lo keys (child_index keys j) ≤ j)
              × (j < upper hi keys (child_index keys j))
          bounds = child_index_bounds lo hi keys o.0 j from to

  pub grow_internal-Becomes :
      (order : ℕ)
      → 3 ≤ order
      → Becomes lo hi (search_node (internal keys children)) (grow_internal order keys children)
  unfolding grow_internal split_internal
  grow_internal-Becomes order big = elim (Bool-cases (leb (order - 1) (length keys))) [
    | inr few ↦ rw (few, grow_internal) (o, λ j h k. refl)
    | inl full ↦
        let mid = length keys / 2 in
        let inside : mid < length keys = ground arith in
        rw (full, grow_internal)
          (
            o.0.above mid inside,
            o.0.below mid inside,
            left-Ordered mid inside,
            right-Ordered mid inside,
            λ j h k. elim (Bool-cases (ltb j (key_at keys mid))) [
              | inl below ↦ rw below (search-left mid inside j h k (ground arith))
              | inr above ↦ rw above (search-right mid inside j h k (ground arith))
            ],
          )
  ]
