-- ===== src/Storage/BTree/Adopt.antt =====
-- The way back up of an insertion in server/storage/btree.c, and the insertion as a whole.
use event_ticketing_platform.Base.{
  ℕ, suc, ◌+◌, ◌-◌, ◌≤◌, ◌<◌, ◌≡◌, ◌≢◌, ◌∙◌, sym, refl, ap, inl, inr, List, arith, ltb, ltb→lt,
  ◌==◌, Bool-cases, if◌then◌else◌, length,
}
use event_ticketing_platform.Storage.BTree.{
  Node, internal, key_at, key_lower_bound, child_index, set_child, insert_child, insert_at,
  search_node,
}
use event_ticketing_platform.Storage.BTree.Search.{IsLowerBound, key_lower_bound-IsLowerBound}
use event_ticketing_platform.Storage.BTree.Arrays.{length-insert_at, get_or-insert_at}
use event_ticketing_platform.Storage.BTree.Order.{
  Separates, Ordered, lower, upper, child_index_bounds, child_index_unique,
}
use event_ticketing_platform.Storage.BTree.InnerSplit.{Ordered-cong, search-internal}

-- A child that split is taken in: the promoted key becomes a separator.
module _ (lo hi : ℕ) (keys : List ℕ) (children : ℕ → Node)
    (o : Ordered lo hi (internal keys children)) (i : ℕ) (i-le : i ≤ length keys) (left : Node)
    (promoted : ℕ) (right : Node) (lower-lt : lower lo keys i < promoted)
    (lt-upper : promoted < upper hi keys i) (left-ok : Ordered (lower lo keys i) promoted left)
    (right-ok : Ordered promoted (upper hi keys i) right) where
  unfoldable pub grown_keys : List ℕ
  grown_keys = insert_at keys i promoted

  unfoldable pub grown_children : ℕ → Node
  grown_children = insert_child (set_child children i left) i right

  pub promoted_place : key_lower_bound keys promoted ≡ i
  promoted_place =
      let pos = key_lower_bound keys promoted in
      let lb : IsLowerBound keys promoted pos =
        key_lower_bound-IsLowerBound keys promoted o.0.sorted in
      ground (arith, lb.in_range, lb.below i, lb.above (i - 1))

  grown-Separates : Separates lo hi grown_keys
  unfolding grown_keys
  grown-Separates =
      let size = length-insert_at keys i promoted in
      let at = λ (j : ℕ). get_or-insert_at keys i promoted j 0 i-le in
      record {
        sorted = λ j k h m. ground (
          arith,
          size,
          at j,
          at k,
          o.0.sorted j k,
          o.0.sorted j (k - 1),
          o.0.sorted (j - 1) (k - 1),
          o.0.sorted j (i - 1),
          o.0.sorted i (k - 1),
        );
        above =
            λ j h. ground (arith, size, at j, o.0.above j, o.0.above (j - 1), o.0.above (i - 1));
        below = λ j h. ground (arith, size, at j, o.0.below j, o.0.below (j - 1), o.0.below i);
      }

  pub grown-Ordered : Ordered lo hi (internal grown_keys grown_children)
  unfolding grown_keys grown_children
  grown-Ordered = (grown-Separates, λ j h. child j h)
    where
      size : length (insert_at keys i promoted) ≡ suc (length keys)
      size = length-insert_at keys i promoted

      at :
          (j : ℕ)
          → key_at (insert_at keys i promoted) j
            ≡ (if ltb j i then key_at keys j else if j == i then promoted else key_at keys (j - 1))
      at j = get_or-insert_at keys i promoted j 0 i-le

      child :
          (j : ℕ)
          → j ≤ length (insert_at keys i promoted)
          → Ordered
              (lower lo (insert_at keys i promoted) j)
              (upper hi (insert_at keys i promoted) j)
              (insert_child (set_child children i left) i right j)
      child j h = elim (Bool-cases (ltb j i)) [
        | inl a ↦
            let e : insert_child (set_child children i left) i right j ≡ children j =
              ground arith in
            rw e (
              Ordered-cong _ _ _ _ (children j) (ground (arith, size, at (j - 1)))
                (ground (arith, size, at j)) (o.1 j (omega (arith, ltb→lt j i a))))
        | inr a ↦ elim (Bool-cases (j == i)) [
          | inl b ↦
              let e : insert_child (set_child children i left) i right j ≡ left = ground arith in
              rw e (
                Ordered-cong _ _ _ _ left (ground (arith, size, at (j - 1)))
                  (ground (arith, size, at j)) left-ok)
          | inr b ↦ elim (Bool-cases (j == i + 1)) [
            | inl c ↦
                let e : insert_child (set_child children i left) i right j ≡ right = ground arith in
                rw e (
                  Ordered-cong _ _ _ _ right (ground (arith, size, at (j - 1)))
                    (ground (arith, size, at j)) right-ok)
            | inr c ↦
                let e : insert_child (set_child children i left) i right j ≡ children (j - 1) =
                  ground arith in
                rw e (
                  Ordered-cong _ _ _ _ (children (j - 1)) (ground (arith, size, at (j - 1)))
                    (ground (arith, size, at j)) (o.1 (j - 1) (ground (arith, size))))
          ]
        ]
      ]

  module _ (j : ℕ) (from : lo ≤ j) (to : j < hi) where
    bounds :
        (child_index keys j ≤ length keys)
        × (lower lo keys (child_index keys j) ≤ j)
        × (j < upper hi keys (child_index keys j))
    bounds = child_index_bounds lo hi keys o.0 j from to

    -- The child of the grown node that a search for `j` descends to.
    grown_index :
        (c : ℕ) (child : Node)
        → c ≤ length grown_keys
        → lower lo grown_keys c ≤ j
        → j < upper hi grown_keys c
        → grown_children c ≡ child
        → search_node (internal grown_keys grown_children) j ≡ search_node child j
    grown_index c child a b d e =
        search-internal grown_keys grown_children j c
          (child_index_unique lo hi grown_keys grown-Separates j c from to a b d)
        ∙ ap (λ n. search_node n j) e

    pub search-grown_other :
        child_index keys j ≢ i
        → search_node (internal grown_keys grown_children) j
          ≡ search_node (internal keys children) j
    unfolding grown_keys grown_children
    search-grown_other other =
        let c = child_index keys j in
        let size = length-insert_at keys i promoted in
        let at = λ (k : ℕ). get_or-insert_at keys i promoted k 0 i-le in
        elim (Bool-cases (ltb c i)) [
          | inl a ↦
              grown_index c (children c) (ground (arith, size, bounds))
                (ground (arith, size, bounds, at (c - 1))) (ground (arith, size, bounds, at c))
                (ground arith)
              ∙ sym (search-internal keys children j c refl)
          | inr a ↦
              grown_index (c + 1) (children c) (ground (arith, size, bounds))
                (ground (arith, size, bounds, at c)) (ground (arith, size, bounds, at (c + 1)))
                (ground arith)
              ∙ sym (search-internal keys children j c refl)
        ]

    pub search-grown_here :
        child_index keys j ≡ i
        → search_node (internal grown_keys grown_children) j
          ≡ (if ltb j promoted then search_node left j else search_node right j)
    unfolding grown_keys grown_children
    search-grown_here here =
        let size = length-insert_at keys i promoted in
        let at = λ (k : ℕ). get_or-insert_at keys i promoted k 0 i-le in
        elim (Bool-cases (ltb j promoted)) [
          | inl a ↦ rw a (
              grown_index i left (ground (arith, size)) (ground (arith, size, bounds, at (i - 1)))
                (ground (arith, size, bounds, at i)) (ground arith))
          | inr a ↦ rw a (
              grown_index (i + 1) right (ground (arith, size)) (ground (arith, size, bounds, at i))
                (ground (arith, size, bounds, at (i + 1))) (ground arith))
        ]
