-- ===== src/Storage/BTree/Insertion.antt =====
-- `btree_insert` of server/storage/btree.c adds one entry and keeps the order of the tree.
use event_ticketing_platform.Base.{
  ℕ, ◌≤◌, ◌<◌, ◌≡◌, ◌≢◌, ◌∙◌, sym, refl, false, inl, inr, List, arith, ◌==◌, Bool-cases, length,
  ==_iff,
}
use event_ticketing_platform.Storage.BTree.{
  Node, leaf, internal, RecordPtr, child_index, set_child, Inserted, duplicate, same, split, adopt,
  insert_recursive, search_node,
}
use event_ticketing_platform.Storage.BTree.Order.{Ordered, lower, upper, child_index_bounds}
use event_ticketing_platform.Storage.BTree.Split.{Becomes-cong}
use event_ticketing_platform.Storage.BTree.InnerSplit.{
  Ordered-cong, search-internal, grow_internal-Becomes,
}
use event_ticketing_platform.Storage.BTree.Insert.{
  bound_to, Inserts, Becomes-Inserts, insert_leaf-Inserts,
}
use event_ticketing_platform.Storage.BTree.Adopt.{
  promoted_place, grown_keys, grown_children, grown-Ordered, search-grown_other, search-grown_here,
}

-- A child that changed in place, its bounds kept.
pub set_child-Ordered :
    (lo hi : ℕ) (keys : List ℕ) (children : ℕ → Node) (i : ℕ) (child : Node)
    → Ordered lo hi (internal keys children)
    → Ordered (lower lo keys i) (upper hi keys i) child
    → Ordered lo hi (internal keys (set_child children i child))
set_child-Ordered lo hi keys children i child o c = (
  o.0,
  λ j h. elim (Bool-cases (j == i)) [
    | inl e ↦
        let same_index : i ≡ j = sym ((==_iff j i).0 e) in
        rw e (Ordered-cong _ _ _ _ child (rw same_index) (rw same_index) c)
    | inr e ↦ rw e (o.1 j h)
  ],
)

module _ (lo hi : ℕ) (keys : List ℕ) (children : ℕ → Node)
    (o : Ordered lo hi (internal keys children)) (i : ℕ) (child : Node) where
  pub search-set_child_here :
      (j : ℕ)
      → child_index keys j ≡ i
      → search_node (internal keys (set_child children i child)) j ≡ search_node child j
  search-set_child_here j e =
      search-internal keys (set_child children i child) j i e ∙ (rw ((==_iff i i).1 refl) refl)

  pub search-set_child_other :
      (j : ℕ)
      → child_index keys j ≢ i
      → search_node (internal keys (set_child children i child)) j
        ≡ search_node (internal keys children) j
  search-set_child_other j e =
      let c = child_index keys j in
      let apart : (c == i) ≡ false = ground arith in
      search-internal keys (set_child children i child) j c refl
      ∙ (rw apart (sym (search-internal keys children j c refl)))

adopt-Inserts :
    (order lo hi : ℕ) (keys : List ℕ) (children : ℕ → Node) (key : ℕ) (value : RecordPtr)
    (r : Inserted)
    → 3 ≤ order
    → Ordered lo hi (internal keys children)
    → lo ≤ key
    → key < hi
    → Inserts
        (lower lo keys (child_index keys key))
        (upper hi keys (child_index keys key))
        key
        value
        (search_node (children (child_index keys key)))
        r
    → Inserts lo hi key value
        (search_node (internal keys children))
        (adopt order keys children (child_index keys key) r)
unfolding adopt grown_keys grown_children
adopt-Inserts order lo hi keys children key value duplicate big o from to (old, e) =
    (old, search-internal keys children key _ refl ∙ e)
adopt-Inserts order lo hi keys children key value (same child) big o from to (e, (ok, law)) = (
  search-internal keys children key _ refl ∙ e,
  (
    set_child-Ordered lo hi keys children i child o ok,
    λ j a b. elim (Bool-cases (child_index keys j == i)) [
      | inl here ↦
          let at : child_index keys j ≡ i = (==_iff _ _).0 here in
          search-set_child_here lo hi keys children o i child j at
          ∙ law j (ground (arith, child_index_bounds lo hi keys o.0 j a b))
              (ground (arith, child_index_bounds lo hi keys o.0 j a b))
          ∙ ground (arith, search-internal keys children j i at)
      | inr there ↦
          search-set_child_other lo hi keys children o i child j (ground arith) ∙ ground arith
    ],
  ),
)
  where
    i : ℕ
    i = child_index keys key
adopt-Inserts order lo hi keys children key value (split left p right) big o from to
      (e, (a, b, l, r, law)) =
    rw (promoted_place lo hi keys children o i i-le left p right a b l r) (
      Becomes-Inserts lo hi key value (search_node (internal keys children)) _
        (search-internal keys children key i refl ∙ e)
        (Becomes-cong lo hi _ _ _ answers (
          grow_internal-Becomes lo hi _ _
            (grown-Ordered lo hi keys children o i i-le left p right a b l r) order big)))
  where
    i : ℕ
    i = child_index keys key

    i-le : i ≤ length keys
    i-le = (child_index_bounds lo hi keys o.0 key from to).0

    answers :
        (j : ℕ)
        → lo ≤ j
        → j < hi
        → search_node
            (internal
              (grown_keys lo hi keys children o i i-le left p right a b l r)
              (grown_children lo hi keys children o i i-le left p right a b l r))
            j
          ≡ bound_to key value (search_node (internal keys children)) j
    answers j h k = elim (Bool-cases (child_index keys j == i)) [
      | inl here ↦
          let at : child_index keys j ≡ i = (==_iff _ _).0 here in
          search-grown_here lo hi keys children o i i-le left p right a b l r j h k at
          ∙ law j (ground (arith, child_index_bounds lo hi keys o.0 j h k))
              (ground (arith, child_index_bounds lo hi keys o.0 j h k))
          ∙ ground (arith, search-internal keys children j i at)
      | inr there ↦
          search-grown_other lo hi keys children o i i-le left p right a b l r j h k (ground arith)
          ∙ ground arith
    ]

-- An insertion under an ordered node either finds the key there, or yields a node, or two halves,
-- on which every search answers as before, but for the new key.
pub insert_recursive-Inserts :
    (order lo hi : ℕ) (node : Node) (key : ℕ) (value : RecordPtr)
    → 3 ≤ order
    → Ordered lo hi node
    → lo ≤ key
    → key < hi
    → Inserts lo hi key value (search_node node) (insert_recursive order node key value)
unfolding insert_recursive
insert_recursive-Inserts order lo hi (leaf keys values) key value big o from to =
    insert_leaf-Inserts order lo hi keys values key value big o from to
insert_recursive-Inserts order lo hi (internal keys children) key value big o from to =
    let c = child_index_bounds lo hi keys o.0 key from to in
    adopt-Inserts order lo hi keys children key value _ big o from to (
      insert_recursive-Inserts order (lower lo keys (child_index keys key))
        (upper hi keys (child_index keys key)) (children (child_index keys key)) key value big
        (o.1 (child_index keys key) c.0) c.1 c.2)
