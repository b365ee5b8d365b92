-- ===== src/Storage/BTree/Deletion.antt =====
-- `btree_delete` of server/storage/btree.c: lazy removal from the key's leaf.
use event_ticketing_platform.Base.{
  ℕ, ◌+◌, ◌-◌, ◌≤◌, ◌<◌, ◌≡◌, ◌≢◌, ◌∙◌, refl, false, inl, inr, ◌⊎◌, Option, none, some, List, arith,
  ◌==◌, Bool-cases, if◌then◌else◌, length, ==_iff,
}
use event_ticketing_platform.Types.{u32_mod}
use event_ticketing_platform.Storage.BTree.{
  Node, leaf, internal, RecordPtr, invalid_record_ptr, key_at, key_lower_bound, is_key,
  key_find_exact, find_leaf, shrunk, child_index, remove_at, delete_node, search_node, BTree,
  btree_delete, btree_search,
}
use event_ticketing_platform.Storage.BTree.Arrays.{length-remove_at, get_or-remove_at}
use event_ticketing_platform.Storage.BTree.Order.{
  IsLeaf, Ordered, lower, upper, search-leaf_hit, search-leaf_miss, key_cases, child_index_bounds,
}
use event_ticketing_platform.Storage.BTree.InnerSplit.{search-internal}
use event_ticketing_platform.Storage.BTree.Insertion.{
  set_child-Ordered, search-set_child_here, search-set_child_other,
}
use event_ticketing_platform.Storage.BTree.Laws.{IsTree}

-- What a search answers once `key` is gone.
abbrev pub without : ℕ → (ℕ → Option RecordPtr) → ℕ → Option RecordPtr
without key f j = if key == j then none else f j

abbrev Deletes : ℕ → ℕ → ℕ → (ℕ → Option RecordPtr) → Option Node → Type 0
Deletes lo hi key f none = f key ≡ none
Deletes lo hi key f (some node) =
    Ordered lo hi node × ((j : ℕ) → lo ≤ j → j < hi → search_node node j ≡ without key f j)

module _ (lo hi : ℕ) (keys : List ℕ) (values : List RecordPtr) (l : IsLeaf lo hi keys values)
    (key pos : ℕ) (inside : pos < length keys) (found : key_at keys pos ≡ key) where
  shrunk-IsLeaf : IsLeaf lo hi (remove_at keys pos) (remove_at values pos)
  shrunk-IsLeaf =
      let size = length-remove_at keys pos inside in
      let at = λ (i : ℕ). get_or-remove_at keys pos i 0 in
      record {
        sorted = λ i j h k.
            ground
              (arith, size, at i, at j, l.sorted i j, l.sorted i (j + 1), l.sorted (i + 1) (j + 1));
        above = λ i h. ground (arith, size, at i, l.above i, l.above (i + 1));
        below = λ i h. ground (arith, size, at i, l.below i, l.below (i + 1));
        matched = ground (arith, size, length-remove_at values pos, l.matched);
      }

  search-shrunk :
      (j : ℕ)
      → search_node (leaf (remove_at keys pos) (remove_at values pos)) j
        ≡ without key (search_node (leaf keys values)) j
  search-shrunk j =
      let size = length-remove_at keys pos inside in
      let at = λ (i : ℕ). get_or-remove_at keys pos i 0 in
      let put = λ (i : ℕ). get_or-remove_at values pos i invalid_record_ptr in
      let gone =
        λ (e : (i : ℕ) → i < length (remove_at keys pos) → key_at (remove_at keys pos) i ≢ j).
          search-leaf_miss (remove_at keys pos) (remove_at values pos) shrunk-IsLeaf.sorted j e in
      elim (Bool-cases (key == j)) [
        | inl e ↦
            ground (
              arith,
              gone (λ i h. ground (arith, size, at i, l.sorted i pos, l.sorted pos (i + 1))),
            )
        | inr e ↦ elim (key_cases keys values l.sorted j) [
          | inl (i, h, k) ↦ ground (
            arith,
            size,
            at i,
            at (i - 1),
            put i,
            put (i - 1),
            search-leaf_hit (remove_at keys pos) (remove_at values pos) shrunk-IsLeaf.sorted i j,
            search-leaf_hit (remove_at keys pos) (remove_at values pos) shrunk-IsLeaf.sorted (i - 1)
                j,
            search-leaf_hit keys values l.sorted i j h k,
          )
          | inr miss ↦ ground (
            arith,
            gone (λ i h. ground (arith, size, at i, miss i, miss (i + 1))),
            search-leaf_miss keys values l.sorted j miss,
          )
        ]
      ]

search-leaf_absent :
    (keys : List ℕ) (values : List RecordPtr) (key : ℕ)
    → is_key keys (key_lower_bound keys key) key ≡ false
    → search_node (leaf keys values) key ≡ none
unfolding search_node find_leaf key_find_exact
search-leaf_absent keys values key h = ground arith

delete_leaf-Deletes :
    (lo hi : ℕ) (keys : List ℕ) (values : List RecordPtr) (key : ℕ)
    → IsLeaf lo hi keys values
    → Deletes lo hi key (search_node (leaf keys values)) (delete_node (leaf keys values) key)
unfolding delete_node key_find_exact
delete_leaf-Deletes lo hi keys values key l =
    let pos = key_lower_bound keys key in
    elim (Bool-cases (is_key keys pos key)) [
      | inl h ↦
          rw (h, delete_node)
            (
              shrunk-IsLeaf lo hi keys values l key pos (ground arith) (ground arith),
              λ j a b. search-shrunk lo hi keys values l key pos (ground arith) (ground arith) j,
            )
      | inr h ↦ rw (h, delete_node) (search-leaf_absent keys values key h)
    ]

delete_node-Deletes :
    (lo hi : ℕ) (node : Node) (key : ℕ)
    → Ordered lo hi node
    → lo ≤ key
    → key < hi
    → Deletes lo hi key (search_node node) (delete_node node key)
unfolding delete_node
delete_node-Deletes lo hi (leaf keys values) key o from to =
    delete_leaf-Deletes lo hi keys values key o
delete_node-Deletes lo hi (internal keys children) key o from to =
    let c = child_index_bounds lo hi keys o.0 key from to in
    by_child (delete_node (children i) key) refl (
      delete_node-Deletes (lower lo keys (child_index keys key))
        (upper hi keys (child_index keys key)) (children (child_index keys key)) key (o.1 i c.0) c.1
        c.2)
  where
    i : ℕ
    i = child_index keys key

    by_child :
        (r : Option Node)
        → delete_node (children i) key ≡ r
        → Deletes (lower lo keys i) (upper hi keys i) key (search_node (children i)) r
        → Deletes lo hi key
            (search_node (internal keys children))
            (delete_node (internal keys children) key)
    by_child none e miss = rw (e, delete_node) (search-internal keys children key i refl ∙ miss)
    by_child (some child) e (ok, law) =
        rw (e, delete_node)
          (
            set_child-Ordered lo hi keys children i child o ok,
            λ j a b. elim (Bool-cases (child_index keys j == i)) [
              | inl here ↦
                  let at : child_index keys j ≡ i = (==_iff _ _).0 here in
                  search-set_child_here lo hi keys children o i child j at
                  ∙ law j (ground (arith, child_index_bounds lo hi keys o.0 j a b))
                      (ground (arith, child_index_bounds lo hi keys o.0 j a b))
                  ∙ ground (arith, search-internal keys children j i at)
              | inr there ↦
                  search-set_child_other lo hi keys children o i child j (ground arith)
                  ∙ ground arith
            ],
          )

pub btree_delete_lem :
    (t : BTree) (key : ℕ)
    → IsTree t
    → key < u32_mod
    → ((btree_search t key ≡ none) × (btree_delete t key ≡ none))
      ⊎ ((t' : BTree) × (btree_delete t key ≡ some t')
          × IsTree t'
          × ((j : ℕ) → j < u32_mod → btree_search t' j ≡ without key (btree_search t) j))
unfolding btree_delete btree_search
btree_delete_lem t key (big, o) small =
    by_outcome (delete_node t.root key) refl
      (delete_node-Deletes 0 u32_mod t.root key o (omega arith) small)
  where
    by_outcome :
        (r : Option Node)
        → delete_node t.root key ≡ r
        → Deletes 0 u32_mod key (search_node t.root) r
        → ((btree_search t key ≡ none) × (btree_delete t key ≡ none))
          ⊎ ((t' : BTree) × (btree_delete t key ≡ some t')
              × IsTree t'
              × ((j : ℕ) → j < u32_mod → btree_search t' j ≡ without key (btree_search t) j))
    by_outcome none e miss = inl (miss, rw (e, btree_delete) refl)
    by_outcome (some root) e (ok, law) =
        inr (shrunk t root, rw (e, btree_delete) refl, (big, ok), λ j h. law j (omega arith) h)
