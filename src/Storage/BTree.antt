-- ===== src/Storage/BTree.antt =====
-- server/storage/btree.c: the B+ tree index from record ids to record pointers. A node's key and
-- value arrays are lists of `num_keys` entries, its array of children is a function of the index
-- (what stands behind the last child is never read), and every allocation succeeds.
pub mod Search
pub mod Arrays
pub mod Order
pub mod Split
pub mod InnerSplit
pub mod Insert
pub mod Adopt
pub mod Insertion
pub mod Laws
pub mod Deletion
use event_ticketing_platform.Base.{
  ℕ, zero, suc, ◌+◌, ◌-◌, ◌/◌, ◌%◌, Bool, true, false, ◌&&◌, Option, none, some, List, [], ◌∷◌, ltb,
  leb, ◌==◌, if◌then◌else◌, length, get_or, take, drop,
}
use event_ticketing_platform.Types.{u32_mod}

pub record RecordPtr : Type 0 where
  pub page_id : ℕ
  pub slot_id : ℕ

abbrev pub invalid_record_ptr : RecordPtr
invalid_record_ptr = record { page_id = 0xFFFFFFFF; slot_id = 0xFFFF }

pub data Node : Type 0 where
  leaf : List ℕ → List RecordPtr → Node
  internal : List ℕ → (ℕ → Node) → Node

pub record BTree : Type 0 where
  pub order : ℕ
  pub root : Node
  pub size : ℕ
  pub dirty : Bool

-- `keys[i]`; what stands out of range is never read.
abbrev pub key_at : List ℕ → ℕ → ℕ
key_at keys i = get_or keys i 0

-- The loop of `key_lower_bound`; its interval halves, so `num_keys` rounds are enough.
unfoldable pub lower_bound_loop : ℕ → List ℕ → ℕ → ℕ → ℕ → ℕ
lower_bound_loop zero keys target lo hi = lo
lower_bound_loop (suc fuel) keys target lo hi = elim (ltb lo hi) [
  | true ↦ elim (ltb (key_at keys ((lo + hi) / 2)) target) [
    | true ↦ lower_bound_loop fuel keys target ((lo + hi) / 2 + 1) hi
    | false ↦ lower_bound_loop fuel keys target lo ((lo + hi) / 2)
  ]
  | false ↦ lo
]

unfoldable pub key_lower_bound : List ℕ → ℕ → ℕ
unfolding lower_bound_loop
key_lower_bound keys target = lower_bound_loop (length keys) keys target 0 (length keys)

abbrev pub is_key : List ℕ → ℕ → ℕ → Bool
is_key keys pos key = ltb pos (length keys) && key_at keys pos == key

-- The index of `key`, or none for the source's -1.
unfoldable pub key_find_exact : List ℕ → ℕ → Option ℕ
key_find_exact keys key =
    let pos = key_lower_bound keys key in if is_key keys pos key then some pos else none

-- The child to descend to.
unfoldable pub child_index : List ℕ → ℕ → ℕ
child_index keys key = let i = key_lower_bound keys key in if is_key keys i key then i + 1 else i

unfoldable pub find_leaf : Node → ℕ → List ℕ × List RecordPtr
find_leaf (leaf keys values) key = (keys, values)
find_leaf (internal keys children) key = find_leaf (children (child_index keys key)) key

-- The loop that shifts to the right, and the write at `pos`.
unfoldable pub insert_at {ℓ} : {A : Type ℓ} → List A → ℕ → A → List A
insert_at xs zero a = a ∷ xs
insert_at [] (suc i) a = a ∷ []
insert_at (x ∷ xs) (suc i) a = x ∷ insert_at xs i a

-- The loop that shifts to the left over `pos`.
unfoldable pub remove_at {ℓ} : {A : Type ℓ} → List A → ℕ → List A
remove_at [] i = []
remove_at (x ∷ xs) zero = xs
remove_at (x ∷ xs) (suc i) = x ∷ remove_at xs i

abbrev pub set_child : (ℕ → Node) → ℕ → Node → ℕ → Node
set_child children i node j = if j == i then node else children j

-- The children shifted to the right from `pos + 1`, and the write of the new one there.
abbrev pub insert_child : (ℕ → Node) → ℕ → Node → ℕ → Node
insert_child children pos node j =
    if leb j pos then children j else if j == pos + 1 then node else children (j - 1)

-- `*error` set, the node updated in place, or the node split: its left half stays, the promoted key
-- and the right half go to the parent.
pub data Inserted : Type 0 where
  duplicate : Inserted
  same : Node → Inserted
  split : Node → ℕ → Node → Inserted

unfoldable pub split_leaf : List ℕ → List RecordPtr → Inserted
split_leaf keys values =
    let mid = length keys / 2 in
    split (leaf (take mid keys) (take mid values)) (key_at (drop mid keys) 0)
      (leaf (drop mid keys) (drop mid values))

unfoldable pub split_internal : List ℕ → (ℕ → Node) → Inserted
split_internal keys children =
    let mid = length keys / 2 in
    split (internal (take mid keys) children) (key_at keys mid)
      (internal (drop (mid + 1) keys) (λ j. children (j + (mid + 1))))

unfoldable pub grow_leaf : ℕ → List ℕ → List RecordPtr → Inserted
grow_leaf order keys values =
    if leb (order - 1) (length keys) then split_leaf keys values else same (leaf keys values)

unfoldable pub grow_internal : ℕ → List ℕ → (ℕ → Node) → Inserted
grow_internal order keys children =
    if leb (order - 1) (length keys)
    then split_internal keys children
    else same (internal keys children)

unfoldable pub insert_leaf : ℕ → List ℕ → List RecordPtr → ℕ → RecordPtr → Inserted
insert_leaf order keys values key value =
    let pos = key_lower_bound keys key in
    if is_key keys pos key
    then duplicate
    else grow_leaf order (insert_at keys pos key) (insert_at values pos value)

-- What an internal node does with the result for its child `i`.
unfoldable pub adopt : ℕ → List ℕ → (ℕ → Node) → ℕ → Inserted → Inserted
adopt order keys children i duplicate = duplicate
adopt order keys children i (same child) = same (internal keys (set_child children i child))
adopt order keys children i (split left promoted right) =
    let pos = key_lower_bound keys promoted in
    grow_internal order (insert_at keys pos promoted)
      (insert_child (set_child children i left) pos right)

unfoldable pub insert_recursive : ℕ → Node → ℕ → RecordPtr → Inserted
insert_recursive order (leaf keys values) key value = insert_leaf order keys values key value
insert_recursive order (internal keys children) key value =
    adopt order keys children (child_index keys key)
      (insert_recursive order (children (child_index keys key)) key value)

-- The new root over the two halves.
abbrev pub root_over : Node → ℕ → Node → Node
root_over left promoted right = internal (promoted ∷ []) (λ j. if j == 0 then left else right)

pub btree_create : ℕ → Option BTree
btree_create order =
    if ltb order 3
    then none
    else some (record { order = order; root = leaf [] []; size = 0; dirty = true })

abbrev pub grown : BTree → Node → BTree
grown t root = record t { root = root; size = (t.size + 1) % u32_mod; dirty = true }

-- None is the return value -1.
unfoldable pub btree_insert : BTree → ℕ → RecordPtr → Option BTree
btree_insert t key value = elim (insert_recursive t.order t.root key value) [
  | duplicate ↦ none
  | same root ↦ some (grown t root)
  | split left promoted right ↦ some (grown t (root_over left promoted right))
]

unfoldable pub search_node : Node → ℕ → Option RecordPtr
search_node node key =
    let (keys, values) = find_leaf node key in
    elim (key_find_exact keys key) [
      | none ↦ none
      | some pos ↦ some (get_or values pos invalid_record_ptr)
    ]

unfoldable pub btree_search : BTree → ℕ → Option RecordPtr
btree_search t key = search_node t.root key

-- The leaf of `key` with the entry at `pos` removed; none if the key is not there.
unfoldable pub delete_node : Node → ℕ → Option Node
delete_node (leaf keys values) key = elim (key_find_exact keys key) [
  | none ↦ none
  | some pos ↦ some (leaf (remove_at keys pos) (remove_at values pos))
]
delete_node (internal keys children) key =
    elim (delete_node (children (child_index keys key)) key) [
      | none ↦ none
      | some child ↦ some (internal keys (set_child children (child_index keys key) child))
    ]

abbrev pub shrunk : BTree → Node → BTree
shrunk t root = record t { root = root; size = (t.size + u32_mod - 1) % u32_mod; dirty = true }

pub btree_delete : BTree → ℕ → Option BTree
btree_delete t key = elim (delete_node t.root key) [
  | none ↦ none
  | some root ↦ some (shrunk t root)
]
