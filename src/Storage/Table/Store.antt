-- ===== src/Storage/Table/Store.antt =====
-- How a table's view changes when one slot of server/storage/table.c is written or a page is added.
use event_ticketing_platform.Base.{
  ℕ, zero, suc, ◌<◌, ◌≡◌, ◌≢◌, refl, ap, true, inl, inr, Bool-cases, Option, none, some, List, [],
  ◌∷◌, ◌++◌, arith, ◌==◌, if◌then◌else◌, length, length-set, get_or, set,
}
use event_ticketing_platform.Types.{record_size, u32_mod}
use event_ticketing_platform.Storage.BTree.{RecordPtr, btree_search}
use event_ticketing_platform.Storage.Page.{Page, page_get_record}
use event_ticketing_platform.Storage.Page.Laws.{IsPage, Holds}
use event_ticketing_platform.Storage.Table.{Layout, Table, page_at}
use event_ticketing_platform.Storage.Table.Laws.{record_at, alive, at_pointer, view, IsTable}

pub get_or-set :
    {A : Type 0} (xs : List A) (i : ℕ) (a : A) (j : ℕ) (d : A)
    → i < length xs
    → get_or (set xs i a) j d ≡ (if j == i then a else get_or xs j d)
get_or-set [] i a j d h = absurd (omega arith)
get_or-set (x ∷ xs) zero a zero d h = refl
get_or-set (x ∷ xs) zero a (suc j) d h = ground arith
get_or-set (x ∷ xs) (suc i) a zero d h = ground arith
get_or-set (x ∷ xs) (suc i) a (suc j) d h = ground (arith, get_or-set xs i a j d)

pub get_or-append :
    {A : Type 0} (xs ys : List A) (j : ℕ) (d : A)
    → j < length xs
    → get_or (xs ++ ys) j d ≡ get_or xs j d
get_or-append [] ys j d h = absurd (omega arith)
get_or-append (x ∷ xs) ys zero d h = refl
get_or-append (x ∷ xs) ys (suc j) d h = get_or-append xs ys j d (omega arith)

pub get_or-append_last :
    {A : Type 0} (xs : List A) (x d : A) → get_or (xs ++ x ∷ []) (length xs) d ≡ x
get_or-append_last [] x d = refl
get_or-append_last (y ∷ xs) x d = get_or-append_last xs x d

module _ {R : Type 0} (L : Layout R) (t : Table R) (v : IsTable L t) where
  module _ (p i : ℕ) (r : R) (page' : Page R) (inside : p < length t.pages)
      (h : Holds (record_size t.id) (page_at t.pages p) i r page') where
    unfoldable pub written : Table R
    written = record t { pages = set t.pages p page' }

    pub record_at-written :
        (ptr : RecordPtr)
        → record_at written ptr ≡ (
            if ptr.page_id == p
            then (if ptr.slot_id == i then some r else record_at t ptr)
            else record_at t ptr)
    unfolding written
    record_at-written ptr = elim (Bool-cases (ptr.page_id == p)) [
      | inl e ↦
          rw (get_or-set t.pages p page' ptr.page_id _ inside, e)
            (rw (h.1 ptr.slot_id) (
              ap
                (λ (q : ℕ).
                  if ptr.slot_id == i
                  then some r
                  else page_get_record (page_at t.pages q) ptr.slot_id)
                (ground arith)))
      | inr e ↦ rw (get_or-set t.pages p page' ptr.page_id _ inside, e) refl
    ]

    pub paged-written :
        (q : ℕ) → q < length written.pages → IsPage (record_size t.id) (page_at written.pages q)
    unfolding written
    paged-written q k = elim (Bool-cases (q == p)) [
      | inl e ↦ rw (get_or-set t.pages p page' q _ inside, e) (h.0)
      | inr e ↦
          rw (get_or-set t.pages p page' q _ inside, e)
            (v.paged q (omega (arith, length-set t.pages p page')))
    ]

    -- A record that replaces one of the same id.
    module _ (id : ℕ) (small : id < u32_mod) (at : RecordPtr)
        (lead : btree_search t.index id ≡ some at) (p-eq : at.page_id ≡ p) (i-eq : at.slot_id ≡ i)
        (keyed : L.key r ≡ id) where
      -- Another id leads elsewhere.
      apart :
          (j : ℕ) (ptr : RecordPtr)
          → j < u32_mod
          → btree_search t.index j ≡ some ptr
          → j ≢ id
          → (ptr.page_id == p) ≡ true
          → (ptr.slot_id == i) ≡ true
          → ⊥
      apart j ptr k e other a b =
          let mine = v.linked id at small lead in
          let theirs = v.linked j ptr k e in
          let same : ptr ≡ at = ground arith in ground (arith, mine, theirs, same)

      pub written-IsTable : IsTable L written
      unfolding written
      written-IsTable = record {
        tree = v.tree;
        paged = paged-written;
        linked = λ j ptr k e. elim (Bool-cases (j == id)) [
          | inl same ↦ (
            r,
            ground (arith, length-set t.pages p page'),
            ground (arith, record_at-written ptr),
            ground arith,
          )
          | inr other ↦
              let old = v.linked j ptr k e in
              (
                old.0,
                omega (arith, old.1, length-set t.pages p page'),
                ground (arith, old.2, record_at-written ptr, apart j ptr k e),
                old.3,
              )
        ];
        unused = v.unused;
        next_small = v.next_small;
      }

      pub view-written :
          (j : ℕ)
          → j < u32_mod
          → view L written j ≡ (if j == id then alive L (some r) else view L t j)
      unfolding written
      view-written j k = by_pointer (btree_search t.index j) refl
        where
          by_pointer :
              (o : Option RecordPtr)
              → btree_search t.index j ≡ o
              → at_pointer L written o ≡ (if j == id then alive L (some r) else at_pointer L t o)
          by_pointer none e = ground arith
          by_pointer (some ptr) e = elim (Bool-cases (j == id)) [
            | inl same ↦ rw same (rw (record_at-written ptr) (ground arith))
            | inr other ↦ rw other (rw (record_at-written ptr) (ground (arith, apart j ptr k e)))
          ]
