-- ===== src/Storage/Table/Insert.antt =====
-- `table_insert` of server/storage/table.c against the table's view.
use event_ticketing_platform.Base.{
  ℕ, ◌<◌, ◌≡◌, refl, ◌∙◌, true, inl, inr, ◌⊎◌, Bool-cases, Option, none, some, [], ◌∷◌, ◌++◌, arith,
  ltb, ◌==◌, if◌then◌else◌, length, length-append, length-set, set,
}
use event_ticketing_platform.Types.{record_size, u32_mod, EtpError, Result, ok, err}
use event_ticketing_platform.Storage.BTree.{BTree, RecordPtr, btree_search}
use event_ticketing_platform.Storage.BTree.Insert.{bound_to}
use event_ticketing_platform.Storage.BTree.Laws.{IsTree}
use event_ticketing_platform.Storage.Page.{Page, page_init_header, page_get_record}
use event_ticketing_platform.Storage.Page.Laws.{Holds, page_init_header-IsPage}
use event_ticketing_platform.Storage.Wal.{Env}
use event_ticketing_platform.Storage.Table.{Layout, Table, page_at}
use event_ticketing_platform.Storage.Table.Laws.{record_at, alive, at_pointer, view, IsTable}
use event_ticketing_platform.Storage.Table.Store.{
  written, paged-written, record_at-written, get_or-append, get_or-append_last,
}

module _ {R : Type 0} (L : Layout R) where
  -- A new, empty page at the end of the file.
  abbrev pub extended : Table R → Table R
  extended t = record t {
    pages = t.pages ++ page_init_header (length t.pages) (record_size t.id) ∷ [];
  }

  record_at-extended :
      (t : Table R) (ptr : RecordPtr)
      → ptr.page_id < length t.pages
      → record_at (extended t) ptr ≡ record_at t ptr
  record_at-extended t ptr h = rw (get_or-append t.pages _ ptr.page_id _ h) refl

  pub extended-IsTable : (t : Table R) → IsTable L t → IsTable L (extended t)
  extended-IsTable t v = record {
    tree = v.tree;
    paged = λ p h. elim (Bool-cases (ltb p (length t.pages))) [
      | inl old ↦ rw (get_or-append t.pages _ p _ (ground arith)) (v.paged p (ground arith))
      | inr new ↦
          let last : p ≡ length t.pages = ground (
            arith,
            length-append t.pages (page_init_header (length t.pages) (record_size t.id) ∷ []),
          ) in
          rw (last, get_or-append_last) (page_init_header-IsPage _ _)
    ];
    linked = λ j ptr k e.
        let (r, inside, at, same) = v.linked j ptr k e in
        (
          r,
          ground (
            arith,
            length-append t.pages (page_init_header (length t.pages) (record_size t.id) ∷ []),
          ),
          record_at-extended t ptr inside ∙ at,
          same,
        );
    unused = v.unused;
    next_small = v.next_small;
  }

  pub view-extended :
      (t : Table R) → IsTable L t → (j : ℕ) → j < u32_mod → view L (extended t) j ≡ view L t j
  view-extended t v j k = by_pointer (btree_search t.index j) refl
    where
      by_pointer :
          (o : Option RecordPtr)
          → btree_search t.index j ≡ o
          → at_pointer L (extended t) o ≡ at_pointer L t o
      by_pointer none e = refl
      by_pointer (some ptr) e = rw (record_at-extended t ptr (v.linked j ptr k e).1) refl

  -- What the later steps of an insertion may come to.
  abbrev pub Added : Table R → ℕ → R → Result ℕ × Table R × Env → Type 0
  Added t id r (out, t', env') =
      ((out ≡ ok id)
        × IsTable L t'
        × (t'.next_id ≡ t.next_id)
        × ((j : ℕ)
            → j < u32_mod
            → view L t' j ≡ (if j == id then alive L (some r) else view L t j)))
      ⊎ (((e : EtpError) × (out ≡ err e)) × (t' ≡ t))

  module _ (t : Table R) (v : IsTable L t) (id : ℕ) (r : R) (small : id < u32_mod)
      (past : id < t.next_id) (fresh : btree_search t.index id ≡ none) (keyed : L.key r ≡ id)
      (p : ℕ) (inside : p < length t.pages) (page' : Page R) (index' : BTree)
      (few : (page_at t.pages p).record_count < 65536)
      (h : Holds (record_size t.id) (page_at t.pages p) (page_at t.pages p).record_count r page')
      (tree : IsTree index')
      (answers : (j : ℕ)
        → j < u32_mod
        → btree_search index' j
          ≡ bound_to id
              (record { page_id = p; slot_id = (page_at t.pages p).record_count })
              (btree_search t.index)
              j) where
    abbrev pub listed : Table R
    listed = record t { pages = set t.pages p page'; index = index' }

    at_new : RecordPtr
    at_new = record { page_id = p; slot_id = (page_at t.pages p).record_count }

    -- The new slot was not in use.
    vacant :
        (ptr : RecordPtr)
        → (ptr.page_id == p) ≡ true
        → (ptr.slot_id == (page_at t.pages p).record_count) ≡ true
        → record_at t ptr ≡ none
    unfolding page_get_record
    vacant ptr a b = let e : ptr.page_id ≡ p = ground arith in rw e (ground arith)

    record_at-listed :
        (ptr : RecordPtr)
        → record_at listed ptr ≡ (
            if ptr.page_id == p
            then (if ptr.slot_id == (page_at t.pages p).record_count
                then some r
                else record_at t ptr)
            else record_at t ptr)
    unfolding written
    record_at-listed ptr = record_at-written L t v p _ r page' inside h ptr

    pub listed-IsTable : IsTable L listed
    unfolding written
    listed-IsTable = record {
      tree = tree;
      paged = paged-written L t v p _ r page' inside h;
      linked = λ j ptr k e. elim (Bool-cases (id == j)) [
        | inl same ↦ (
          r,
          ground (arith, answers j k, length-set t.pages p page'),
          ground (arith, answers j k, record_at-listed ptr),
          ground arith,
        )
        | inr other ↦
            let (old, within, at, is) = v.linked j ptr k (ground (arith, answers j k)) in
            (
              old,
              omega (arith, within, length-set t.pages p page'),
              ground (arith, at, record_at-listed ptr, vacant ptr),
              is,
            )
      ];
      unused = λ j n k. ground (arith, answers j k, v.unused j n k);
      next_small = v.next_small;
    }

    pub view-listed :
        (j : ℕ) → j < u32_mod → view L listed j ≡ (if j == id then alive L (some r) else view L t j)
    view-listed j k = by_pointer (btree_search t.index j) (btree_search index' j) refl refl
      where
        by_pointer :
            (o o' : Option RecordPtr)
            → btree_search t.index j ≡ o
            → btree_search index' j ≡ o'
            → at_pointer L listed o' ≡ (if j == id then alive L (some r) else at_pointer L t o)
        by_pointer o none e e' = ground (arith, answers j k)
        by_pointer none (some ptr) e e' = ground (arith, answers j k, record_at-listed ptr)
        by_pointer (some old) (some ptr) e e' =
            ground (arith, answers j k, record_at-listed ptr, v.linked j old k e, vacant old)
