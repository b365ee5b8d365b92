-- ===== src/Storage/Table/Deletion.antt =====
-- `table_delete` of server/storage/table.c against the table's view.
use event_ticketing_platform.Base.{
  ℕ, ◌<◌, ◌≡◌, refl, ◌∙◌, ap, inl, inr, ◌⊎◌, Bool-cases, Option, none, some, arith, ◌==◌,
  if◌then◌else◌, length, set,
}
use event_ticketing_platform.Types.{record_size, u32_mod, not_found, io, Result, ok, err}
use event_ticketing_platform.Storage.BTree.{BTree, RecordPtr, btree_search, btree_delete}
use event_ticketing_platform.Storage.BTree.Laws.{IsTree}
use event_ticketing_platform.Storage.BTree.Deletion.{without, btree_delete_lem}
use event_ticketing_platform.Storage.Page.{Page}
use event_ticketing_platform.Storage.Page.Laws.{Holds, write_slot-Holds}
use event_ticketing_platform.Storage.Wal.{Env}
use event_ticketing_platform.Storage.Table.{Layout, Table, page_at, write_in_place, table_delete}
use event_ticketing_platform.Storage.Table.Laws.{record_at, view, IsTable}
use event_ticketing_platform.Storage.Table.Store.{written, written-IsTable, view-written}

module _ {R : Type 0} (L : Layout R) where
  -- A table whose index loses an id.
  module _ (t : Table R) (v : IsTable L t) (id : ℕ) (index' : BTree) (tree : IsTree index')
      (answers : (j : ℕ)
        → j < u32_mod
        → btree_search index' j ≡ (if j == id then none else btree_search t.index j)) where
    abbrev unlisted : Table R
    unlisted = record t { index = index' }

    unlisted-IsTable : IsTable L unlisted
    unlisted-IsTable = record {
      tree = tree;
      paged = v.paged;
      linked = λ j ptr k e. v.linked j ptr k (ground (arith, answers j k));
      unused = λ j n k. ground (arith, answers j k, v.unused j n k);
      next_small = v.next_small;
    }

    view-unlisted :
        (j : ℕ) → j < u32_mod → view L unlisted j ≡ (if j == id then none else view L t j)
    view-unlisted j k = elim (Bool-cases (j == id)) [
      | inl same ↦ rw (answers j k, same) refl
      | inr other ↦ rw (answers j k, other) refl
    ]

  -- What a deletion may come to: the id shows no record, or nothing is changed.
  abbrev pub Deleted : Table R → ℕ → Result (Unit {0}) × Table R × Env → Type 0
  Deleted t id (r, t', env') =
      ((r ≡ ok tt)
        × ((old : R) × (view L t id ≡ some old))
        × IsTable L t'
        × (t'.next_id ≡ t.next_id)
        × ((j : ℕ) → j < u32_mod → view L t' j ≡ (if j == id then none else view L t j)))
      ⊎ ((t' ≡ t) × ((r ≡ err io) ⊎ ((r ≡ err not_found) × (view L t id ≡ none))))

  abbrev marked : Table R → RecordPtr → R → Page R
  marked t ptr old = write_in_place (page_at t.pages ptr.page_id) ptr.slot_id (L.mark_deleted old)

  -- The steps of the deletion of a record that the index leads to, up to where they break off.
  steps :
      (id : ℕ) (old : R) (t : Table R) (env : Env) (ptr : RecordPtr) (index' : BTree)
      → btree_search t.index id ≡ some ptr
      → record_at t ptr ≡ some old
      → btree_delete t.index id ≡ some index'
      → (((table_delete L id t env).0 ≡ ok tt)
          × ((table_delete L id t env).1
              ≡ record t { pages = set t.pages ptr.page_id (marked t ptr old); index = index' })
          × (view L t id ≡ some old))
        ⊎ (((table_delete L id t env).1 ≡ t)
            × (((table_delete L id t env).0 ≡ err io)
                ⊎ (((table_delete L id t env).0 ≡ err not_found) × (view L t id ≡ none))))
  unfolding table_delete
  steps id old t env ptr index' lead at del = ground arith

  missing :
      (id : ℕ) (t : Table R) (env : Env)
      → btree_search t.index id ≡ none
      → Deleted t id (table_delete L id t env)
  unfolding table_delete
  missing id t env e = inr (ground (arith, e), inr (ground (arith, e), ground (arith, e)))

  -- On a valid table and for an id below 2^32: `table_delete` takes the live record of the id away and touches no other id, or it reports
  -- ETP_ERR_IO or a missing record and changes nothing. A valid table stays valid.
  pub table_delete_lem :
      (id : ℕ) (t : Table R) (env : Env)
      → IsTable L t
      → id < u32_mod
      → Deleted t id (table_delete L id t env)
  unfolding written
  table_delete_lem id t env v small = by_pointer (btree_search t.index id) refl
    where
      by_pointer :
          (o : Option RecordPtr)
          → btree_search t.index id ≡ o
          → Deleted t id (table_delete L id t env)
      by_pointer none e = missing id t env e
      by_pointer (some ptr) e =
          let (old, inside, at, same) = v.linked id ptr small e in
          by_index old inside at same (btree_delete_lem t.index id v.tree small)
        where
          by_index :
              (old : R)
              → ptr.page_id < length t.pages
              → record_at t ptr ≡ some old
              → L.key old ≡ id
              → ((btree_search t.index id ≡ none) × (btree_delete t.index id ≡ none))
                ⊎ ((index' : BTree) × (btree_delete t.index id ≡ some index')
                    × IsTree index'
                    × ((j : ℕ)
                        → j < u32_mod
                        → btree_search index' j ≡ without id (btree_search t.index) j))
              → Deleted t id (table_delete L id t env)
          by_index old inside at same (inl (gone, _)) = absurd (ground (arith, gone, e))
          by_index old inside at same (inr (index', del, tree, law)) =
              finish (steps id old t env ptr index' e at del)
            where
              h :
                  Holds
                    (record_size t.id)
                    (page_at t.pages ptr.page_id)
                    ptr.slot_id
                    (L.mark_deleted old)
                    (marked t ptr old)
              h =
                  write_slot-Holds (record_size t.id) (page_at t.pages ptr.page_id) ptr.slot_id
                    (L.mark_deleted old) old (v.paged ptr.page_id inside) at

              keyed : L.key (L.mark_deleted old) ≡ id
              keyed = L.key-mark_deleted old ∙ same

              t1 : Table R
              t1 =
                  written L t v ptr.page_id ptr.slot_id (L.mark_deleted old) (marked t ptr old)
                    inside h

              v1 : IsTable L t1
              v1 =
                  written-IsTable L t v ptr.page_id ptr.slot_id (L.mark_deleted old)
                    (marked t ptr old) inside h id small ptr e refl refl keyed

              answers :
                  (j : ℕ)
                  → j < u32_mod
                  → btree_search index' j ≡ (if j == id then none else btree_search t1.index j)
              answers j k = ground (arith, law j k)

              finish :
                  (((table_delete L id t env).0 ≡ ok tt)
                      × ((table_delete L id t env).1 ≡ record t {
                        pages = set t.pages ptr.page_id (marked t ptr old);
                        index = index';
                      })
                      × (view L t id ≡ some old))
                    ⊎ (((table_delete L id t env).1 ≡ t)
                        × (((table_delete L id t env).0 ≡ err io)
                            ⊎ (((table_delete L id t env).0 ≡ err not_found)
                                × (view L t id ≡ none))))
                  → Deleted t id (table_delete L id t env)
              finish (inr kept) = inr kept
              finish (inl (done, eq, was)) = inl (
                done,
                (old, was),
                rw eq (unlisted-IsTable t1 v1 id index' tree answers),
                rw eq refl,
                λ j k. rw eq (
                    view-unlisted t1 v1 id index' tree answers j k
                    ∙ ap (λ (w : Option R). if j == id then none else w)
                        (view-written L t v ptr.page_id ptr.slot_id (L.mark_deleted old)
                          (marked t ptr old) inside h id small ptr e refl refl keyed j k)
                    ∙ ground arith),
              )
