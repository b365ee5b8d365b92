-- ===== src/Storage/Table/Update.antt =====
-- `table_update` of server/storage/table.c against the table's view.
use event_ticketing_platform.Base.{
  ℕ, ◌<◌, ◌≡◌, refl, inl, inr, ◌⊎◌, Option, none, some, arith, ◌==◌, if◌then◌else◌, length, set,
}
use event_ticketing_platform.Types.{record_size, u32_mod, not_found, io, Result, ok, err}
use event_ticketing_platform.Storage.BTree.{RecordPtr, btree_search}
use event_ticketing_platform.Storage.Page.{Page, page_update_record}
use event_ticketing_platform.Storage.Page.Laws.{Holds, page_update_record_lem}
use event_ticketing_platform.Storage.Wal.{Env}
use event_ticketing_platform.Storage.Table.{Layout, Table, page_at, table_update}
use event_ticketing_platform.Storage.Table.Laws.{record_at, alive, view, IsTable}
use event_ticketing_platform.Storage.Table.Store.{written, written-IsTable, view-written}

module _ {R : Type 0} (L : Layout R) where
  -- What an update may come to: the record is replaced, or nothing is changed.
  abbrev pub Updated : Table R → ℕ → R → Result (Unit {0}) × Table R × Env → Type 0
  Updated t id new (r, t', env') =
      ((r ≡ ok tt)
        × ((old : R) × (view L t id ≡ some old))
        × IsTable L t'
        × (t'.next_id ≡ t.next_id)
        × ((j : ℕ)
            → j < u32_mod
            → view L t' j ≡ (if j == id then alive L (some new) else view L t j)))
      ⊎ ((t' ≡ t) × ((r ≡ err io) ⊎ ((r ≡ err not_found) × (view L t id ≡ none))))

  -- The steps of the update of a live record, up to where they break off.
  steps :
      (id : ℕ) (new old : R) (t : Table R) (env : Env) (ptr : RecordPtr) (page' : Page R)
      → btree_search t.index id ≡ some ptr
      → record_at t ptr ≡ some old
      → page_update_record (page_at t.pages ptr.page_id) ptr.slot_id new ≡ some page'
      → (((table_update L id new t env).0 ≡ ok tt)
          × ((table_update L id new t env).1 ≡ record t { pages = set t.pages ptr.page_id page' })
          × (view L t id ≡ some old))
        ⊎ (((table_update L id new t env).1 ≡ t)
            × (((table_update L id new t env).0 ≡ err io)
                ⊎ (((table_update L id new t env).0 ≡ err not_found) × (view L t id ≡ none))))
  unfolding table_update
  steps id new old t env ptr page' lead at upd = ground arith

  missing :
      (id : ℕ) (new : R) (t : Table R) (env : Env)
      → btree_search t.index id ≡ none
      → Updated t id new (table_update L id new t env)
  unfolding table_update
  missing id new t env e = inr (ground (arith, e), inr (ground (arith, e), ground (arith, e)))

  -- On a valid table, for an id below 2^32 that the new record carries: `table_update` replaces the live record of the id and touches no other id, or it reports
  -- ETP_ERR_IO or a missing record and changes nothing. A valid table stays valid.
  pub table_update_lem :
      (id : ℕ) (new : R) (t : Table R) (env : Env)
      → IsTable L t
      → id < u32_mod
      → L.key new ≡ id
      → Updated t id new (table_update L id new t env)
  unfolding written
  table_update_lem id new t env v small keyed = by_pointer (btree_search t.index id) refl
    where
      by_pointer :
          (o : Option RecordPtr)
          → btree_search t.index id ≡ o
          → Updated t id new (table_update L id new t env)
      by_pointer none e = missing id new t env e
      by_pointer (some ptr) e =
          let (old, inside, at, same) = v.linked id ptr small e in
          let (page', upd, h) =
            page_update_record_lem (record_size t.id) (page_at t.pages ptr.page_id) ptr.slot_id new
              old (v.paged ptr.page_id inside) at in
          finish e inside h (steps id new old t env ptr page' e at upd)
        where
          finish :
              {old : R} {page' : Page R}
              → btree_search t.index id ≡ some ptr
              → (inside : ptr.page_id < length t.pages)
              → (h : Holds (record_size t.id) (page_at t.pages ptr.page_id) ptr.slot_id new page')
              → (((table_update L id new t env).0 ≡ ok tt)
                  × ((table_update L id new t env).1
                      ≡ record t { pages = set t.pages ptr.page_id page' })
                  × (view L t id ≡ some old))
                ⊎ (((table_update L id new t env).1 ≡ t)
                    × (((table_update L id new t env).0 ≡ err io)
                        ⊎ (((table_update L id new t env).0 ≡ err not_found)
                            × (view L t id ≡ none))))
              → Updated t id new (table_update L id new t env)
          finish e inside h (inr kept) = inr kept
          finish {old} {page'} e inside h (inl (done, eq, was)) = inl (
            done,
            (old, was),
            rw eq (
                written-IsTable L t v ptr.page_id ptr.slot_id new page' inside h id small ptr e refl
                  refl keyed),
            rw eq refl,
            λ j k. rw eq (
                view-written L t v ptr.page_id ptr.slot_id new page' inside h id small ptr e refl
                  refl keyed j k),
          )
