-- ===== src/Storage/Table/Laws.antt =====
-- The abstract view of a table of server/storage/table.c: a partial map from ids to records.
use event_ticketing_platform.Base.{
  refl, false, ℕ, ◌≤◌, ◌<◌, ◌≡◌, true, ◌⊎◌, Option, none, some, arith, if◌then◌else◌, length,
}
use event_ticketing_platform.Types.{record_size, u32_mod, EtpError, not_found, io, Result, ok, err}
use event_ticketing_platform.Storage.BTree.{RecordPtr, btree_search}
use event_ticketing_platform.Storage.BTree.Laws.{IsTree}
use event_ticketing_platform.Storage.Page.{page_get_record}
use event_ticketing_platform.Storage.Page.Laws.{IsPage}
use event_ticketing_platform.Storage.Wal.{Env, fails}
use event_ticketing_platform.Storage.Table.{Layout, Table, page_at, table_find_by_id}

abbrev pub record_at : {R : Type 0} → Table R → RecordPtr → Option R
record_at t ptr = page_get_record (page_at t.pages ptr.page_id) ptr.slot_id

module _ {R : Type 0} (L : Layout R) where
  abbrev pub alive : Option R → Option R
  alive none = none
  alive (some r) = if L.deleted r then none else some r

  abbrev pub at_pointer : Table R → Option RecordPtr → Option R
  at_pointer t none = none
  at_pointer t (some ptr) = alive (record_at t ptr)

  -- The live record of an id.
  abbrev pub view : Table R → ℕ → Option R
  view t id = at_pointer t (btree_search t.index id)

  pub record IsTable (t : Table R) : Type 0 where
    pub tree : IsTree t.index
    pub paged : (p : ℕ) → p < length t.pages → IsPage (record_size t.id) (page_at t.pages p)
    -- The index leads each id to a slot that holds a record with this id.
    pub linked :
        (j : ℕ) (ptr : RecordPtr)
        → j < u32_mod
        → btree_search t.index j ≡ some ptr
        → (r : R) × (ptr.page_id < length t.pages) × (record_at t ptr ≡ some r) × (L.key r ≡ j)
    -- The ids to come are not in use.
    pub unused : (j : ℕ) → t.next_id ≤ j → j < u32_mod → btree_search t.index j ≡ none
    pub next_small : t.next_id < u32_mod

  abbrev pub found_or : EtpError → Option R → Result R
  found_or code none = err code
  found_or code (some r) = ok r

  -- `table_find_by_id` leaves the table alone. It delivers the live record of the id, and
  -- ETP_ERR_NOT_FOUND where there is none, unless the page cannot be fetched, which is ETP_ERR_IO.
  pub table_find_by_id_lem :
      (id : ℕ) (t : Table R) (env : Env)
      → ((table_find_by_id L id t env).1 ≡ t)
        × (((table_find_by_id L id t env).0 ≡ found_or not_found (view t id))
            ⊎ ((fails env ≡ true) × ((table_find_by_id L id t env).0 ≡ err io)))
  unfolding table_find_by_id
  table_find_by_id_lem id t env = ground arith

  -- A record that the table shows has its id, and is not deleted.
  pub view-live :
      (t : Table R) (id : ℕ) (r : R)
      → IsTable t
      → id < u32_mod
      → view t id ≡ some r
      → (L.key r ≡ id) × (L.deleted r ≡ false)
  view-live t id r v small e = by_pointer (btree_search t.index id) refl
    where
      by_pointer :
          (o : Option RecordPtr)
          → btree_search t.index id ≡ o
          → (L.key r ≡ id) × (L.deleted r ≡ false)
      by_pointer none h = absurd (ground (arith, e, h))
      by_pointer (some ptr) h = ground (arith, e, h, v.linked id ptr small h)

  -- `table_find_by_id`, by what it delivers.
  pub table_find_by_id-some :
      (id : ℕ) (t : Table R) (env : Env) (r : R)
      → (table_find_by_id L id t env).0 ≡ ok r
      → view t id ≡ some r
  table_find_by_id-some id t env r e = by_view (view t id) refl
    where
      by_view : (o : Option R) → view t id ≡ o → view t id ≡ some r
      by_view none h = absurd (ground (arith, e, h, table_find_by_id_lem id t env))
      by_view (some q) h = ground (arith, e, h, table_find_by_id_lem id t env)
