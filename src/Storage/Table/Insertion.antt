-- ===== src/Storage/Table/Insertion.antt =====
-- The steps of `table_insert` in server/storage/table.c, put together.
use event_ticketing_platform.Base.{
  ℕ, ◌+◌, ◌-◌, ◌%◌, ◌<◌, ◌≡◌, refl, ◌∙◌, ap, true, false, inl, inr, ◌⊎◌, Bool-cases, Option, none,
  some, [], ◌∷◌, arith, ◌==◌, if◌then◌else◌, length, length-append, set,
}
use event_ticketing_platform.Types.{
  TableId, users, events, seats, bookings, booking_seats, record_size, u32_mod, EtpError, io,
  Result, ok, err,
}
use event_ticketing_platform.Storage.BTree.{BTree, RecordPtr, btree_insert, btree_search}
use event_ticketing_platform.Storage.BTree.Laws.{Adds, btree_insert_lem}
use event_ticketing_platform.Storage.Page.{
  Page, u16_mod, page_init_header, page_insert_record, page_is_full,
}
use event_ticketing_platform.Storage.Page.Laws.{Holds, page_insert_record_lem}
use event_ticketing_platform.Storage.Wal.{Env, fails, after_call}
use event_ticketing_platform.Storage.Table.{Layout, Table, page_at, insert_into, table_insert}
use event_ticketing_platform.Storage.Table.Laws.{alive, view, IsTable}
use event_ticketing_platform.Storage.Table.Store.{get_or-append_last}
use event_ticketing_platform.Storage.Table.Insert.{
  Added, extended, extended-IsTable, view-extended, listed-IsTable, view-listed,
}

module _ {R : Type 0} (L : Layout R) where
  steps :
      (t : Table R) (env : Env) (id : ℕ) (r : R) (p : ℕ) (page' : Page R) (index' : BTree)
      → (page_at t.pages p).record_count < 65536
      → page_insert_record (page_at t.pages p) r ≡ some ((page_at t.pages p).record_count, page')
      → btree_insert t.index id (record { page_id = p; slot_id = (page_at t.pages p).record_count })
        ≡ some index'
      → (((insert_into L id r p t env).0 ≡ ok id)
          × ((insert_into L id r p t env).1
              ≡ record t { pages = set t.pages p page'; index = index' }))
        ⊎ (((insert_into L id r p t env).0 ≡ err io) × ((insert_into L id r p t env).1 ≡ t))
  unfolding insert_into
  steps t env id r p page' index' few put list =
      let fits : (page_at t.pages p).record_count % 65536 ≡ (page_at t.pages p).record_count =
        omega arith in
      ground arith

  -- The later steps of an insertion under an id that is not in use, into a page with room.
  insert_into-Added :
      (t : Table R) (env : Env) (id : ℕ) (r : R) (p : ℕ)
      → IsTable L t
      → id < t.next_id
      → btree_search t.index id ≡ none
      → L.key r ≡ id
      → p < length t.pages
      → page_is_full (page_at t.pages p) ≡ false
      → Added L t id r (insert_into L id r p t env)
  insert_into-Added t env id r p v past fresh keyed inside room =
      put (page_insert_record_lem (record_size t.id) (page_at t.pages p) r (v.paged p inside))
    where
      small : id < u32_mod
      small = omega (arith, past, v.next_small)

      page : Page R
      page = page_at t.pages p

      done :
          {page' : Page R} {index' : BTree}
          → page.record_count < 65536
          → Holds (record_size t.id) page page.record_count r page'
          → Adds t.index id (record { page_id = p; slot_id = page.record_count }) (index')
          → (((insert_into L id r p t env).0 ≡ ok id)
              × ((insert_into L id r p t env).1
                  ≡ record t { pages = set t.pages p page'; index = index' }))
            ⊎ (((insert_into L id r p t env).0 ≡ err io) × ((insert_into L id r p t env).1 ≡ t))
          → Added L t id r (insert_into L id r p t env)
      done few h a (inr (e, kept)) = inr ((io, e), kept)
      done {page'} {index'} few h a (inl (e, eq)) = inl (
        e,
        rw eq
            (listed-IsTable L t v id r small past fresh keyed p inside page' index' few h a.0 a.1),
        rw eq refl,
        λ j k.
            rw eq (
              view-listed L t v id r small past fresh keyed p inside page' index' few h a.0 a.1 j
                k),
      )

      put :
          ((page_is_full page ≡ true) × (page_insert_record page r ≡ none))
            ⊎ ((page' : Page R) × (page_is_full page ≡ false)
                × (page_insert_record page r ≡ some (page.record_count, page'))
                × (page.record_count < u16_mod)
                × Holds (record_size t.id) page page.record_count r page')
          → Added L t id r (insert_into L id r p t env)
      put (inl (no_room, e)) = absurd (ground arith)
      put (inr (page', _, e, few, h)) = list (
          btree_insert_lem t.index id (record { page_id = p; slot_id = page.record_count }) v.tree
            small)
        where
          list :
              ((old : RecordPtr) × (btree_search t.index id ≡ some old)
                  × (btree_insert t.index id (record { page_id = p; slot_id = page.record_count })
                      ≡ none))
                ⊎ ((index' : BTree) × (btree_search t.index id ≡ none)
                    × (btree_insert t.index id (record { page_id = p; slot_id = page.record_count })
                        ≡ some index')
                    × Adds t.index id (record { page_id = p; slot_id = page.record_count }) index')
              → Added L t id r (insert_into L id r p t env)
          list (inl (old, found, _)) = absurd (ground arith)
          list (inr (index', _, eq, a)) = done few h a (steps t env id r p page' index' few e eq)

  -- The table once the next id is taken.
  abbrev numbered : Table R → Table R
  numbered t = record t { next_id = (t.next_id + 1) % u32_mod }

  -- How `table_insert` starts: it fails to find a page, or goes on with the last page or a new one.
  starts :
      (r : R) (t : Table R) (env : Env)
      → (((e : EtpError) × ((table_insert L r t env).0 ≡ err e))
          × ((table_insert L r t env).1 ≡ numbered t))
        ⊎ (((env' : Env) × (0 < length t.pages)
              × (page_is_full (page_at t.pages (length t.pages - 1)) ≡ false)
              × (table_insert L r t env
                  ≡ insert_into L t.next_id
                      (L.set_key t.next_id r)
                      (length t.pages - 1)
                      (numbered t)
                      env'))
            ⊎ ((env' : Env) × (table_insert L r t env
                  ≡ insert_into L t.next_id
                      (L.set_key t.next_id r)
                      (length t.pages)
                      (extended L (numbered t))
                      env')))
  unfolding table_insert
  starts r t env = elim (Bool-cases (length t.pages == 0)) [
    | inl z ↦ elim (Bool-cases (fails env)) [
      | inl f ↦ inl ((io, ground arith), ground arith)
      | inr f ↦ inr (inr (after_call env, ground arith))
    ]
    | inr z ↦ elim (Bool-cases (fails env)) [
      | inl f ↦ elim (Bool-cases (fails (after_call env))) [
        | inl g ↦ inl ((io, ground arith), ground arith)
        | inr g ↦ inr (inr (after_call (after_call env), ground arith))
      ]
      | inr f ↦ elim (Bool-cases (page_is_full (page_at t.pages (length t.pages - 1)))) [
        | inl full ↦ elim (Bool-cases (fails (after_call env))) [
          | inl g ↦ inl ((io, ground arith), ground arith)
          | inr g ↦ inr (inr (after_call (after_call env), ground arith))
        ]
        | inr room ↦ inr (inl (after_call env, ground arith, room, ground arith))
      ]
    ]
  ]

  numbered-IsTable : (t : Table R) → IsTable L t → t.next_id + 1 < u32_mod → IsTable L (numbered t)
  numbered-IsTable t v h = record {
    tree = v.tree;
    paged = v.paged;
    linked = v.linked;
    unused = λ j n k. v.unused j (omega arith) k;
    next_small = omega arith;
  }

  -- What an insertion comes to: the record is there under the next id, or no record has changed.
  abbrev pub Landed : Table R → R → Result ℕ × Table R × Env → Type 0
  Landed t r (out, t', env') =
      (IsTable L t' × (t'.next_id ≡ t.next_id + 1))
      × (((out ≡ ok t.next_id)
            × ((j : ℕ)
                → j < u32_mod
                → view L t' j ≡ (
                    if j == t.next_id then alive L (some (L.set_key t.next_id r)) else view L t j)))
          ⊎ (((e : EtpError) × (out ≡ err e)) × ((j : ℕ) → j < u32_mod → view L t' j ≡ view L t j)))

  -- What the later steps come to on a table that shows the same records.
  Added-Landed :
      (t t1 : Table R) (r : R) (o : Result ℕ × Table R × Env)
      → IsTable L t1
      → t1.next_id ≡ t.next_id + 1
      → ((j : ℕ) → j < u32_mod → view L t1 j ≡ view L t j)
      → Added L t1 t.next_id (L.set_key t.next_id r) o
      → Landed t r o
  Added-Landed t t1 r (_, _, _) v n same (inl (e, v', n', law)) = (
    (v', n' ∙ n),
    inl (
      e,
      λ j k.
          law j k
          ∙ ap
              (λ (w : Option R).
                if j == t.next_id then alive L (some (L.set_key t.next_id r)) else w)
              (same j k),
    ),
  )
  Added-Landed t t1 r (_, _, _) v n same (inr (e, kept)) =
      ((rw kept v, rw kept n), inr (e, λ j k. rw kept (same j k)))

  fresh-page :
      (id : TableId) (p : ℕ) → page_is_full {R = R} (page_init_header p (record_size id)) ≡ false
  unfolding page_is_full page_init_header
  fresh-page users p = refl
  fresh-page events p = refl
  fresh-page seats p = refl
  fresh-page bookings p = refl
  fresh-page booking_seats p = refl

  -- `table_insert` on a valid table whose ids are not used up: it keeps the table valid and takes one
  -- id. Either it delivers that id, under which the record then stands with its id set, and no other
  -- id's record changes, or it reports an error and no record changes.
  pub table_insert_lem :
      (t : Table R) (r : R) (env : Env)
      → IsTable L t
      → t.next_id + 1 < u32_mod
      → Landed t r (table_insert L r t env)
  table_insert_lem t r env v more = finish (starts r t env)
    where
      v0 : IsTable L (numbered t)
      v0 = numbered-IsTable t v more

      n0 : (numbered t).next_id ≡ t.next_id + 1
      n0 = omega arith

      finish :
          (((e : EtpError) × ((table_insert L r t env).0 ≡ err e))
              × ((table_insert L r t env).1 ≡ numbered t))
            ⊎ (((env' : Env) × (0 < length t.pages)
                  × (page_is_full (page_at t.pages (length t.pages - 1)) ≡ false)
                  × (table_insert L r t env
                      ≡ insert_into L t.next_id
                          (L.set_key t.next_id r)
                          (length t.pages - 1)
                          (numbered t)
                          env'))
                ⊎ ((env' : Env) × (table_insert L r t env
                      ≡ insert_into L t.next_id
                          (L.set_key t.next_id r)
                          (length t.pages)
                          (extended L (numbered t))
                          env')))
          → Landed t r (table_insert L r t env)
      finish (inl (e, kept)) = ((rw kept v0, rw kept n0), inr (e, λ j k. rw kept refl))
      finish (inr (inl (env', some_page, room, eq))) = rw eq (
          Added-Landed t (numbered t) r
            (insert_into L t.next_id (L.set_key t.next_id r) (length t.pages - 1) (numbered t) env')
            v0 n0 (λ j k. refl)
            (insert_into-Added (numbered t) env' t.next_id (L.set_key t.next_id r)
              (length t.pages - 1) v0 (omega (arith, n0))
              (v.unused t.next_id (omega arith) v.next_small) (L.key-set_key t.next_id r)
              (omega arith) room))
      finish (inr (inr (env', eq))) = rw eq (
          Added-Landed t (extended L (numbered t)) r
            (insert_into L t.next_id (L.set_key t.next_id r) (length t.pages)
              (extended L (numbered t)) env')
            (extended-IsTable L (numbered t) v0) n0 (view-extended L (numbered t) v0)
            (insert_into-Added (extended L (numbered t)) env' t.next_id (L.set_key t.next_id r)
              (length t.pages) (extended-IsTable L (numbered t) v0) (omega (arith, n0))
              (v.unused t.next_id (omega arith) v.next_small) (L.key-set_key t.next_id r)
              (omega (
                arith,
                length-append t.pages (page_init_header (length t.pages) (record_size t.id) ∷ []),
              ))
              (rw get_or-append_last (fresh-page t.id (length t.pages)))))
