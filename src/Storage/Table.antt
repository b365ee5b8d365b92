-- ===== src/Storage/Table.antt =====
-- server/storage/table.c: the records of one table in pages, found through the index, with every
-- change logged first. The calls run one at a time under `storage_mutex`. A page is read and written
-- through the buffer pool, which here either answers with the page or fails (`faults`): what it
-- caches, pins and marks dirty is its own affair.
pub mod Laws
pub mod Store
pub mod Update
pub mod Insert
pub mod Insertion
pub mod Deletion
pub mod Scan
use event_ticketing_platform.Base.{
  ℕ, ◌+◌, ◌-◌, ◌%◌, ◌≡◌, Bool, true, not, ◌&&◌, Option, none, some, List, [], ◌∷◌, ◌++◌, ◌==◌,
  if◌then◌else◌, length, get_or, set, take,
}
use event_ticketing_platform.Types.{
  TableId, record_size, u32_mod, invalid_lsn, EtpError, not_found, full, io, Result, ok, err,
}
use event_ticketing_platform.Storage.BTree.{
  BTree, RecordPtr, btree_insert, btree_search, btree_delete,
}
use event_ticketing_platform.Storage.Page.{
  Page, zero_page, page_init_header, page_is_full, page_insert_record, page_get_record,
  page_update_record, write_slot,
}
use event_ticketing_platform.Storage.Wal.{
  Env, fails, after_call, wal_log_insert, wal_log_update, wal_log_delete,
}

-- What table.c reads and writes in a record by byte offsets: the id (the first four bytes, or
-- `junction_id`), the `is_deleted` flag, and the bytes that go to the log.
pub record Layout (R : Type 0) : Type 0 where
  pub key : R → ℕ
  pub set_key : ℕ → R → R
  pub deleted : R → Bool
  pub mark_deleted : R → R
  pub bytes : R → List ℕ
  pub key-set_key : (k : ℕ) (r : R) → key (set_key k r) ≡ k
  pub deleted-set_key : (k : ℕ) (r : R) → deleted (set_key k r) ≡ deleted r
  pub key-mark_deleted : (r : R) → key (mark_deleted r) ≡ key r
  pub deleted-mark_deleted : (r : R) → deleted (mark_deleted r) ≡ true

-- A table, with its counter of ids (`g_next_ids` of common/utils.c).
pub record Table (R : Type 0) : Type 0 where
  pub id : TableId
  pub pages : List (Page R)
  pub index : BTree
  pub next_id : ℕ

-- An action on a table and its surroundings, that delivers a value or an error code.
abbrev pub M : Type 0 → Type 0 → Type 0
M R A = Table R → Env → Result A × Table R × Env

infixl 5 ◌>>=◌ ◌>>◌
abbrev pub ◌>>=◌ : {R A B : Type 0} → M R A → (A → M R B) → M R B
◌>>=◌ m f t env = elim (m t env).0 [
  | ok a ↦ f a (m t env).1 (m t env).2
  | err e ↦ (err e, (m t env).1, (m t env).2)
]

abbrev pub ◌>>◌ : {R B : Type 0} → M R (Unit {0}) → M R B → M R B
m >> k = m >>= λ _. k

module _ {R : Type 0} where
  abbrev pub page_at : List (Page R) → ℕ → Page R
  page_at pages pid = get_or pages pid zero_page

  -- `buffer_pool_fetch`.
  unfoldable pub fetch : ℕ → M R (Page R)
  fetch pid t env =
      if fails env
      then (err io, t, after_call env)
      else (ok (page_at t.pages pid), t, after_call env)

  -- The page, as the caller leaves it in the pool.
  unfoldable pub store : ℕ → Page R → M R (Unit {0})
  store pid page t env = (ok tt, record t { pages = set t.pages pid page }, env)

  unfoldable pub etp_next_id : M R ℕ
  etp_next_id t env = (ok t.next_id, record t { next_id = (t.next_id + 1) % u32_mod }, env)

  -- `page_alloc` on the table's file; `code` is the error that the caller makes of its failure.
  unfoldable pub page_alloc : EtpError → M R ℕ
  page_alloc code t env = if fails env then (err code, t, after_call env) else (
    ok (length t.pages),
    record t { pages = t.pages ++ page_init_header (length t.pages) (record_size t.id) ∷ [] },
    after_call env,
  )

  -- Step 2 of `table_insert`, up to the allocation: the last page if it can be read and has room.
  unfoldable pub last_page : M R (Option ℕ)
  last_page t env =
      let last = length t.pages - 1 in
      if length t.pages == 0
      then (ok none, t, env)
      else if fails env
      then (ok none, t, after_call env)
      else if page_is_full (page_at t.pages last)
      then (ok none, t, after_call env)
      else (ok (some last), t, after_call env)

  unfoldable pub or_alloc : Option ℕ → M R ℕ
  or_alloc none = page_alloc io
  or_alloc (some pid) = λ t env. (ok pid, t, env)

  -- A log call: its failure is the source's INVALID_LSN.
  unfoldable pub log_first : (Table R → Env → ℕ × Env) → M R (Unit {0})
  log_first write t env =
      if (write t env).0 == invalid_lsn
      then (err io, t, (write t env).1)
      else (ok tt, t, (write t env).1)

  unfoldable pub or_fail : {A : Type 0} → EtpError → Option A → M R A
  or_fail code none t env = (err code, t, env)
  or_fail code (some a) t env = (ok a, t, env)

  unfoldable pub index_insert : ℕ → RecordPtr → M R (Unit {0})
  index_insert key ptr t env = elim (btree_insert t.index key ptr) [
    | none ↦ (err io, t, env)
    | some index ↦ (ok tt, record t { index = index }, env)
  ]

  -- The result of `btree_delete` is not looked at.
  unfoldable pub index_delete : ℕ → M R (Unit {0})
  index_delete key t env = elim (btree_delete t.index key) [
    | none ↦ (ok tt, t, env)
    | some index ↦ (ok tt, record t { index = index }, env)
  ]

  unfoldable pub lookup : ℕ → M R RecordPtr
  unfolding or_fail
  lookup id t env = or_fail not_found (btree_search t.index id) t env

  -- Step 4 of `table_insert`: the record into the target page, or else into a fresh one.
  unfoldable pub place : R → ℕ → M R RecordPtr
  unfolding fetch store page_alloc or_fail
  place r pid = do
    page ← fetch pid
    elim (page_insert_record page r) [
      | some (slot, page') ↦ store pid page' >>= λ _ t env.
          (ok (record { page_id = pid; slot_id = slot % 65536 }), t, env)
      | none ↦ do
        fresh ← page_alloc full
        page ← fetch fresh
        (slot, page') ← or_fail full (page_insert_record page r)
        store fresh page'
        λ t env. (ok (record { page_id = fresh; slot_id = slot % 65536 }), t, env)
    ]

-- A write through the pointer that `page_get_record` returned: no flag of the page is set.
abbrev pub write_in_place : {R : Type 0} → Page R → ℕ → R → Page R
write_in_place page slot_id r = record page { slots = write_slot page.slots slot_id r }

module _ {R : Type 0} (L : Layout R) where
  -- Steps 3 to 6 of `table_insert`: the record, its id set, goes to the log, the page and the index.
  unfoldable pub insert_into : ℕ → R → ℕ → M R ℕ
  unfolding log_first place index_insert
  insert_into new_id r target = do
    log_first λ t env. wal_log_insert env 0 t.id new_id (L.bytes r) (record_size t.id)
    ptr ← place r target
    index_insert new_id ptr
    λ t env. (ok new_id, t, env)

  unfoldable pub table_insert : R → M R ℕ
  unfolding etp_next_id last_page or_alloc insert_into
  table_insert r = do
    new_id ← etp_next_id
    last ← last_page
    target ← or_alloc last
    insert_into new_id (L.set_key new_id r) target

  -- The steps that `table_find_by_id`, `table_update` and `table_delete` share: the pointer, its page
  -- and the record there, unless it is deleted.
  unfoldable pub live_record : RecordPtr → Page R → M R R
  unfolding or_fail
  live_record ptr page = do
    r ← or_fail not_found (page_get_record page ptr.slot_id)
    if L.deleted r then (λ t env. (err not_found, t, env)) else (λ t env. (ok r, t, env))

  unfoldable pub table_find_by_id : ℕ → M R R
  unfolding lookup fetch live_record
  table_find_by_id id = do ptr ← lookup id; page ← fetch ptr.page_id; live_record ptr page

  unfoldable pub table_update : ℕ → R → M R (Unit {0})
  unfolding lookup fetch live_record log_first store
  table_update id new_record = do
    ptr ← lookup id
    page ← fetch ptr.page_id
    old ← live_record ptr page
    log_first
        λ t env. wal_log_update env 0 t.id id (L.bytes old) (L.bytes new_record) (record_size t.id)
    page' ← or_fail io (page_update_record page ptr.slot_id new_record)
    store ptr.page_id page'

  unfoldable pub table_delete : ℕ → M R (Unit {0})
  unfolding lookup fetch live_record log_first store index_delete
  table_delete id = do
    ptr ← lookup id
    page ← fetch ptr.page_id
    old ← live_record ptr page
    log_first λ t env. wal_log_delete env 0 t.id id (L.bytes old) (record_size t.id)
    store ptr.page_id (write_in_place page ptr.slot_id (L.mark_deleted old))
    index_delete id

  -- The inner loop of `table_scan`: the live matches of a page, while there is room.
  unfoldable pub scan_slots : (R → Bool) → List R → ℕ → List R
  scan_slots filter [] room = []
  scan_slots filter (r ∷ rs) room =
      let wanted = not (L.deleted r) && filter r in
      let rest = scan_slots filter rs (if wanted then room - 1 else room) in
      if room == 0 then [] else if wanted then r ∷ rest else rest

  -- The outer loop: a page that cannot be fetched is passed over.
  unfoldable pub scan_pages : (R → Bool) → List (Page R) → ℕ → Env → List R × Env
  unfolding scan_slots
  scan_pages filter [] room env = ([], env)
  scan_pages filter (page ∷ pages) room env =
      let found = scan_slots filter (take page.record_count page.slots) room in
      let more = scan_pages filter pages (room - length found) (after_call env) in
      let skipped = scan_pages filter pages room (after_call env) in
      if room == 0 then ([], env) else if fails env then skipped else (found ++ more.0, more.1)

  -- The matches, at most `max_results`.
  unfoldable pub table_scan : (R → Bool) → ℕ → Table R → Env → List R × Env
  unfolding scan_pages
  table_scan filter max_results t env = scan_pages filter t.pages max_results env

  count_slots : List R → ℕ
  count_slots [] = 0
  count_slots (r ∷ rs) = (if L.deleted r then 0 else 1) + count_slots rs

  count_pages : List (Page R) → Env → ℕ × Env
  unfolding count_slots
  count_pages [] env = (0, env)
  count_pages (page ∷ pages) env =
      let rest = count_pages pages (after_call env) in
      ((if fails env then 0 else count_slots (take page.record_count page.slots)) + rest.0, rest.1)

  unfoldable pub table_count : Table R → Env → ℕ × Env
  unfolding count_pages
  table_count t env = count_pages t.pages env
