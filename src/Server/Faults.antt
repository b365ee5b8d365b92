-- ===== src/Server/Faults.antt =====
-- Which calls into the operating system are still to fail, after the calls that server/core makes.
use event_ticketing_platform.Base.{
  ℕ, ◌-◌, length, take, Option, some, ◌≡◌, refl, Bool, true, false, ◌||◌, List, [], ◌∷◌, arith, ◌⊎◌,
  inl, inr, Bool-cases, ap,
}
use event_ticketing_platform.Types.{TableId, WalOp, wal_update, record_size, io, Result, ok, err}
use event_ticketing_platform.Storage.Page.{Page, page_update_record}
use event_ticketing_platform.Storage.Wal.{
  Env, fails, after_call, append_data, wal_append, wal_log_update, WalHeader, zeros_or,
}
use event_ticketing_platform.Storage.BTree.{RecordPtr}
use event_ticketing_platform.Storage.Table.{
  Layout, Table, M, ◌>>=◌, fetch, store, log_first, or_fail, lookup, live_record, table_find_by_id,
  table_update, scan_slots, scan_pages, table_scan,
}
use event_ticketing_platform.Storage.Table.Scan.{readable}

unfoldable pub any_fails : List Bool → Bool
any_fails [] = false
any_fails (f ∷ fs) = f || any_fails fs

-- Is any call to fail?
abbrev pub faulty : Env → Bool
faulty env = any_fails env.faults

-- No fault has come up that was not to come before.
abbrev pub Fewer : Env → Env → Type 0
Fewer env env' = faulty env' ≡ true → faulty env ≡ true

pub Fewer-after_call : (env : Env) → Fewer env (after_call env)
unfolding any_fails
Fewer-after_call env h = ground (arith, h)

pub fails-faulty : (env : Env) → fails env ≡ true → faulty env ≡ true
unfolding any_fails
fails-faulty env h = ground (arith, h)

Fewer-append_data :
    (env : Env) (header : WalHeader) (old new : List ℕ)
    → Fewer env (append_data env header old new).1
unfolding append_data
Fewer-append_data env header old new h =
    ground (arith, h, Fewer-after_call env, Fewer-after_call (after_call env))

Fewer-wal_append :
    (env : Env) (txn_id : ℕ) (op : WalOp) (table : TableId) (id : ℕ) (old new : Option (List ℕ))
    (size : ℕ)
    → Fewer env (wal_append env txn_id op table id old new size).1
unfolding wal_append
Fewer-wal_append env txn_id op table id old new size h = ground (
  arith,
  h,
  Fewer-after_call env,
  Fewer-append_data (after_call env)
      (record {
        lsn = env.wal.next_lsn;
        txn_id = txn_id;
        op_type = op;
        table_id = table;
        data_size = size;
        record_id = id;
      })
      (zeros_or size old) (zeros_or size new),
)

Fewer-log_update :
    (env : Env) (txn_id : ℕ) (table : TableId) (id : ℕ) (old new : List ℕ) (size : ℕ)
    → Fewer env (wal_log_update env txn_id table id old new size).1
unfolding wal_log_update
Fewer-log_update env txn_id table id old new size =
    Fewer-wal_append env txn_id wal_update table id (some old) (some new) size

module _ {R : Type 0} (L : Layout R) where
  pub Fewer-find : (id : ℕ) (t : Table R) (env : Env) → Fewer env (table_find_by_id L id t env).2
  unfolding table_find_by_id
  Fewer-find id t env h = ground (arith, h, Fewer-after_call env)

  -- A step of the table engine that brings no new fault, whatever it finds.
  abbrev Quiet : {A : Type 0} → M R A → Type 0
  Quiet m = (t : Table R) (env : Env) → Fewer env (m t env).2

  Quiet-bind :
      {A B : Type 0} (m : M R A) (k : A → M R B)
      → Quiet m
      → ((a : A) → Quiet (k a))
      → Quiet (m >>= k)
  Quiet-bind {A} {B} m k q f t env = by_result (m t env).0 (m t env).1 (m t env).2 (q t env)
    where
      by_result :
          (r : Result A) (t' : Table R) (env' : Env)
          → Fewer env env'
          → Fewer env
              (elim r as (λ _. Result B × Table R × Env) [
                | ok a ↦ k a t' env'
                | err e ↦ (err e, t', env')
              ]).2
      by_result (ok a) t' env' h = λ x. h (f a t' env' x)
      by_result (err e) t' env' h = h

  -- `table_update` from each of its steps on.
  abbrev written : RecordPtr → Page R → R → M R (Unit {0})
  written ptr page r =
      or_fail io (page_update_record page ptr.slot_id r) >>= λ page'. store ptr.page_id page'

  abbrev logged_update : ℕ → R → RecordPtr → Page R → R → M R (Unit {0})
  logged_update id r ptr page old =
      (log_first λ t env. wal_log_update env 0 t.id id (L.bytes old) (L.bytes r) (record_size t.id))
      >>= λ _. written ptr page r

  abbrev read_update : ℕ → R → RecordPtr → Page R → M R (Unit {0})
  read_update id r ptr page = live_record L ptr page >>= logged_update id r ptr page

  abbrev fetched_update : ℕ → R → RecordPtr → M R (Unit {0})
  fetched_update id r ptr = fetch ptr.page_id >>= read_update id r ptr

  Quiet-written : (ptr : RecordPtr) (page : Page R) (r : R) → Quiet (written ptr page r)
  unfolding or_fail store
  Quiet-written ptr page r t env h = ground (arith, h)

  Quiet-logged :
      (id : ℕ) (r : R) (ptr : RecordPtr) (page : Page R) (old : R)
      → Quiet (logged_update id r ptr page old)
  unfolding log_first
  Quiet-logged id r ptr page old =
      Quiet-bind
        (log_first
          λ t env. wal_log_update env 0 t.id id (L.bytes old) (L.bytes r) (record_size t.id))
        (λ _. written ptr page r)
        (λ t env h.
          ground
            (arith, h, Fewer-log_update env 0 t.id id (L.bytes old) (L.bytes r) (record_size t.id)))
        (λ _. Quiet-written ptr page r)

  Quiet-read :
      (id : ℕ) (r : R) (ptr : RecordPtr) (page : Page R) → Quiet (read_update id r ptr page)
  unfolding live_record
  Quiet-read id r ptr page =
      Quiet-bind (live_record L ptr page) (logged_update id r ptr page)
        (λ t env h. ground (arith, h)) (Quiet-logged id r ptr page)

  Quiet-fetched : (id : ℕ) (r : R) (ptr : RecordPtr) → Quiet (fetched_update id r ptr)
  unfolding fetch
  Quiet-fetched id r ptr =
      Quiet-bind (fetch ptr.page_id) (read_update id r ptr)
        (λ t env h. ground (arith, h, Fewer-after_call env)) (Quiet-read id r ptr)

  pub Quiet-update : (id : ℕ) (r : R) → Quiet (table_update L id r)
  unfolding table_update lookup
  Quiet-update id r =
      Quiet-bind (lookup id) (fetched_update id r) (λ t env h. ground (arith, h))
        (Quiet-fetched id r)

  Fewer-scan_pages :
      (filter : R → Bool) (pages : List (Page R)) (room : ℕ) (env : Env)
      → Fewer env (scan_pages L filter pages room env).1
  unfolding scan_pages
  Fewer-scan_pages filter [] room env h = h
  Fewer-scan_pages filter (page ∷ pages) room env h = ground (
    arith,
    h,
    Fewer-after_call env,
    Fewer-scan_pages filter pages room (after_call env),
    Fewer-scan_pages filter pages
        (room - length (scan_slots L filter (take page.record_count page.slots) room))
        (after_call env),
  )

  pub Fewer-table_scan :
      (filter : R → Bool) (max_results : ℕ) (t : Table R) (env : Env)
      → Fewer env (table_scan L filter max_results t env).1
  unfolding table_scan
  Fewer-table_scan filter max_results t env = Fewer-scan_pages filter t.pages max_results env

  pub readable-all :
      (pages : List (Page R)) (env : Env) → (faulty env ≡ true) ⊎ (readable L pages env ≡ pages)
  unfolding readable
  readable-all [] env = inr refl
  readable-all (page ∷ pages) env = elim (Bool-cases (fails env)) [
    | inl f ↦ inl (fails-faulty env f)
    | inr f ↦ elim (readable-all pages (after_call env)) [
      | inl g ↦ inl (Fewer-after_call env g)
      | inr e ↦ inr (rw f (ap (λ (ps : List (Page R)). page ∷ ps) e))
    ]
  ]
