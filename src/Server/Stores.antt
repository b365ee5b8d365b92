-- ===== src/Server/Stores.antt =====
-- The cases of one call of the table engine on the state behind server/core: to prove `Q` of what the
-- call delivers and leaves, prove it for each outcome. `put` puts the table and the surroundings that
-- the call leaves back into the state.
use event_ticketing_platform.Base.{
  ℕ, ◌+◌, ◌<◌, ◌≡◌, refl, none, some, arith, inl, inr, ◌==◌, if◌then◌else◌,
}
use event_ticketing_platform.Types.{EtpError, not_found, io, Result, ok, err, u32_mod}
use event_ticketing_platform.Storage.Table.{
  Layout, Table, table_find_by_id, table_insert, table_update, table_delete,
}
use event_ticketing_platform.Storage.Table.Laws.{
  alive, view, IsTable, table_find_by_id_lem, table_find_by_id-some,
}
use event_ticketing_platform.Storage.Table.Insertion.{Landed, table_insert_lem}
use event_ticketing_platform.Storage.Table.Update.{Updated, table_update_lem}
use event_ticketing_platform.Storage.Table.Deletion.{Deleted, table_delete_lem}
use event_ticketing_platform.Storage.Wal.{Env}

ok_err : {A : Type 0} (a : A) (c : EtpError) → ok a ≡ err c → ⊥
ok_err a c e = ground (arith, e)

err_ok : {A : Type 0} (a : A) (c : EtpError) → err c ≡ ok a → ⊥
err_ok a c e = ground (arith, e)

module _ {R : Type 0} (L : Layout R) (t : Table R) where
  -- The record stands under the next id.
  abbrev pub Inserts : R → Table R → Type 0
  Inserts r t' =
      IsTable L t'
      × (t'.next_id ≡ t.next_id + 1)
      × ((j : ℕ)
          → j < u32_mod
          → view L t' j
            ≡ (if j == t.next_id then alive L (some (L.set_key t.next_id r)) else view L t j))

  -- The same records, with one id taken.
  abbrev pub Skips : Table R → Type 0
  Skips t' =
      IsTable L t'
      × (t'.next_id ≡ t.next_id + 1)
      × ((j : ℕ) → j < u32_mod → view L t' j ≡ view L t j)

  -- The record stands in place of that of the id.
  abbrev pub Replaces : ℕ → R → Table R → Type 0
  Replaces id r t' =
      IsTable L t'
      × (t'.next_id ≡ t.next_id)
      × ((j : ℕ) → j < u32_mod → view L t' j ≡ (if j == id then alive L (some r) else view L t j))

  -- The id shows no record.
  abbrev pub Removes : ℕ → Table R → Type 0
  Removes id t' =
      IsTable L t'
      × (t'.next_id ≡ t.next_id)
      × ((j : ℕ) → j < u32_mod → view L t' j ≡ (if j == id then none else view L t j))

module _ {S R : Type 0} (L : Layout R) (put : Table R → Env → S) (t : Table R) (env : Env) where
  pub find-cases :
      (id : ℕ) (Q : Result R × S → Type 0)
      → ((r : R) (env' : Env) → view L t id ≡ some r → Q (ok r, put t env'))
      → ((e : EtpError) (env' : Env) → Q (err e, put t env'))
      → Q (
        (table_find_by_id L id t env).0,
        put (table_find_by_id L id t env).1 (table_find_by_id L id t env).2,
      )
  find-cases id Q done failed =
      by_result (table_find_by_id L id t env).0 (table_find_by_id L id t env).1
        (table_find_by_id L id t env).2 (table_find_by_id_lem L id t env).0
        (table_find_by_id-some L id t env)
    where
      by_result :
          (r : Result R) (t' : Table R) (env' : Env)
          → t' ≡ t
          → ((q : R) → r ≡ ok q → view L t id ≡ some q)
          → Q (r, put t' env')
      by_result (ok q) t' env' e f = rw e (done q env' (f q refl))
      by_result (err c) t' env' e f = rw e (failed c env')

  pub insert-cases :
      (r : R) (Q : Result ℕ × S → Type 0)
      → IsTable L t
      → t.next_id + 1 < u32_mod
      → ((t' : Table R) (env' : Env) → Inserts L t r t' → Q (ok t.next_id, put t' env'))
      → ((e : EtpError) (t' : Table R) (env' : Env) → Skips L t t' → Q (err e, put t' env'))
      → Q ((table_insert L r t env).0, put (table_insert L r t env).1 (table_insert L r t env).2)
  insert-cases r Q v more done failed =
      by_result (table_insert L r t env).0 (table_insert L r t env).1 (table_insert L r t env).2
        (table_insert_lem L t r env v more)
    where
      by_result :
          (o : Result ℕ) (t' : Table R) (env' : Env)
          → Landed L t r (o, t', env')
          → Q (o, put t' env')
      by_result o t' env' ((v', m), inl (e, law)) = rw e (done t' env' (v', m, law))
      by_result o t' env' ((v', m), inr ((c, e), law)) = rw e (failed c t' env' (v', m, law))

  pub update-cases :
      (id : ℕ) (r : R) (Q : Result (Unit {0}) × S → Type 0)
      → IsTable L t
      → id < u32_mod
      → L.key r ≡ id
      → ((t' : Table R) (env' : Env) → Replaces L t id r t' → Q (ok tt, put t' env'))
      → ((e : EtpError) (env' : Env) → Q (err e, put t env'))
      → Q (
        (table_update L id r t env).0,
        put (table_update L id r t env).1 (table_update L id r t env).2,
      )
  update-cases id r Q v small keyed done failed =
      by_result (table_update L id r t env).0 (table_update L id r t env).1
        (table_update L id r t env).2 (table_update_lem L id r t env v small keyed)
    where
      by_result :
          (o : Result (Unit {0})) (t' : Table R) (env' : Env)
          → Updated L t id r (o, t', env')
          → Q (o, put t' env')
      by_result o t' env' (inl (e, old, v', n, law)) = rw e (done t' env' (v', n, law))
      by_result o t' env' (inr (same, inl e)) = rw (e, same) (failed io env')
      by_result o t' env' (inr (same, inr (e, _))) = rw (e, same) (failed not_found env')

  pub delete-cases :
      (id : ℕ) (Q : Result (Unit {0}) × S → Type 0)
      → IsTable L t
      → id < u32_mod
      → ((t' : Table R) (env' : Env) → Removes L t id t' → Q (ok tt, put t' env'))
      → ((e : EtpError) (env' : Env) → Q (err e, put t env'))
      → Q ((table_delete L id t env).0, put (table_delete L id t env).1 (table_delete L id t env).2)
  delete-cases id Q v small done failed =
      by_result (table_delete L id t env).0 (table_delete L id t env).1 (table_delete L id t env).2
        (table_delete_lem L id t env v small)
    where
      by_result :
          (o : Result (Unit {0})) (t' : Table R) (env' : Env)
          → Deleted L t id (o, t', env')
          → Q (o, put t' env')
      by_result o t' env' (inl (e, old, v', n, law)) = rw e (done t' env' (v', n, law))
      by_result o t' env' (inr (same, inl e)) = rw (e, same) (failed io env')
      by_result o t' env' (inr (same, inr (e, _))) = rw (e, same) (failed not_found env')
