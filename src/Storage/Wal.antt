-- ===== src/Storage/Wal.antt =====
-- server/storage/wal.c: the write-ahead log. The file is the list of its records; a record whose
-- writing broke off leaves a torn piece. The operating system decides each call's success: `faults`
-- lists its answers to come, `true` for a failure, and calls beyond the list succeed.
pub mod Laws
use event_ticketing_platform.Base.{
  ℕ, zero, suc, ◌+◌, ◌-◌, ◌%◌, Bool, true, false, Option, none, some, List, [], ◌∷◌, ◌++◌, ◌==◌,
  if◌then◌else◌, replicate,
}
use event_ticketing_platform.Types.{
  TableId, users, table_code, WalOp, wal_insert, wal_update, wal_delete, wal_commit, wal_abort,
  op_code, u64_mod, invalid_lsn,
}

pub record WalHeader : Type 0 where
  pub lsn : ℕ
  pub txn_id : ℕ
  pub op_type : WalOp
  pub table_id : TableId
  pub data_size : ℕ
  pub record_id : ℕ

pub data WalEntry : Type 0 where
  whole : WalHeader → List ℕ → List ℕ → WalEntry
  torn_header : WalEntry
  torn_old : WalHeader → WalEntry
  torn_new : WalHeader → List ℕ → WalEntry

pub record Wal : Type 0 where
  pub file : List WalEntry
  pub next_lsn : ℕ
  pub flushed_lsn : ℕ

-- The log, and what the operating system will answer.
pub record Env : Type 0 where
  pub wal : Wal
  pub faults : List Bool

-- Does the next call into the operating system fail?
abbrev pub fails : Env → Bool
fails env = elim env.faults [ [] ↦ false | f ∷ fs ↦ f ]

abbrev pub after_call : Env → Env
after_call env = elim env.faults [ [] ↦ env | f ∷ fs ↦ record { wal = env.wal; faults = fs } ]

abbrev pub log_entry : Env → WalEntry → Env
log_entry env entry = record {
  wal = record env.wal { file = env.wal.file ++ entry ∷ [] };
  faults = env.faults;
}

abbrev pub zeros_or : ℕ → Option (List ℕ) → List ℕ
zeros_or size none = replicate size 0
zeros_or size (some bytes) = bytes

-- The entry is complete, and the LSN is taken.
abbrev pub logged : Env → WalEntry → ℕ × Env
logged env entry = (
  env.wal.next_lsn,
  record {
    wal = record {
      file = env.wal.file ++ entry ∷ [];
      next_lsn = (env.wal.next_lsn + 1) % u64_mod;
      flushed_lsn = env.wal.flushed_lsn;
    };
    faults = env.faults;
  },
)

-- The two data images: each is one `write`.
unfoldable pub append_data : Env → WalHeader → List ℕ → List ℕ → ℕ × Env
append_data env header old new =
    let env' = after_call env in
    if fails env
    then (invalid_lsn, log_entry env' (torn_old header))
    else if fails env'
    then (invalid_lsn, log_entry (after_call env') (torn_new header old))
    else logged (after_call env') (whole header old new)

unfoldable pub wal_append :
    Env → ℕ → WalOp → TableId → ℕ → Option (List ℕ) → Option (List ℕ) → ℕ → ℕ × Env
unfolding append_data
wal_append env txn_id op_type table record_id old_data new_data data_size =
    let header : WalHeader = record {
      lsn = env.wal.next_lsn;
      txn_id = txn_id;
      op_type = op_type;
      table_id = table;
      data_size = data_size;
      record_id = record_id;
    } in
    if fails env
    then (invalid_lsn, log_entry (after_call env) torn_header)
    else if data_size == 0
    then logged (after_call env) (whole header [] [])
    else append_data (after_call env) header (zeros_or data_size old_data)
        (zeros_or data_size new_data)

unfoldable pub wal_log_insert : Env → ℕ → TableId → ℕ → List ℕ → ℕ → ℕ × Env
wal_log_insert env txn_id table record_id new_data data_size =
    wal_append env txn_id wal_insert table record_id none (some new_data) data_size

unfoldable pub wal_log_update : Env → ℕ → TableId → ℕ → List ℕ → List ℕ → ℕ → ℕ × Env
wal_log_update env txn_id table record_id old_data new_data data_size =
    wal_append env txn_id wal_update table record_id (some old_data) (some new_data) data_size

unfoldable pub wal_log_delete : Env → ℕ → TableId → ℕ → List ℕ → ℕ → ℕ × Env
wal_log_delete env txn_id table record_id old_data data_size =
    wal_append env txn_id wal_delete table record_id (some old_data) none data_size

unfoldable pub wal_log_commit : Env → ℕ → ℕ × Env
wal_log_commit env txn_id = wal_append env txn_id wal_commit users 0 none none 0

unfoldable pub wal_log_abort : Env → ℕ → ℕ × Env
wal_log_abort env txn_id = wal_append env txn_id wal_abort users 0 none none 0

-- `true` for the return value 0.
unfoldable pub wal_flush : Env → Bool × Env
wal_flush env =
    let env' = after_call env in
    if fails env then (false, env') else (
      true,
      record {
        wal = record env'.wal { flushed_lsn = (env'.wal.next_lsn + u64_mod - 1) % u64_mod };
        faults = env'.faults;
      },
    )
