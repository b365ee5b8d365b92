-- ===== src/Storage/Wal/Laws.antt =====
-- What an append to the log of server/storage/wal.c leaves in the file.
use event_ticketing_platform.Base.{
  ℕ, ◌+◌, ◌%◌, ◌≡◌, refl, Bool, true, false, ◌⊎◌, inl, inr, Bool-cases, Option, List, [], ◌∷◌, ◌++◌,
  arith, ◌==◌, if◌then◌else◌,
}
use event_ticketing_platform.Types.{TableId, WalOp, u64_mod, invalid_lsn}
use event_ticketing_platform.Storage.Wal.{
  Env, WalHeader, WalEntry, whole, torn_header, torn_old, torn_new, fails, after_call, zeros_or,
  wal_append,
}

abbrev header_of : Env → ℕ → WalOp → TableId → ℕ → ℕ → WalHeader
header_of env txn_id op_type table record_id data_size = record {
  lsn = env.wal.next_lsn;
  txn_id = txn_id;
  op_type = op_type;
  table_id = table;
  data_size = data_size;
  record_id = record_id;
}

-- The entry of a call: both images have `data_size` bytes, zeros for an image that is not given.
abbrev pub entry_of :
    Env → ℕ → WalOp → TableId → ℕ → Option (List ℕ) → Option (List ℕ) → ℕ → WalEntry
entry_of env txn_id op_type table record_id old new data_size =
    if data_size == 0
    then whole (header_of env txn_id op_type table record_id data_size) [] []
    else whole (header_of env txn_id op_type table record_id data_size) (zeros_or data_size old)
        (zeros_or data_size new)

-- What the file can be left with when the writing breaks off.
abbrev pub is_torn : WalEntry → Bool
is_torn (whole header old new) = false
is_torn torn_header = true
is_torn (torn_old header) = true
is_torn (torn_new header old) = true

-- `wal_append` adds the whole entry at the end of the file, delivers its LSN and goes on to the next
-- one, or it adds one torn piece, delivers INVALID_LSN and takes no LSN. What the file held before and
-- the flushed LSN stay.
pub wal_append_lem :
    (env : Env) (txn_id : ℕ) (op_type : WalOp) (table : TableId) (record_id : ℕ)
    (old new : Option (List ℕ)) (data_size : ℕ)
    → ((wal_append env txn_id op_type table record_id old new data_size).1.wal.flushed_lsn
        ≡ env.wal.flushed_lsn)
      × ((((wal_append env txn_id op_type table record_id old new data_size).0 ≡ env.wal.next_lsn)
            × ((wal_append env txn_id op_type table record_id old new data_size).1.wal.next_lsn
                ≡ (env.wal.next_lsn + 1) % u64_mod)
            × ((wal_append env txn_id op_type table record_id old new data_size).1.wal.file
                ≡ env.wal.file
                  ++ entry_of env txn_id op_type table record_id old new data_size ∷ []))
          ⊎ (((wal_append env txn_id op_type table record_id old new data_size).0 ≡ invalid_lsn)
              × ((wal_append env txn_id op_type table record_id old new data_size).1.wal.next_lsn
                  ≡ env.wal.next_lsn)
              × ((piece : WalEntry) × (is_torn piece ≡ true)
                  × ((wal_append env txn_id op_type table record_id old new data_size).1.wal.file
                      ≡ env.wal.file ++ piece ∷ []))))
unfolding wal_append
wal_append_lem env txn_id op_type table record_id old new data_size = (
  ground arith,
  elim (Bool-cases (fails env)) [
    | inl f ↦ inr (ground arith, ground arith, (torn_header, refl, ground arith))
    | inr f ↦ elim (Bool-cases (data_size == 0)) [
      | inl z ↦ inl (ground arith, ground arith, ground arith)
      | inr n ↦ elim (Bool-cases (fails (after_call env))) [
        | inl g ↦ inr (
          ground arith,
          ground arith,
          (torn_old (header_of env txn_id op_type table record_id data_size), refl, ground arith),
        )
        | inr g ↦ elim (Bool-cases (fails (after_call (after_call env)))) [
          | inl h ↦ inr (
            ground arith,
            ground arith,
            (
              torn_new (header_of env txn_id op_type table record_id data_size)
                  (zeros_or data_size old),
              refl,
              ground arith,
            ),
          )
          | inr h ↦ inl (ground arith, ground arith, ground arith)
        ]
      ]
    ]
  ],
)
