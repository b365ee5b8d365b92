-- ===== src/Types.antt =====
-- common/types.h: identifiers, enumerations and result codes.
use event_ticketing_platform.Base.{ℕ, ◌^◌, ◌≡◌, arith}

-- The number of values of a `uint32_t` and of a `uint64_t`.
abbrev pub u32_mod : ℕ
u32_mod = 2 ^ 32

abbrev pub u64_mod : ℕ
u64_mod = 2 ^ 64

-- INVALID_PAGE_ID, INVALID_TXN_ID and INVALID_LSN.
abbrev pub invalid_page_id : ℕ
invalid_page_id = 0xFFFFFFFF

abbrev pub invalid_txn_id : ℕ
invalid_txn_id = 0

abbrev pub invalid_lsn : ℕ
invalid_lsn = 0

pub data TableId : Type 0 where
  users events seats bookings booking_seats : TableId

-- The enumeration's number.
abbrev pub table_code : TableId → ℕ
table_code users = 0
table_code events = 1
table_code seats = 2
table_code bookings = 3
table_code booking_seats = 4

pub data LockType : Type 0 where
  lock_shared lock_exclusive : LockType

pub data WalOp : Type 0 where
  wal_insert wal_update wal_delete wal_commit wal_abort wal_checkpoint : WalOp

abbrev pub op_code : WalOp → ℕ
op_code wal_insert = 1
op_code wal_update = 2
op_code wal_delete = 3
op_code wal_commit = 4
op_code wal_abort = 5
op_code wal_checkpoint = 6

-- `etp_result_t` without its `ETP_OK`.
pub data EtpError : Type 0 where
  generic not_found duplicate full io lock_conflict auth permission : EtpError
  invalid_arg txn_abort no_memory corruption seat_unavail already_exists : EtpError

-- `etp_record_size`: the bytes of one record.
abbrev pub record_size : TableId → ℕ
record_size users = 128
record_size events = 192
record_size seats = 32
record_size bookings = 64
record_size booking_seats = 16

pub table_code-injective : (s t : TableId) → table_code s ≡ table_code t → s ≡ t
table_code-injective s t h = ground arith

-- ETP_OK with what the call delivers, or an error code.
pub data Result {ℓ} (A : Type ℓ) : Type ℓ where
  ok : A → Result A
  err : EtpError → Result A
