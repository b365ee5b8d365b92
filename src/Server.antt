-- ===== src/Server.antt =====
-- The shared state behind server/core: the tables, the transactions, the locks and what the operating
-- system answers. An action delivers a value or an error code, and the state after it.
pub mod Faults
pub mod Rules
pub mod Stores
pub mod Empty
use event_ticketing_platform.Base.{ℕ, Bool, true, false, not, ◌==◌, if◌then◌else◌}
use event_ticketing_platform.Types.{
  TableId, LockType, lock_exclusive, invalid_txn_id, EtpError, generic, io, Result, ok, err,
}
use event_ticketing_platform.Records.{
  UserRecord, EventRecord, SeatRecord, BookingRecord, BookingSeatRecord,
}
use event_ticketing_platform.Storage.Table.{Table, M}
use event_ticketing_platform.Storage.Wal.{Env, fails, after_call}
use event_ticketing_platform.Txn.Locks.{LockManager}
use event_ticketing_platform.Txn.Manager.{
  TxnManager, LockReply, locked, refused, asleep, txn_begin, txn_commit, txn_abort, txn_lock,
}

pub record Server (Price : Type 0) : Type 0 where
  pub users_table : Table UserRecord
  pub events_table : Table (EventRecord Price)
  pub seats_table : Table SeatRecord
  pub bookings_table : Table (BookingRecord Price)
  pub booking_seats_table : Table BookingSeatRecord
  pub txn_mgr : TxnManager
  pub lock_mgr : LockManager
  pub env : Env

abbrev pub Action : Type 0 → Type 0 → Type 0
Action Price A = Server Price → Result A × Server Price

-- The rest of an action after a part of it.
abbrev pub then_do : {P A B : Type 0} → Result A × Server P → (A → Action P B) → Result B × Server P
then_do (ok a, s) k = k a s
then_do (err e, s) k = (err e, s)

infixl 5 ◌>>=◌ ◌>>◌
abbrev pub ◌>>=◌ : {P A B : Type 0} → Action P A → (A → Action P B) → Action P B
◌>>=◌ m k s = then_do (m s) k

abbrev pub ◌>>◌ : {P B : Type 0} → Action P (Unit {0}) → Action P B → Action P B
m >> k = m >>= λ _. k

module _ {P : Type 0} where
  abbrev pub return : {A : Type 0} → A → Action P A
  return a s = (ok a, s)

  abbrev pub fail : {A : Type 0} → EtpError → Action P A
  fail e s = (err e, s)

  abbrev pub on_users : {A : Type 0} → M UserRecord A → Action P A
  on_users m s = let r = m s.users_table s.env in (r.0, record s { users_table = r.1; env = r.2 })

  abbrev pub on_events : {A : Type 0} → M (EventRecord P) A → Action P A
  on_events m s =
      let r = m s.events_table s.env in (r.0, record s { events_table = r.1; env = r.2 })

  abbrev pub on_seats : {A : Type 0} → M SeatRecord A → Action P A
  on_seats m s = let r = m s.seats_table s.env in (r.0, record s { seats_table = r.1; env = r.2 })

  abbrev pub on_bookings : {A : Type 0} → M (BookingRecord P) A → Action P A
  on_bookings m s =
      let r = m s.bookings_table s.env in (r.0, record s { bookings_table = r.1; env = r.2 })

  abbrev pub on_booking_seats : {A : Type 0} → M BookingSeatRecord A → Action P A
  on_booking_seats m s =
      let r = m s.booking_seats_table s.env in
      (r.0, record s { booking_seats_table = r.1; env = r.2 })

  -- The id, or ETP_ERR_GENERIC for INVALID_TXN_ID.
  abbrev pub begin : Action P ℕ
  begin s =
      let r = txn_begin s.txn_mgr in
      (if r.0 == invalid_txn_id then err generic else ok r.0, record s { txn_mgr = r.1 })

  -- The state after `txn_abort`, whose return code no caller in server/core reads.
  abbrev pub aborted : ℕ → Server P → Server P
  aborted txn_id s =
      let r = txn_abort s.txn_mgr s.lock_mgr s.env txn_id in
      record s { txn_mgr = r.1; lock_mgr = r.2; env = r.3 }

  -- `txn_abort`, and the error that the caller returns.
  abbrev pub abort_with : {A : Type 0} → ℕ → EtpError → Action P A
  abort_with txn_id code s = (err code, aborted txn_id s)

  abbrev pub abort_on_error :
      {A : Type 0} → ℕ → (EtpError → EtpError) → Result A × Server P → Result A × Server P
  abort_on_error txn_id code (ok a, s) = (ok a, s)
  abort_on_error txn_id code (err e, s) = (err (code e), aborted txn_id s)

  -- A step whose failure aborts the transaction, with the code that the caller makes of it.
  abbrev pub or_abort : {A : Type 0} → ℕ → (EtpError → EtpError) → Action P A → Action P A
  or_abort txn_id code m s = abort_on_error txn_id code (m s)

  -- `txn_commit`; its failure, after which the transaction is aborted, is ETP_ERR_IO.
  abbrev pub commit : ℕ → Action P (Unit {0})
  commit txn_id s =
      let r = txn_commit s.txn_mgr s.lock_mgr s.env txn_id in
      (if r.0 then ok tt else err io, record s { txn_mgr = r.1; lock_mgr = r.2; env = r.3 })

  -- What becomes of an exclusive lock: `true` for a lock that is held, `false` for a thread that sleeps
  -- in the lock manager, and the abort when it is refused. `calloc` fails as the other calls do.
  abbrev pub settled : ℕ → LockReply → Action P Bool
  settled txn_id locked = return true
  settled txn_id asleep = return false
  settled txn_id refused = abort_with txn_id generic

  abbrev pub acquire : ℕ → TableId → ℕ → Action P Bool
  acquire txn_id table record_id s =
      let r =
        txn_lock s.txn_mgr s.lock_mgr txn_id table record_id lock_exclusive (not (fails s.env)) in
      settled txn_id r.0 (record s { txn_mgr = r.1; lock_mgr = r.2; env = after_call s.env })
