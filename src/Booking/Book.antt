-- ===== src/Booking/Book.antt =====
-- `booking_book_seats` of server/core/booking_engine.c, from its first test to the commit. A thread
-- that must wait for a lock leaves the model with `none`; what it does once all its locks are held is
-- `book_locked`, which starts from any state.
pub mod Check
pub mod Writes
pub mod Laws
pub mod Locking
pub mod Call
pub mod Twice
use event_ticketing_platform.Base.{
  ℕ, ◌%◌, Bool, true, false, Option, none, some, List, [], ◌∷◌, ◌==◌, if◌then◌else◌, length,
}
use event_ticketing_platform.Types.{
  TableId, seats, EtpError, invalid_arg, not_found, generic, seat_unavail, Result, ok, err,
}
use event_ticketing_platform.Records.{
  EventRecord, SeatRecord, BookingRecord, BookingSeatRecord, Images, event_layout, seat_layout,
  booking_layout, booking_seat_layout, seat_available, seat_booked, event_active, booking_confirmed,
}
use event_ticketing_platform.Storage.Table.{table_find_by_id, table_insert, table_update}
use event_ticketing_platform.Server.{
  Server, Action, then_do, ◌>>=◌, ◌>>◌, return, fail, on_events, on_seats, on_bookings,
  on_booking_seats, begin, or_abort, abort_with, commit, acquire,
}
use event_ticketing_platform.Booking.{valid_request, sort_seat_ids}

-- The caller's code in place of the callee's.
abbrev pub recoded :
    {P A : Type 0} → (EtpError → EtpError) → Result A × Server P → Result A × Server P
recoded code (ok a, s) = (ok a, s)
recoded code (err e, s) = (err (code e), s)

module _ {Price : Type 0} where
  -- Step 1: the locks of all seats, in the order of the list.
  unfoldable pub lock_seats : ℕ → List ℕ → Action Price Bool
  lock_seats txn_id [] = return true
  lock_seats txn_id (id ∷ ids) = do
    held ← acquire txn_id seats id
    if held then lock_seats txn_id ids else return false

module _ {Price : Type 0} (images : Images Price) where
  -- The tests of step 2 on one seat.
  unfoldable pub check_seat : ℕ → ℕ → SeatRecord → Action Price (Unit {0})
  check_seat txn_id event_id seat =
      if seat.event_id == event_id
      then (if seat.status == seat_available then return tt else abort_with txn_id seat_unavail)
      else abort_with txn_id invalid_arg

  -- Step 2: every seat is there, belongs to the event and is available.
  unfoldable pub verify_seats : ℕ → ℕ → List ℕ → Action Price (Unit {0})
  unfolding check_seat
  verify_seats txn_id event_id [] = return tt
  verify_seats txn_id event_id (id ∷ ids) = do
    seat ← or_abort txn_id (λ _. not_found) (on_seats (table_find_by_id (seat_layout images) id))
    check_seat txn_id event_id seat
    verify_seats txn_id event_id ids

  -- Step 4 for one seat: the junction record, then the seat's new status.
  unfoldable pub sell_seat : ℕ → ℕ → ℕ → SeatRecord → Action Price (Unit {0})
  sell_seat txn_id user_id id seat =
      or_abort txn_id (λ e. e)
        (on_seats (
          table_update (seat_layout images) id
            (record seat { status = seat_booked; booked_by = user_id })))

  unfoldable pub find_and_sell : ℕ → ℕ → ℕ → Action Price (Unit {0})
  unfolding sell_seat
  find_and_sell txn_id user_id id = do
    seat ← or_abort txn_id (λ e. e) (on_seats (table_find_by_id (seat_layout images) id))
    sell_seat txn_id user_id id seat

  unfoldable pub book_seat : ℕ → ℕ → ℕ → ℕ → Action Price (Unit {0})
  unfolding find_and_sell
  book_seat txn_id user_id booking_id id = do
    bs_id ←
        or_abort txn_id (λ e. e)
          (on_booking_seats (
            table_insert (booking_seat_layout images) (record {
              booking_id = booking_id;
              seat_id = id;
              is_deleted = false;
              junction_id = 0;
            })))
    find_and_sell txn_id user_id id

  unfoldable pub book_each : ℕ → ℕ → ℕ → List ℕ → Action Price (Unit {0})
  unfolding book_seat
  book_each txn_id user_id booking_id [] = return tt
  book_each txn_id user_id booking_id (id ∷ ids) = do
    book_seat txn_id user_id booking_id id
    book_each txn_id user_id booking_id ids

  -- The record of step 3.
  abbrev pub new_booking : ℕ → ℕ → ℕ → Price → ℕ → BookingRecord Price
  new_booking user_id event_id num_seats total now = record {
    booking_id = 0;
    user_id = user_id;
    event_id = event_id;
    seat_count = num_seats % 65536;
    total_amount = total;
    status = booking_confirmed;
    booked_at = now;
    is_deleted = false;
  }

  -- Step 4 and the commit.
  unfoldable pub close_booking : ℕ → ℕ → List ℕ → ℕ → Action Price ℕ
  unfolding book_each
  close_booking txn_id user_id seat_ids booking_id = do
    book_each txn_id user_id booking_id seat_ids
    commit txn_id
    return booking_id

  -- Step 3 and what follows.
  unfoldable pub book_verified : ℕ → ℕ → ℕ → Price → ℕ → List ℕ → Action Price ℕ
  unfolding close_booking
  book_verified txn_id user_id event_id total now seat_ids = do
    booking_id ←
        or_abort txn_id (λ e. e)
          (on_bookings (
            table_insert (booking_layout images)
              (new_booking user_id event_id (length seat_ids) total now)))
    close_booking txn_id user_id seat_ids booking_id

  -- Steps 2 to 4 and the commit, all locks being held. `total` is `evt.price * num_seats`.
  unfoldable pub book_locked : ℕ → ℕ → ℕ → Price → ℕ → List ℕ → Action Price ℕ
  unfolding verify_seats book_verified
  book_locked txn_id user_id event_id total now seat_ids = do
    verify_seats txn_id event_id seat_ids
    book_verified txn_id user_id event_id total now seat_ids

  -- From the lock of the seats on, `held` telling whether the thread has got them all.
  unfoldable pub book_held : Bool → ℕ → ℕ → ℕ → Price → ℕ → List ℕ → Action Price (Option ℕ)
  unfolding book_locked
  book_held held txn_id user_id event_id total now seat_ids =
      if held
      then (book_locked txn_id user_id event_id total now seat_ids >>= λ booking_id.
          return (some booking_id))
      else return none

  -- The transaction of an active event.
  unfoldable pub book_active : ℕ → ℕ → Price → ℕ → List ℕ → Action Price (Option ℕ)
  unfolding lock_seats book_held
  book_active user_id event_id total now seat_ids = do
    txn_id ← begin
    held ← lock_seats txn_id (sort_seat_ids seat_ids)
    book_held held txn_id user_id event_id total now (sort_seat_ids seat_ids)

  unfoldable pub find_event : ℕ → Action Price (EventRecord Price)
  find_event event_id s =
      recoded (λ _. not_found) (on_events (table_find_by_id (event_layout images) event_id) s)

  -- The whole call. `times` is the product of a `float` and an `int`, `now` the clock's answer.
  unfoldable pub booking_book_seats :
      (Price → ℕ → Price) → ℕ → ℕ → ℕ → List ℕ → Action Price (Option ℕ)
  unfolding find_event book_active
  booking_book_seats times now user_id event_id seat_ids =
      if valid_request seat_ids
      then (find_event event_id >>= λ evt.
          if evt.status == event_active
          then book_active user_id event_id (times evt.price (length seat_ids)) now seat_ids
          else fail generic)
      else fail invalid_arg
