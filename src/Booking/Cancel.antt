-- ===== src/Booking/Cancel.antt =====
-- `booking_cancel` of server/core/booking_engine.c, and the reads of bookings. A thread that must wait
-- for a lock leaves the model with `none`; what it does once it holds the lock of the booking is
-- `cancel_held`, with the lock of a seat `release_seat`, which start from any state.
pub mod Ids
pub mod Freed
pub mod Release
pub mod Close
pub mod Laws
use event_ticketing_platform.Base.{
  ℕ, Bool, true, false, Option, none, some, List, [], ◌∷◌, ◌==◌, ◌&&◌, if◌then◌else◌, map,
}
use event_ticketing_platform.Types.{seats, bookings, not_found, generic, auth, io, Result, ok, err}
use event_ticketing_platform.Records.{
  SeatRecord, BookingRecord, BookingSeatRecord, Images, seat_layout, booking_layout,
  booking_seat_layout, seat_available, booking_confirmed, booking_cancelled,
}
use event_ticketing_platform.Storage.Table.{table_find_by_id, table_update, table_scan}
use event_ticketing_platform.Server.{
  Server, Action, ◌>>=◌, ◌>>◌, return, on_seats, on_bookings, begin, or_abort, abort_with, commit,
  acquire,
}
use event_ticketing_platform.Booking.{max_seats_per_booking, sort_seat_ids}

abbrev pub filter_booking_seats : ℕ → BookingSeatRecord → Bool
filter_booking_seats target_booking_id bs = bs.booking_id == target_booking_id

abbrev pub filter_by_user : {Price : Type 0} → ℕ → BookingRecord Price → Bool
filter_by_user target_user_id b = b.user_id == target_user_id && b.status == booking_confirmed

module _ {Price : Type 0} (images : Images Price) where
  -- The ids of the seats that the scan of the junction table finds, at most ten. Only the ids of the
  -- junction records are read after the scan.
  unfoldable pub booked_seat_ids : ℕ → Action Price (List ℕ)
  booked_seat_ids booking_id s =
      let r =
        table_scan (booking_seat_layout images) (filter_booking_seats booking_id)
          max_seats_per_booking s.booking_seats_table s.env in
      (ok (map (λ (bs : BookingSeatRecord). bs.seat_id) r.0), record s { env = r.1 })

  abbrev pub freed : SeatRecord → SeatRecord
  freed seat = record seat { status = seat_available; booked_by = 0 }

  -- The seat as it was found, changed and written back; a seat that is not found is passed over.
  unfoldable pub release_found :
      ℕ → ℕ → Result SeatRecord × Server Price → Result (Unit {0}) × Server Price
  release_found txn_id id (ok seat, s) =
      or_abort txn_id (λ _. io) (on_seats (table_update (seat_layout images) id (freed seat))) s
  release_found txn_id id (err e, s) = (ok tt, s)

  unfoldable pub release_seat : ℕ → ℕ → Action Price (Unit {0})
  unfolding release_found
  release_seat txn_id id s =
      release_found txn_id id (on_seats (table_find_by_id (seat_layout images) id) s)

  unfoldable pub release_seats : ℕ → List ℕ → Action Price Bool
  unfolding release_seat
  release_seats txn_id [] = return true
  release_seats txn_id (id ∷ ids) = acquire txn_id seats id >>= λ held.
      if held then (release_seat txn_id id >> release_seats txn_id ids) else return false

  -- The booking is marked, and the transaction committed, unless the thread waits for a seat.
  unfoldable pub close_cancel :
      ℕ → ℕ → BookingRecord Price → Bool → Action Price (Option (Unit {0}))
  close_cancel txn_id booking_id booking held =
      if held
      then (or_abort txn_id (λ _. io)
            (on_bookings (
              table_update (booking_layout images) booking_id
                (record booking { status = booking_cancelled })))
          >> (commit txn_id >> return (some tt)))
      else return none

  -- The seats of a booking that the caller may cancel.
  unfoldable pub cancel_checked : ℕ → ℕ → BookingRecord Price → Action Price (Option (Unit {0}))
  unfolding booked_seat_ids release_seats close_cancel
  cancel_checked txn_id booking_id booking = booked_seat_ids booking_id >>= λ ids.
      release_seats txn_id (sort_seat_ids ids) >>= λ held.
      close_cancel txn_id booking_id booking held

  -- The tests of the owner and of the status.
  unfoldable pub check_booking : ℕ → ℕ → BookingRecord Price → Action Price (Unit {0})
  check_booking txn_id user_id booking =
      if booking.user_id == user_id
      then (if booking.status == booking_confirmed then return tt else abort_with txn_id generic)
      else abort_with txn_id auth

  unfoldable pub cancel_held : Bool → ℕ → ℕ → ℕ → Action Price (Option (Unit {0}))
  unfolding check_booking cancel_checked
  cancel_held held txn_id booking_id user_id =
      if held
      then (or_abort txn_id (λ _. not_found)
            (on_bookings (table_find_by_id (booking_layout images) booking_id))
          >>= λ booking.
              check_booking txn_id user_id booking >> cancel_checked txn_id booking_id booking)
      else return none

  unfoldable pub booking_cancel : ℕ → ℕ → Action Price (Option (Unit {0}))
  unfolding cancel_held
  booking_cancel booking_id user_id = begin >>= λ txn_id.
      acquire txn_id bookings booking_id >>= λ held. cancel_held held txn_id booking_id user_id

  unfoldable pub booking_get : ℕ → Action Price (BookingRecord Price)
  booking_get booking_id = on_bookings (table_find_by_id (booking_layout images) booking_id)

  unfoldable pub booking_list_by_user : ℕ → ℕ → Action Price (List (BookingRecord Price))
  booking_list_by_user user_id max_results s =
      let r =
        table_scan (booking_layout images) (filter_by_user user_id) max_results s.bookings_table
          s.env in
      (ok r.0, record s { env = r.1 })
