-- ===== src/Events.antt =====
-- server/core/event_mgr.c: the events and the seats that are made with them.
pub mod Seats
pub mod Laws
mod Tests
use event_ticketing_platform.Base.{
  ℕ, zero, suc, ◌+◌, ◌-◌, Bool, true, false, not, ◌||◌, ◌&&◌, List, ltb, ◌==◌, if◌then◌else◌, take,
}
use event_ticketing_platform.Types.{EtpError, invalid_arg, Result, ok, err}
use event_ticketing_platform.Records.{
  EventRecord, SeatRecord, Images, event_layout, seat_layout, seat_available, event_active,
}
use event_ticketing_platform.Storage.Table.{
  table_insert, table_find_by_id, table_delete, table_scan,
}
use event_ticketing_platform.Server.{Server, Action, ◌>>=◌, ◌>>◌, return, fail, on_events, on_seats}

-- MAX_SEAT_ROWS and MAX_SEATS_PER_ROW.
abbrev pub max_seat_rows : ℕ
max_seat_rows = 26

abbrev pub max_seats_per_row : ℕ
max_seats_per_row = 100

-- The seat in the row and place, from which the table engine makes its record.
abbrev pub new_seat : ℕ → ℕ → ℕ → SeatRecord
new_seat event_id row snum = record {
  seat_id = 0;
  event_id = event_id;
  row_label = 65 + row;
  seat_number = snum;
  status = seat_available;
  booked_by = 0;
  is_deleted = false;
}

-- `etp_strlcpy` into a field of `size` bytes.
abbrev pub copied : ℕ → List ℕ → List ℕ
copied size text = take (size - 1) text

abbrev pub new_event :
    {Price : Type 0} → List ℕ → List ℕ → List ℕ → List ℕ → ℕ → ℕ → ℕ → Price → EventRecord Price
new_event name venue date time_str organizer_id total_rows seats_per_row price = record {
  event_id = 0;
  name = copied 64 name;
  venue = copied 64 venue;
  event_date = copied 11 date;
  event_time = copied 6 time_str;
  organizer_id = organizer_id;
  total_rows = total_rows;
  seats_per_row = seats_per_row;
  price = price;
  status = event_active;
  is_deleted = false;
}

-- The failure of a step is passed over.
abbrev pub ignored : {P A : Type 0} → Result A × Server P → Result (Unit {0}) × Server P
ignored (ok a, s) = (ok tt, s)
ignored (err e, s) = (ok tt, s)

-- `price_valid` is `isfinite(price) && price >= 0`.
abbrev pub valid_event : Bool → ℕ → ℕ → Bool
valid_event price_valid total_rows seats_per_row =
    price_valid
    && not (total_rows == 0 || ltb max_seat_rows total_rows)
    && not (seats_per_row == 0 || ltb max_seats_per_row seats_per_row)

module _ {Price : Type 0} (images : Images Price) where
  unfoldable pub make_seat : ℕ → ℕ → ℕ → Action Price (Unit {0})
  make_seat event_id row snum s =
      ignored (on_seats (table_insert (seat_layout images) (new_seat event_id row snum)) s)

  -- The inner loop: `left` seats from the place `snum` on.
  unfoldable pub make_row : ℕ → ℕ → ℕ → ℕ → Action Price (Unit {0})
  unfolding make_seat
  make_row event_id row snum zero = return tt
  make_row event_id row snum (suc left) =
      make_seat event_id row snum >> make_row event_id row (snum + 1) left

  -- The outer loop: `left` rows from the row `row` on.
  unfoldable pub make_rows : ℕ → ℕ → ℕ → ℕ → Action Price (Unit {0})
  unfolding make_row
  make_rows event_id seats_per_row row zero = return tt
  make_rows event_id seats_per_row row (suc left) =
      make_row event_id row 1 seats_per_row >> make_rows event_id seats_per_row (row + 1) left

  unfoldable pub event_mgr_create_event :
      (Price → Bool) → List ℕ → List ℕ → List ℕ → List ℕ → ℕ → ℕ → ℕ → Price → Action Price ℕ
  unfolding make_rows
  event_mgr_create_event price_valid name venue date time_str organizer_id total_rows seats_per_row
        price =
      if valid_event (price_valid price) total_rows seats_per_row
      then (on_events (
            table_insert (event_layout images)
              (new_event name venue date time_str organizer_id total_rows seats_per_row price))
          >>= λ event_id. make_rows event_id seats_per_row 0 total_rows >> return event_id)
      else fail invalid_arg

  unfoldable pub event_mgr_get_event : ℕ → Action Price (EventRecord Price)
  event_mgr_get_event event_id = on_events (table_find_by_id (event_layout images) event_id)

  abbrev pub filter_active_events : EventRecord Price → Bool
  filter_active_events evt = evt.status == event_active

  unfoldable pub event_mgr_list_events : ℕ → Action Price (List (EventRecord Price))
  event_mgr_list_events max_results s =
      let r =
        table_scan (event_layout images) filter_active_events max_results s.events_table s.env in
      (ok r.0, record s { env = r.1 })

  abbrev pub filter_by_event : ℕ → SeatRecord → Bool
  filter_by_event target_event_id seat = seat.event_id == target_event_id

  unfoldable pub event_mgr_get_seats : ℕ → ℕ → Action Price (List SeatRecord)
  event_mgr_get_seats event_id max_results s =
      let r =
        table_scan (seat_layout images) (filter_by_event event_id) max_results s.seats_table
          s.env in
      (ok r.0, record s { env = r.1 })

  unfoldable pub event_mgr_delete_event : ℕ → Action Price (Unit {0})
  event_mgr_delete_event event_id = on_events (table_delete (event_layout images) event_id)
