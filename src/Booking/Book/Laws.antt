-- ===== src/Booking/Book/Laws.antt =====
-- `booking_book_seats` of server/core/booking_engine.c, once all locks are held.
use event_ticketing_platform.Base.{
  ℕ, ◌+◌, ◌<◌, ◌≡◌, sym, ap, subst, ◌∙◌, some, List, Bool, true, false, ◌==◌, if◌then◌else◌, length,
}
use event_ticketing_platform.Types.{io, Result, ok, err, u32_mod}
use event_ticketing_platform.Records.{
  BookingRecord, Images, user_layout, event_layout, seat_layout, booking_layout,
  booking_seat_layout,
}
use event_ticketing_platform.Storage.Table.{Table}
use event_ticketing_platform.Storage.Table.Laws.{view, IsTable}
use event_ticketing_platform.Storage.Wal.{Env}
use event_ticketing_platform.Txn.Manager.{txn_commit}
use event_ticketing_platform.Server.{Server, then_do, ◌>>◌, return, abort_on_error, commit}
use event_ticketing_platform.Server.Rules.{Ensures, Ensures-then, Ensures-mono}
use event_ticketing_platform.Server.Stores.{Inserts, insert-cases}
use event_ticketing_platform.Booking.{among}
use event_ticketing_platform.Booking.Book.{
  verify_seats, book_each, new_booking, book_verified, close_booking, book_locked,
}
use event_ticketing_platform.Booking.Book.Check.{Tables, tables, AllOpen, verify_seats-Ensures}
use event_ticketing_platform.Booking.Book.Writes.{
  IsSound, Sold, AllSmall, or_else, sold_if, junction_at, aborted-IsSound, book_each-Ensures,
}

module _ {Price : Type 0} (images : Images Price) where
  pub IsSound-tables :
      (s s' : Server Price) → tables s' ≡ tables s → IsSound images s → IsSound images s'
  IsSound-tables s s' e v = record {
    users = subst (IsTable (user_layout images)) (sym (ap (λ (T : Tables Price). T.0) e)) v.users;
    events =
        subst (IsTable (event_layout images)) (sym (ap (λ (T : Tables Price). T.1) e)) v.events;
    seats = subst (IsTable (seat_layout images)) (sym (ap (λ (T : Tables Price). T.2) e)) v.seats;
    bookings =
        subst (IsTable (booking_layout images)) (sym (ap (λ (T : Tables Price). T.3) e)) v.bookings;
    booking_seats =
        subst (IsTable (booking_seat_layout images)) (sym (ap (λ (T : Tables Price). T.4) e))
          v.booking_seats;
  }

  -- A confirmed booking: the seats were open and are booked now, the booking stands under its id, and
  -- each seat is tied to it. No other record has changed.
  pub record Booked (s : Server Price) (user_id event_id : ℕ) (total : Price) (now : ℕ)
      (ids : List ℕ) (booking_id : ℕ) (s' : Server Price) : Type 0 where
    pub sound : IsSound images s'
    pub were_open : AllOpen images s.seats_table event_id ids
    pub number : booking_id ≡ s.bookings_table.next_id
    pub booking :
        (j : ℕ)
        → j < u32_mod
        → view (booking_layout images) s'.bookings_table j ≡ (
            if j == booking_id
            then some (record (new_booking images user_id event_id (length ids) total now) {
              booking_id = booking_id;
            })
            else view (booking_layout images) s.bookings_table j)
    pub seats :
        (j : ℕ)
        → j < u32_mod
        → view (seat_layout images) s'.seats_table j
          ≡ sold_if (among j ids) user_id (view (seat_layout images) s.seats_table j)
    pub junctions :
        (j : ℕ)
        → j < u32_mod
        → view (booking_seat_layout images) s'.booking_seats_table j
          ≡ or_else
              (junction_at booking_id s.booking_seats_table.next_id ids j)
              (view (booking_seat_layout images) s.booking_seats_table j)
    pub same_users : s'.users_table ≡ s.users_table
    pub same_events : s'.events_table ≡ s.events_table

  -- What holds of the state after the commit holds whichever way the commit answers.
  pub commit-Ensures :
      (txn_id : ℕ) (s : Server Price) (Q : Server Price → Type 0)
      → Q (commit txn_id s).1
      → Ensures (commit txn_id s) (λ _ s'. Q s') (λ e s'. Q s')
  commit-Ensures txn_id s Q q = by_answer (txn_commit s.txn_mgr s.lock_mgr s.env txn_id).0
    where
      by_answer :
          (b : Bool)
          → Ensures (if b then ok tt else err io, (commit txn_id s).1) (λ _ s'. Q s') (λ e s'. Q s')
      by_answer true = q
      by_answer false = q

  -- From the state `s1`, which has the tables of `s`, with the booking in the table `t`.
  module _ (s s1 : Server Price) (same : tables s1 ≡ tables s) (v1 : IsSound images s1)
      (txn_id user_id event_id : ℕ) (total : Price) (now : ℕ) (ids : List ℕ)
      (all_open : AllOpen images s.seats_table event_id ids) where
    abbrev Closes : Result ℕ × Server Price → Type 0
    Closes o =
        Ensures o (λ booking_id s'. Booked s user_id event_id total now ids booking_id s')
          (λ e s'. IsSound images s')

    with_bookings :
        (t : Table (BookingRecord Price)) (env : Env)
        → IsTable (booking_layout images) t
        → IsSound images (record s1 { bookings_table = t; env = env })
    with_bookings t env w = record {
      users = v1.users;
      events = v1.events;
      seats = v1.seats;
      bookings = w;
      booking_seats = v1.booking_seats;
    }

    committed :
        (t : Table (BookingRecord Price)) (env : Env) (s2 : Server Price)
        → Inserts
            (booking_layout images)
            s1.bookings_table
            (new_booking images user_id event_id (length ids) total now)
            t
        → Sold images
            (record s1 { bookings_table = t; env = env })
            user_id
            s1.bookings_table.next_id
            ids
            s2
        → Booked s user_id event_id total now ids s1.bookings_table.next_id (commit txn_id s2).1
    committed t env s2 (w, n, law) sold = record {
      sound = record {
        users = sold.sound.users;
        events = sold.sound.events;
        seats = sold.sound.seats;
        bookings = sold.sound.bookings;
        booking_seats = sold.sound.booking_seats;
      };
      were_open = all_open;
      number = ap (λ (T : Tables Price). T.3.next_id) same;
      booking = λ j k.
          ap (λ (b : Table (BookingRecord Price)). view (booking_layout images) b j)
            sold.same_bookings
          ∙ law j k
          ∙ ap
              (λ (T : Tables Price).
                if j == s1.bookings_table.next_id
                then some (record (new_booking images user_id event_id (length ids) total now) {
                  booking_id = s1.bookings_table.next_id;
                })
                else view (booking_layout images) T.3 j)
              same;
      seats = λ j k.
          sold.seats j k
          ∙ ap
              (λ (T : Tables Price).
                sold_if (among j ids) user_id (view (seat_layout images) T.2 j))
              same;
      junctions = λ j k.
          sold.junctions j k
          ∙ ap
              (λ (T : Tables Price).
                or_else (junction_at s1.bookings_table.next_id T.4.next_id ids j)
                  (view (booking_seat_layout images) T.4 j))
              same;
      same_users = sold.same_users ∙ ap (λ (T : Tables Price). T.0) same;
      same_events = sold.same_events ∙ ap (λ (T : Tables Price). T.1) same;
    }

    closed :
        (t : Table (BookingRecord Price)) (env : Env)
        → AllSmall images ids
        → s1.booking_seats_table.next_id + length ids < u32_mod
        → Inserts
            (booking_layout images)
            s1.bookings_table
            (new_booking images user_id event_id (length ids) total now)
            t
        → Closes (
            close_booking images txn_id user_id ids s1.bookings_table.next_id
              (record s1 { bookings_table = t; env = env }))
    unfolding close_booking
    closed t env small many w =
        Ensures-then
          (book_each images txn_id user_id s1.bookings_table.next_id ids
            (record s1 { bookings_table = t; env = env }))
          (λ _. commit txn_id >> return s1.bookings_table.next_id)
          (λ _ s'.
            Sold images (record s1 { bookings_table = t; env = env }) user_id
              s1.bookings_table.next_id ids s')
          (λ booking_id s'. Booked s user_id event_id total now ids booking_id s')
          (λ e s'. IsSound images s')
          (book_each-Ensures images txn_id user_id s1.bookings_table.next_id ids
            (record s1 { bookings_table = t; env = env }) (with_bookings t env w.0) small many)
          (λ _ s2 sold.
            Ensures-then (commit txn_id s2) (λ _. return s1.bookings_table.next_id)
              (λ _ s'. Booked s user_id event_id total now ids s1.bookings_table.next_id s')
              (λ booking_id s'. Booked s user_id event_id total now ids booking_id s')
              (λ e s'. IsSound images s')
              (Ensures-mono (commit txn_id s2)
                (λ _ s'. Booked s user_id event_id total now ids s1.bookings_table.next_id s')
                (λ _ s'. Booked s user_id event_id total now ids s1.bookings_table.next_id s')
                (λ e s'. Booked s user_id event_id total now ids s1.bookings_table.next_id s')
                (λ e s'. IsSound images s')
                (commit-Ensures txn_id s2
                  (λ s'. Booked s user_id event_id total now ids s1.bookings_table.next_id s')
                  (committed t env s2 w sold))
                (λ _ s' h. h) (λ e s' h. h.sound))
              (λ _ s3 h. h))

    verified :
        AllSmall images ids
        → s1.bookings_table.next_id + 1 < u32_mod
        → s1.booking_seats_table.next_id + length ids < u32_mod
        → Closes (book_verified images txn_id user_id event_id total now ids s1)
    unfolding book_verified
    verified small room many =
        insert-cases (booking_layout images) (λ t env. record s1 { bookings_table = t; env = env })
          s1.bookings_table s1.env (new_booking images user_id event_id (length ids) total now)
          (λ o. Closes (
            then_do (abort_on_error txn_id (λ e. e) o)
              (λ booking_id. close_booking images txn_id user_id ids booking_id)))
          v1.bookings room (λ t env w. closed t env small many w)
          (λ e t env kept. aborted-IsSound images txn_id _ (with_bookings t env kept.0))

  -- Once all locks are held, every table is in order and enough ids are left: a call that succeeds has
  -- booked exactly the seats of the list, all of which were open, under the next booking id, and has
  -- changed no other record. A call that fails leaves every table in order.
  pub book_locked-Ensures :
      (txn_id user_id event_id : ℕ) (total : Price) (now : ℕ) (ids : List ℕ) (s : Server Price)
      → IsSound images s
      → AllSmall images ids
      → s.bookings_table.next_id + 1 < u32_mod
      → s.booking_seats_table.next_id + length ids < u32_mod
      → Ensures
          (book_locked images txn_id user_id event_id total now ids s)
          (λ booking_id s'. Booked s user_id event_id total now ids booking_id s')
          (λ e s'. IsSound images s')
  unfolding book_locked
  book_locked-Ensures txn_id user_id event_id total now ids s v small room many =
      Ensures-then (verify_seats images txn_id event_id ids s)
        (λ _. book_verified images txn_id user_id event_id total now ids)
        (λ _ s'. (tables s' ≡ tables s) × AllOpen images s.seats_table event_id ids)
        (λ booking_id s'. Booked s user_id event_id total now ids booking_id s')
        (λ e s'. IsSound images s')
        (Ensures-mono (verify_seats images txn_id event_id ids s)
          (λ _ s'. (tables s' ≡ tables s) × AllOpen images s.seats_table event_id ids)
          (λ _ s'. (tables s' ≡ tables s) × AllOpen images s.seats_table event_id ids)
          (λ e s'. tables s' ≡ tables s) (λ e s'. IsSound images s')
          (verify_seats-Ensures images txn_id event_id ids s) (λ _ s' h. h)
          (λ e s' h. IsSound-tables s s' h v))
        (λ _ s1 (same, all_open).
          verified s s1 same (IsSound-tables s s1 same v) txn_id user_id event_id total now ids
            all_open small (subst (λ (T : Tables Price). T.3.next_id + 1 < u32_mod) (sym same) room)
            (subst (λ (T : Tables Price). T.4.next_id + length ids < u32_mod) (sym same) many))
