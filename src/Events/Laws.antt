-- ===== src/Events/Laws.antt =====
-- What the creation of an event by server/core/event_mgr.c leaves in the tables.
use event_ticketing_platform.Base.{
  ℕ, ◌+◌, ◌*◌, ◌≤◌, ◌<◌, ◌≡◌, refl, sym, ap, subst, some, List, arith, Bool, true, false, ◌==◌,
  if◌then◌else◌, take,
}
use event_ticketing_platform.Types.{Result, invalid_arg, u32_mod}
use event_ticketing_platform.Records.{EventRecord, Images, event_layout, event_active}
use event_ticketing_platform.Storage.Table.{Table, table_insert}
use event_ticketing_platform.Storage.Table.Laws.{view, IsTable}
use event_ticketing_platform.Storage.Wal.{Env}
use event_ticketing_platform.Server.{Server, then_do, ◌>>=◌, ◌>>◌, return, fail, on_events}
use event_ticketing_platform.Server.Rules.{Ensures}
use event_ticketing_platform.Server.Stores.{Inserts, insert-cases}
use event_ticketing_platform.Booking.Book.Writes.{IsSound}
use event_ticketing_platform.Events.{make_rows, valid_event, event_mgr_create_event}
use event_ticketing_platform.Events.Seats.{
  insert_seats, Lands, insert_seats-Lands, with_seats, make_rows_lem,
}

-- The record of an event: the texts cut to their fields, and the status ACTIVE.
abbrev pub event_of :
    {Price : Type 0} → List ℕ → List ℕ → List ℕ → List ℕ → ℕ → ℕ → ℕ → Price → EventRecord Price
event_of name venue date time_str organizer_id total_rows seats_per_row price = record {
  event_id = 0;
  name = take 63 name;
  venue = take 63 venue;
  event_date = take 10 date;
  event_time = take 5 time_str;
  organizer_id = organizer_id;
  total_rows = total_rows;
  seats_per_row = seats_per_row;
  price = price;
  status = event_active;
  is_deleted = false;
}

module _ {Price : Type 0} (images : Images Price) where
  -- A created event: its record stands under its id, and the table of the seats is what the insertions
  -- of all its seats, one after the other, make of it. No other record has changed.
  pub record Created (s : Server Price) (event_id : ℕ) (r : EventRecord Price) (s' : Server Price)
      : Type 0 where
    pub sound : IsSound images s'
    pub number : event_id ≡ s.events_table.next_id
    pub event :
        (j : ℕ)
        → j < u32_mod
        → view (event_layout images) s'.events_table j ≡ (
            if j == event_id
            then some (record r { event_id = event_id })
            else view (event_layout images) s.events_table j)
    pub same_users : s'.users_table ≡ s.users_table
    pub same_bookings : s'.bookings_table ≡ s.bookings_table
    pub same_booking_seats : s'.booking_seats_table ≡ s.booking_seats_table
    pub inserted :
        s'.seats_table
        ≡ (insert_seats images event_id r.seats_per_row
            (r.total_rows * r.seats_per_row)
            0
            s.seats_table
            (table_insert (event_layout images) r s.events_table s.env).2).0
    pub seats :
        Lands images event_id r.seats_per_row
          (r.total_rows * r.seats_per_row)
          0
          s.seats_table
          s'.seats_table

  -- Where the bounds on the rows, the seats and the price are kept.
  abbrev pub InBounds : (Price → Bool) → ℕ → ℕ → Price → Type 0
  InBounds price_valid total_rows seats_per_row price =
      (price_valid price ≡ true)
      × (0 < total_rows)
      × (total_rows ≤ 26)
      × (0 < seats_per_row)
      × (seats_per_row ≤ 100)

  -- `event_mgr_create_event`, when every table is in order and enough ids are left. If it delivers an id,
  -- the price was valid, there are 1 to 26 rows of 1 to 100 seats, and the event stands under the id. An
  -- insertion was then tried for each seat, row by row: the table of the seats is what these make of it,
  -- and each id taken shows the seat of its place, AVAILABLE and without owner, or, where the insertion
  -- failed, what it showed before. No other record has changed. If it fails, every table is in order, and
  -- no seat has changed.
  pub event_mgr_create_event-Ensures :
      (price_valid : Price → Bool) (name venue date time_str : List ℕ)
      (organizer_id total_rows seats_per_row : ℕ) (price : Price) (s : Server Price)
      → IsSound images s
      → s.events_table.next_id + 1 < u32_mod
      → s.seats_table.next_id + total_rows * seats_per_row < u32_mod
      → Ensures
          (event_mgr_create_event images price_valid name venue date time_str organizer_id
            total_rows seats_per_row price s)
          (λ event_id s'.
            InBounds price_valid total_rows seats_per_row price
            × Created s event_id
                (event_of name venue date time_str organizer_id total_rows seats_per_row price)
                s')
          (λ e s'. IsSound images s' × (s'.seats_table ≡ s.seats_table))
  unfolding event_mgr_create_event
  event_mgr_create_event-Ensures price_valid name venue date time_str organizer_id total_rows
        seats_per_row price s v room many =
      by_test (valid_event (price_valid price) total_rows seats_per_row) refl
    where
      evt : EventRecord Price
      evt = event_of name venue date time_str organizer_id total_rows seats_per_row price

      n : ℕ
      n = total_rows * seats_per_row

      event_id : ℕ
      event_id = s.events_table.next_id

      in_bounds :
          valid_event (price_valid price) total_rows seats_per_row ≡ true
          → InBounds price_valid total_rows seats_per_row price
      in_bounds h = (
        ground (arith, h),
        ground (arith, h),
        ground (arith, h),
        ground (arith, h),
        ground (arith, h),
      )

      with_events :
          (t : Table (EventRecord Price)) (env : Env)
          → IsTable (event_layout images) t
          → IsSound images (record s { events_table = t; env = env })
      with_events t env w = record {
        users = v.users;
        events = w;
        seats = v.seats;
        bookings = v.bookings;
        booking_seats = v.booking_seats;
      }

      created :
          (t : Table (EventRecord Price)) (env : Env)
          → Inserts (event_layout images) s.events_table evt t
          → env ≡ (table_insert (event_layout images) evt s.events_table s.env).2
          → Created s event_id evt (
              with_seats images event_id seats_per_row
                (record s { events_table = t; env = env })
                (insert_seats images event_id seats_per_row n 0 s.seats_table env))
      created t env (w, m, law) same =
          let lands =
            insert_seats-Lands images event_id seats_per_row n 0 s.seats_table env v.seats many in
          record {
            sound = record {
              users = v.users;
              events = w;
              seats = lands.0;
              bookings = v.bookings;
              booking_seats = v.booking_seats;
            };
            number = refl;
            event = law;
            same_users = refl;
            same_bookings = refl;
            same_booking_seats = refl;
            inserted =
                ap (λ (e : Env). (insert_seats images event_id seats_per_row n 0 s.seats_table e).0)
                  same;
            seats = lands;
          }

      Ends : Result ℕ × Server Price → Type 0
      Ends o =
          Ensures o
            (λ event_id s'.
              InBounds price_valid total_rows seats_per_row price × Created s event_id evt s')
            (λ e s'. IsSound images s' × (s'.seats_table ≡ s.seats_table))

      rows_made :
          (t : Table (EventRecord Price)) (env : Env)
          → InBounds price_valid total_rows seats_per_row price
          → Inserts (event_layout images) s.events_table evt t
          → env ≡ (table_insert (event_layout images) evt s.events_table s.env).2
          → Ends (
              then_do
                (make_rows images event_id seats_per_row 0 total_rows
                  (record s { events_table = t; env = env }))
                (λ _. return event_id))
      rows_made t env h law same =
          subst (λ (r : Result (Unit {0}) × Server Price). Ends (then_do r (λ _. return event_id)))
            (sym (
              make_rows_lem images event_id seats_per_row total_rows 0
                (record s { events_table = t; env = env })))
            (h, rw no_rows (created t env law same))
        where
          no_rows : 0 * seats_per_row ≡ 0
          no_rows = ground arith

      by_test :
          (b : Bool)
          → valid_event (price_valid price) total_rows seats_per_row ≡ b
          → Ends (
              (if b
                  then (on_events (table_insert (event_layout images) evt) >>= λ event_id.
                      make_rows images event_id seats_per_row 0 total_rows >> return event_id)
                  else fail invalid_arg)
                s)
      by_test false h = (v, refl)
      by_test true h =
          insert-cases (event_layout images) (λ t env. record s { events_table = t; env = env })
            s.events_table s.env evt
            (λ o.
              o.1.env ≡ (table_insert (event_layout images) evt s.events_table s.env).2
              → Ends (
                  then_do o (λ event_id.
                    make_rows images event_id seats_per_row 0 total_rows >> return event_id)))
            v.events room (λ t env law same. rows_made t env (in_bounds h) law same)
            (λ e t env law _. (with_events t env law.0, refl)) refl
