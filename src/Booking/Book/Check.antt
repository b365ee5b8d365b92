-- ===== src/Booking/Book/Check.antt =====
-- Step 2 of `booking_book_seats` in server/core/booking_engine.c: it reads, and lets only available
-- seats of the event pass.
use event_ticketing_platform.Base.{
  ℕ, ◌≡◌, refl, ap, subst, ◌∙◌, some, List, [], ◌∷◌, arith, Bool-cases, inl, inr, ◌==◌,
}
use event_ticketing_platform.Types.{Result, ok, err, not_found}
use event_ticketing_platform.Records.{
  UserRecord, EventRecord, SeatRecord, BookingRecord, BookingSeatRecord, Images, seat_layout,
  seat_available,
}
use event_ticketing_platform.Storage.Table.{Table, table_find_by_id}
use event_ticketing_platform.Storage.Table.Laws.{view, table_find_by_id_lem, table_find_by_id-some}
use event_ticketing_platform.Storage.Wal.{Env}
use event_ticketing_platform.Server.{Server, on_seats, or_abort}
use event_ticketing_platform.Server.Rules.{Ensures, Ensures-then, Ensures-abort, Ensures-mono}
use event_ticketing_platform.Booking.Book.{check_seat, verify_seats}

-- The five tables.
abbrev pub Tables : Type 0 → Type 0
Tables P =
    Table UserRecord
    × Table (EventRecord P)
    × Table SeatRecord
    × Table (BookingRecord P)
    × Table BookingSeatRecord

abbrev pub tables : {P : Type 0} → Server P → Tables P
tables s = (s.users_table, s.events_table, s.seats_table, s.bookings_table, s.booking_seats_table)

module _ {Price : Type 0} (images : Images Price) where
  -- A seat that can be booked for the event.
  abbrev pub IsOpen : Table SeatRecord → ℕ → ℕ → Type 0
  IsOpen t event_id id =
      (r : SeatRecord) × (view (seat_layout images) t id ≡ some r)
      × (r.event_id ≡ event_id)
      × (r.status ≡ seat_available)

  abbrev pub AllOpen : Table SeatRecord → ℕ → List ℕ → Type 0
  AllOpen t event_id [] = Unit {0}
  AllOpen t event_id (id ∷ ids) = IsOpen t event_id id × AllOpen t event_id ids

  pub find_seat-Ensures :
      (id : ℕ) (s : Server Price)
      → Ensures
          (on_seats (table_find_by_id (seat_layout images) id) s)
          (λ r s'. (tables s' ≡ tables s) × (view (seat_layout images) s.seats_table id ≡ some r))
          (λ e s'. tables s' ≡ tables s)
  find_seat-Ensures id s =
      by_result (table_find_by_id (seat_layout images) id s.seats_table s.env).0
        (table_find_by_id (seat_layout images) id s.seats_table s.env).1
        (table_find_by_id (seat_layout images) id s.seats_table s.env).2
        (table_find_by_id_lem (seat_layout images) id s.seats_table s.env).0
        (table_find_by_id-some (seat_layout images) id s.seats_table s.env)
    where
      by_result :
          (r : Result SeatRecord) (t : Table SeatRecord) (env : Env)
          → t ≡ s.seats_table
          → ((q : SeatRecord) → r ≡ ok q → view (seat_layout images) s.seats_table id ≡ some q)
          → Ensures
              (r, record s { seats_table = t; env = env })
              (λ r s'.
                (tables s' ≡ tables s) × (view (seat_layout images) s.seats_table id ≡ some r))
              (λ e s'. tables s' ≡ tables s)
      by_result (ok q) t env e f = (rw e refl, f q refl)
      by_result (err c) t env e f = rw e refl

  check_seat-Ensures :
      (txn_id event_id id : ℕ) (t : Table SeatRecord) (seat : SeatRecord) (s : Server Price)
      → view (seat_layout images) t id ≡ some seat
      → Ensures
          (check_seat images txn_id event_id seat s)
          (λ _ s'. (tables s' ≡ tables s) × IsOpen t event_id id)
          (λ e s'. tables s' ≡ tables s)
  unfolding check_seat
  check_seat-Ensures txn_id event_id id t seat s e = elim (Bool-cases (seat.event_id == event_id)) [
    | inl mine ↦ elim (Bool-cases (seat.status == seat_available)) [
      | inl free ↦ rw mine (rw free (refl, (seat, e, ground (arith, mine), ground (arith, free))))
      | inr taken ↦ rw mine (rw taken refl)
    ]
    | inr other ↦ rw other refl
  ]

  -- Whether the seats pass step 2 or not, no table is changed. If they pass, each of them shows a record
  -- of the event that is available.
  pub verify_seats-Ensures :
      (txn_id event_id : ℕ) (ids : List ℕ) (s : Server Price)
      → Ensures
          (verify_seats images txn_id event_id ids s)
          (λ _ s'. (tables s' ≡ tables s) × AllOpen s.seats_table event_id ids)
          (λ e s'. tables s' ≡ tables s)
  unfolding verify_seats
  verify_seats-Ensures txn_id event_id [] s = (refl, tt)
  verify_seats-Ensures txn_id event_id (id ∷ ids) s =
      Ensures-then
        (or_abort txn_id (λ _. not_found) (on_seats (table_find_by_id (seat_layout images) id)) s) _
        (λ r s'. (tables s' ≡ tables s) × (view (seat_layout images) s.seats_table id ≡ some r))
        (λ _ s'. (tables s' ≡ tables s) × AllOpen s.seats_table event_id (id ∷ ids))
        (λ e s'. tables s' ≡ tables s)
        (Ensures-abort txn_id (λ _. not_found)
          (on_seats (table_find_by_id (seat_layout images) id) s)
          (λ r s'. (tables s' ≡ tables s) × (view (seat_layout images) s.seats_table id ≡ some r))
          (λ e s'. tables s' ≡ tables s) (λ e s'. tables s' ≡ tables s) (find_seat-Ensures id s)
          (λ e s' h. h))
        (λ seat s1 (h1, found).
          Ensures-then (check_seat images txn_id event_id seat s1) _
            (λ _ s'. (tables s' ≡ tables s1) × IsOpen s.seats_table event_id id)
            (λ _ s'. (tables s' ≡ tables s) × AllOpen s.seats_table event_id (id ∷ ids))
            (λ e s'. tables s' ≡ tables s)
            (Ensures-mono (check_seat images txn_id event_id seat s1)
              (λ _ s'. (tables s' ≡ tables s1) × IsOpen s.seats_table event_id id)
              (λ _ s'. (tables s' ≡ tables s1) × IsOpen s.seats_table event_id id)
              (λ e s'. tables s' ≡ tables s1) (λ e s'. tables s' ≡ tables s)
              (check_seat-Ensures txn_id event_id id s.seats_table seat s1 found) (λ _ s' h. h)
              (λ e s' h. h ∙ h1))
            (λ _ s2 (h2, open_seat).
              Ensures-mono (verify_seats images txn_id event_id ids s2)
                (λ _ s'. (tables s' ≡ tables s2) × AllOpen s2.seats_table event_id ids)
                (λ _ s'. (tables s' ≡ tables s) × AllOpen s.seats_table event_id (id ∷ ids))
                (λ e s'. tables s' ≡ tables s2) (λ e s'. tables s' ≡ tables s)
                (verify_seats-Ensures txn_id event_id ids s2)
                (λ _ s' (h3, rest). (
                  h3 ∙ h2 ∙ h1,
                  (
                    open_seat,
                    subst (λ (t : Table SeatRecord). AllOpen t event_id ids)
                        (ap (λ (T : Tables Price). T.2) (h2 ∙ h1)) rest,
                  ),
                ))
                (λ e s' h. h ∙ h2 ∙ h1)))
