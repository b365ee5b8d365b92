-- ===== src/Booking/Book/Call.antt =====
-- `booking_book_seats` of server/core/booking_engine.c as a whole.
use event_ticketing_platform.Base.{
  ℕ, ◌+◌, ◌<◌, ◌≡◌, refl, sym, ap, subst, ◌∙◌, Option, none, some, List, arith, Bool, true, false,
  ◌==◌, ==_iff, if◌then◌else◌, length,
}
use event_ticketing_platform.Types.{not_found, generic, invalid_arg, Result, u32_mod}
use event_ticketing_platform.Records.{
  EventRecord, Images, event_layout, seat_layout, booking_layout, booking_seat_layout, event_active,
}
use event_ticketing_platform.Storage.Table.Laws.{view}
use event_ticketing_platform.Server.{Server, then_do, ◌>>=◌, return, fail, begin}
use event_ticketing_platform.Server.Rules.{Ensures, Ensures-then, Ensures-mono}
use event_ticketing_platform.Server.Stores.{find-cases}
use event_ticketing_platform.Booking.{among, sort_seat_ids, valid_request}
use event_ticketing_platform.Booking.Book.{
  recoded, new_booking, lock_seats, book_locked, book_held, book_active, find_event,
  booking_book_seats,
}
use event_ticketing_platform.Booking.Book.Check.{Tables, tables, AllOpen}
use event_ticketing_platform.Booking.Book.Writes.{IsSound, AllSmall, or_else, sold_if, junction_at}
use event_ticketing_platform.Booking.Book.Laws.{Booked, IsSound-tables, book_locked-Ensures}
use event_ticketing_platform.Booking.Book.Locking.{
  length-sort_seat_ids, AllSmall-sort_seat_ids, lock_seats-Ensures, begin-Ensures,
}

module _ {Price : Type 0} (images : Images Price) where
  -- What the call comes to: a thread that sleeps has changed no table, and a booking that is delivered
  -- is one of the sorted seats.
  abbrev pub Outcome : Server Price → ℕ → ℕ → Price → ℕ → List ℕ → Option ℕ → Server Price → Type 0
  Outcome s user_id event_id total now ids none s' = tables s' ≡ tables s
  Outcome s user_id event_id total now ids (some booking_id) s' =
      Booked images s user_id event_id total now ids booking_id s'

  Booked-tables :
      (s s1 : Server Price) (user_id event_id : ℕ) (total : Price) (now : ℕ) (ids : List ℕ) (n : ℕ)
      (s' : Server Price)
      → tables s1 ≡ tables s
      → Booked images s1 user_id event_id total now ids n s'
      → Booked images s user_id event_id total now ids n s'
  Booked-tables s s1 user_id event_id total now ids n s' e b = record {
    sound = b.sound;
    were_open = subst (λ (T : Tables Price). AllOpen images T.2 event_id ids) e b.were_open;
    number = b.number ∙ ap (λ (T : Tables Price). T.3.next_id) e;
    booking = λ j k.
        subst
          (λ (T : Tables Price). view (booking_layout images) s'.bookings_table j ≡ (
            if j == n
            then some (record (new_booking images user_id event_id (length ids) total now) {
              booking_id = n;
            })
            else view (booking_layout images) T.3 j))
          e (b.booking j k);
    seats = λ j k.
        b.seats j k
        ∙ ap (λ (T : Tables Price). sold_if (among j ids) user_id (view (seat_layout images) T.2 j))
            e;
    junctions = λ j k.
        b.junctions j k
        ∙ ap
            (λ (T : Tables Price).
              or_else (junction_at n T.4.next_id ids j) (view (booking_seat_layout images) T.4 j))
            e;
    same_users = b.same_users ∙ ap (λ (T : Tables Price). T.0) e;
    same_events = b.same_events ∙ ap (λ (T : Tables Price). T.1) e;
  }

  module _ (user_id event_id : ℕ) (total : Price) (now : ℕ) (ids : List ℕ)
      (small : AllSmall images ids) where
    abbrev Ends : Server Price → Result (Option ℕ) × Server Price → Type 0
    Ends s o =
        Ensures o (λ out s'. Outcome s user_id event_id total now ids out s')
          (λ e s'. IsSound images s')

    book_held-Ends :
        (held : Bool) (txn_id : ℕ) (s s1 : Server Price)
        → tables s1 ≡ tables s
        → IsSound images s
        → s.bookings_table.next_id + 1 < u32_mod
        → s.booking_seats_table.next_id + length ids < u32_mod
        → Ends s (book_held images held txn_id user_id event_id total now ids s1)
    unfolding book_held
    book_held-Ends false txn_id s s1 e v room many = e
    book_held-Ends true txn_id s s1 e v room many =
        Ensures-then (book_locked images txn_id user_id event_id total now ids s1)
          (λ booking_id. return (some booking_id))
          (λ n s'. Booked images s1 user_id event_id total now ids n s')
          (λ out s'. Outcome s user_id event_id total now ids out s') (λ c s'. IsSound images s')
          (book_locked-Ensures images txn_id user_id event_id total now ids s1
            (IsSound-tables images s s1 e v) small
            (subst (λ (T : Tables Price). T.3.next_id + 1 < u32_mod) (sym e) room)
            (subst (λ (T : Tables Price). T.4.next_id + length ids < u32_mod) (sym e) many))
          (λ n s2 b. Booked-tables s s1 user_id event_id total now ids n s2 e b)

  module _ (user_id event_id : ℕ) (total : Price) (now : ℕ) (ids : List ℕ)
      (small : AllSmall images ids) where
    book_active-Ends :
        (s s1 : Server Price)
        → tables s1 ≡ tables s
        → IsSound images s
        → s.bookings_table.next_id + 1 < u32_mod
        → s.booking_seats_table.next_id + length ids < u32_mod
        → Ends user_id event_id total now
            (sort_seat_ids ids)
            (AllSmall-sort_seat_ids images ids small)
            s
            (book_active images user_id event_id total now ids s1)
    unfolding book_active
    book_active-Ends s s1 e v room many =
        Ensures-then (begin s1)
          (λ txn_id. lock_seats txn_id (sort_seat_ids ids) >>= λ held.
            book_held images held txn_id user_id event_id total now (sort_seat_ids ids))
          (λ _ s'. tables s' ≡ tables s1)
          (λ out s'. Outcome s user_id event_id total now (sort_seat_ids ids) out s')
          (λ c s'. IsSound images s')
          (Ensures-mono (begin s1) (λ _ s'. tables s' ≡ tables s1) (λ _ s'. tables s' ≡ tables s1)
            (λ c s'. tables s' ≡ tables s1) (λ c s'. IsSound images s') (begin-Ensures images s1)
            (λ _ s' h. h) (λ c s' h. IsSound-tables images s s' (h ∙ e) v))
          (λ txn_id s2 e2.
            Ensures-then (lock_seats txn_id (sort_seat_ids ids) s2)
              (λ held. book_held images held txn_id user_id event_id total now (sort_seat_ids ids))
              (λ _ s'. tables s' ≡ tables s2)
              (λ out s'. Outcome s user_id event_id total now (sort_seat_ids ids) out s')
              (λ c s'. IsSound images s')
              (Ensures-mono (lock_seats txn_id (sort_seat_ids ids) s2)
                (λ _ s'. tables s' ≡ tables s2) (λ _ s'. tables s' ≡ tables s2)
                (λ c s'. tables s' ≡ tables s2) (λ c s'. IsSound images s')
                (lock_seats-Ensures images txn_id (sort_seat_ids ids) s2) (λ _ s' h. h)
                (λ c s' h. IsSound-tables images s s' (h ∙ e2 ∙ e) v))
              (λ held s3 e3.
                book_held-Ends user_id event_id total now (sort_seat_ids ids)
                  (AllSmall-sort_seat_ids images ids small) held txn_id s s3 (e3 ∙ e2 ∙ e) v room
                  (omega (arith, many, length-sort_seat_ids ids))))

  -- The event, as the call finds it: it is there and active.
  abbrev pub IsBookable : Server Price → ℕ → EventRecord Price → Type 0
  IsBookable s event_id evt =
      (view (event_layout images) s.events_table event_id ≡ some evt) × (evt.status ≡ event_active)

  abbrev pub Answers :
      (Price → ℕ → Price) → ℕ → ℕ → ℕ → List ℕ → Server Price → Option ℕ → Server Price → Type 0
  Answers times now user_id event_id ids s out s' =
      (evt : EventRecord Price) × IsBookable s event_id evt
      × (valid_request ids ≡ true)
      × Outcome s user_id event_id (times evt.price (length ids)) now (sort_seat_ids ids) out s'

  -- `booking_book_seats`, when every table is in order and enough ids are left. If it delivers a booking,
  -- the request was valid, the event is there and active, and exactly the seats asked for, all of which
  -- were open, are booked by the user. If its thread sleeps for a lock, no table has changed. If it
  -- fails, every table is in order.
  pub booking_book_seats-Ensures :
      (times : Price → ℕ → Price) (now user_id event_id : ℕ) (ids : List ℕ) (s : Server Price)
      → AllSmall images ids
      → IsSound images s
      → s.bookings_table.next_id + 1 < u32_mod
      → s.booking_seats_table.next_id + length ids < u32_mod
      → Ensures
          (booking_book_seats images times now user_id event_id ids s)
          (λ out s'. Answers times now user_id event_id ids s out s')
          (λ e s'. IsSound images s')
  unfolding booking_book_seats
  booking_book_seats-Ensures times now user_id event_id ids s small v room many =
      by_request (valid_request ids) refl
    where
      with_event :
          (b : Bool) (evt : EventRecord Price) (s1 : Server Price)
          → (evt.status == event_active) ≡ b
          → valid_request ids ≡ true
          → view (event_layout images) s.events_table event_id ≡ some evt
          → tables s1 ≡ tables s
          → Ensures
              ((if b
                  then book_active images user_id event_id (times evt.price (length ids)) now ids
                  else fail generic)
                s1)
              (λ out s'. Answers times now user_id event_id ids s out s')
              (λ e s'. IsSound images s')
      with_event true evt s1 active valid found e =
          Ensures-mono
            (book_active images user_id event_id (times evt.price (length ids)) now ids s1)
            (λ out s'.
              Outcome s user_id event_id (times evt.price (length ids)) now (sort_seat_ids ids) out
                s')
            (λ out s'. Answers times now user_id event_id ids s out s') (λ c s'. IsSound images s')
            (λ c s'. IsSound images s')
            (book_active-Ends user_id event_id (times evt.price (length ids)) now ids small s s1 e v
              room many)
            (λ out s' h. (evt, (found, (==_iff evt.status event_active).0 active), valid, h))
            (λ c s' h. h)
      with_event false evt s1 active valid found e = IsSound-tables images s s1 e v

      by_request :
          (b : Bool)
          → valid_request ids ≡ b
          → Ensures
              ((if b
                  then (find_event images event_id >>= λ evt.
                      if evt.status == event_active
                      then book_active images user_id event_id
                          (times evt.price (length ids))
                          now
                          ids
                      else fail generic)
                  else fail invalid_arg)
                s)
              (λ out s'. Answers times now user_id event_id ids s out s')
              (λ e s'. IsSound images s')
      by_request false e = v
      by_request true e =
          find-cases (event_layout images) (λ t env. record s { events_table = t; env = env })
            s.events_table s.env event_id
            (λ o.
              Ensures
                (then_do (recoded (λ _. not_found) o) (λ evt.
                  if evt.status == event_active
                  then book_active images user_id event_id (times evt.price (length ids)) now ids
                  else fail generic))
                (λ out s'. Answers times now user_id event_id ids s out s')
                (λ e s'. IsSound images s'))
            (λ evt env found. with_event (evt.status == event_active) evt _ refl e found refl)
            (λ c env. IsSound-tables images s _ refl v)
