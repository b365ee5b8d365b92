-- ===== src/Booking/Cancel/Close.antt =====
-- The end of `booking_cancel` of server/core/booking_engine.c: the booking is marked.
use event_ticketing_platform.Base.{
  ℕ, ◌<◌, ◌≡◌, refl, ap, ◌∙◌, Option, none, some, List, arith, Bool, true, false, inl, inr, ◌⊎◌,
  ◌==◌, if◌then◌else◌,
}
use event_ticketing_platform.Types.{io, u32_mod}
use event_ticketing_platform.Records.{
  SeatRecord, BookingRecord, Images, seat_layout, booking_layout, booking_cancelled,
}
use event_ticketing_platform.Storage.Table.{Table}
use event_ticketing_platform.Storage.Table.Laws.{view, view-live}
use event_ticketing_platform.Storage.Wal.{Env}
use event_ticketing_platform.Server.{Server, then_do, ◌>>◌, return, abort_on_error, commit}
use event_ticketing_platform.Server.Faults.{faulty}
use event_ticketing_platform.Server.Rules.{Ensures, Ensures-then, Ensures-mono}
use event_ticketing_platform.Server.Stores.{Replaces, update-cases}
use event_ticketing_platform.Booking.{among}
use event_ticketing_platform.Booking.Book.Writes.{IsSound}
use event_ticketing_platform.Booking.Book.Laws.{IsSound-tables, commit-Ensures}
use event_ticketing_platform.Booking.Cancel.{close_cancel}
use event_ticketing_platform.Booking.Cancel.Freed.{freed_seat, Left, Released}

module _ {Price : Type 0} (images : Images Price) where
  -- A booking that its owner has cancelled: the record is marked, the seats of the booking are free now,
  -- or as they were where a call into the operating system was to fail, and nothing else has changed.
  pub record Cancelled (s : Server Price) (booking_id : ℕ) (r : BookingRecord Price) (ids : List ℕ)
      (s' : Server Price) : Type 0 where
    pub sound : IsSound images s'
    pub same_users : s'.users_table ≡ s.users_table
    pub same_events : s'.events_table ≡ s.events_table
    pub same_booking_seats : s'.booking_seats_table ≡ s.booking_seats_table
    pub bookings :
        (j : ℕ)
        → j < u32_mod
        → view (booking_layout images) s'.bookings_table j ≡ (
            if j == booking_id
            then some (record r { status = booking_cancelled })
            else view (booking_layout images) s.bookings_table j)
    pub seats :
        (j : ℕ)
        → j < u32_mod
        → ((view (seat_layout images) s'.seats_table j ≡ view (seat_layout images) s.seats_table j)
            × ((among j ids ≡ false) ⊎ (faulty s.env ≡ true)))
          ⊎ ((among j ids ≡ true)
              × (view (seat_layout images) s'.seats_table j
                  ≡ freed_seat images (view (seat_layout images) s.seats_table j)))

  -- A thread that sleeps for a seat has at most freed seats of the booking.
  abbrev pub Cancels :
      Server Price → ℕ → BookingRecord Price → List ℕ → Option (Unit {0}) → Server Price → Type 0
  Cancels s booking_id r ids none s' = Released images false ids s s'
  Cancels s booking_id r ids (some u) s' = Cancelled s booking_id r ids s'

  module _ (s : Server Price) (booking_id : ℕ) (r : BookingRecord Price) (v : IsSound images s)
      (small : booking_id < u32_mod)
      (found : view (booking_layout images) s.bookings_table booking_id ≡ some r) where
    marked :
        (txn_id : ℕ) (ids : List ℕ) (s1 : Server Price) (t : Table (BookingRecord Price))
        (env : Env)
        → Released images true ids s s1
        → Replaces
            (booking_layout images)
            s1.bookings_table
            booking_id
            (record r { status = booking_cancelled })
            t
        → Cancelled s booking_id r ids
            (commit txn_id (record s1 { bookings_table = t; env = env })).1
    marked txn_id ids s1 t env a (w, m, law) = record {
      sound = record {
        users = a.sound.users;
        events = a.sound.events;
        seats = a.sound.seats;
        bookings = w;
        booking_seats = a.sound.booking_seats;
      };
      same_users = a.same_users;
      same_events = a.same_events;
      same_booking_seats = a.same_booking_seats;
      bookings = λ j k.
          law j k
          ∙ ap
              (λ (d : Bool).
                if j == booking_id
                then (if d then none else some (record r { status = booking_cancelled }))
                else view (booking_layout images) s1.bookings_table j)
              (view-live (booking_layout images) s.bookings_table booking_id r v.bookings small
                found).1
          ∙ ap
              (λ (b : Table (BookingRecord Price)).
                if j == booking_id
                then some (record r { status = booking_cancelled })
                else view (booking_layout images) b j)
              a.same_bookings;
      seats = λ j k. all_freed j (a.seats j k);
    }
      where
        all_freed :
            (j : ℕ) {x y z : Option SeatRecord}
            → ((x ≡ y) × Left images true ids s j) ⊎ ((among j ids ≡ true) × (x ≡ z))
            → ((x ≡ y) × ((among j ids ≡ false) ⊎ (faulty s.env ≡ true)))
              ⊎ ((among j ids ≡ true) × (x ≡ z))
        all_freed j (inl (h, inl n)) = inl (h, inl n)
        all_freed j (inl (h, inr (inl f))) = inl (h, inr f)
        all_freed j (inl (h, inr (inr e))) = absurd (ground (arith, e))
        all_freed j (inr f) = inr f

    pub close_cancel-Ensures :
        (txn_id : ℕ) (ids : List ℕ) (held : Bool) (s1 : Server Price)
        → Released images held ids s s1
        → Ensures
            (close_cancel images txn_id booking_id r held s1)
            (λ out s'. Cancels s booking_id r ids out s')
            (λ e s'. IsSound images s')
    unfolding close_cancel
    close_cancel-Ensures txn_id ids false s1 a = a
    close_cancel-Ensures txn_id ids true s1 a =
        update-cases (booking_layout images) (λ t env. record s1 { bookings_table = t; env = env })
          s1.bookings_table s1.env booking_id (record r { status = booking_cancelled })
          (λ o.
            Ensures
              (then_do (abort_on_error txn_id (λ _. io) o) (λ _. commit txn_id >> return (some tt)))
              (λ out s'. Cancels s booking_id r ids out s') (λ e s'. IsSound images s'))
          a.sound.bookings small
          (view-live (booking_layout images) s.bookings_table booking_id r v.bookings small found).0
          (λ t env law.
            Ensures-then (commit txn_id (record s1 { bookings_table = t; env = env }))
              (λ _. return (some tt)) (λ _ s'. Cancelled s booking_id r ids s')
              (λ out s'. Cancels s booking_id r ids out s') (λ e s'. IsSound images s')
              (Ensures-mono (commit txn_id (record s1 { bookings_table = t; env = env }))
                (λ _ s'. Cancelled s booking_id r ids s') (λ _ s'. Cancelled s booking_id r ids s')
                (λ e s'. Cancelled s booking_id r ids s') (λ e s'. IsSound images s')
                (commit-Ensures images txn_id (record s1 { bookings_table = t; env = env })
                  (Cancelled s booking_id r ids) (marked txn_id ids s1 t env a law))
                (λ _ s' h. h) (λ e s' h. h.sound))
              (λ _ s' h. h))
          (λ e env. IsSound-tables images s1 _ refl a.sound)
