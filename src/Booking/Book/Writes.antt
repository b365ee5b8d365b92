-- ===== src/Booking/Book/Writes.antt =====
-- Step 4 of `booking_book_seats` in server/core/booking_engine.c: what the junction records and the
-- changed seats leave in the tables.
use event_ticketing_platform.Base.{
  ℕ, ◌+◌, ◌<◌, ◌≡◌, refl, sym, ap, ◌∙◌, Option, none, some, List, [], ◌∷◌, arith, Bool, true, false,
  Bool-cases, inl, inr, ◌==◌, ◌||◌, if◌then◌else◌, length,
}
use event_ticketing_platform.Types.{Result, u32_mod}
use event_ticketing_platform.Records.{
  SeatRecord, BookingSeatRecord, Images, user_layout, event_layout, seat_layout, booking_layout,
  booking_seat_layout, seat_booked,
}
use event_ticketing_platform.Storage.Table.{Table}
use event_ticketing_platform.Storage.Table.Laws.{view, IsTable, view-live}
use event_ticketing_platform.Storage.Wal.{Env}
use event_ticketing_platform.Server.{Server, then_do, abort_on_error, aborted}
use event_ticketing_platform.Server.Rules.{Ensures, Ensures-then, Ensures-mono}
use event_ticketing_platform.Server.Stores.{
  Inserts, Replaces, find-cases, insert-cases, update-cases,
}
use event_ticketing_platform.Booking.{among}
use event_ticketing_platform.Booking.Book.{sell_seat, find_and_sell, book_seat, book_each}

abbrev pub or_else : {A : Type 0} → Option A → Option A → Option A
or_else none o = o
or_else (some a) o = some a

-- The seat as `user_id` has booked it.
abbrev pub sold_to : ℕ → SeatRecord → SeatRecord
sold_to user_id r = record r { status = seat_booked; booked_by = user_id }

abbrev pub sold_if : Bool → ℕ → Option SeatRecord → Option SeatRecord
sold_if sold user_id none = none
sold_if sold user_id (some r) = if sold then some (sold_to user_id r) else some r

abbrev pub junction : ℕ → ℕ → ℕ → BookingSeatRecord
junction booking_id id n = record {
  booking_id = booking_id;
  seat_id = id;
  is_deleted = false;
  junction_id = n;
}

-- The junction records of a booking under the ids from `n` on.
unfoldable pub junction_at : ℕ → ℕ → List ℕ → ℕ → Option BookingSeatRecord
junction_at booking_id n [] j = none
junction_at booking_id n (id ∷ ids) j =
    let rest = junction_at booking_id (n + 1) ids j in
    if j == n then some (junction booking_id id n) else rest

module _ {Price : Type 0} (images : Images Price) where
  -- Every table is in order.
  pub record IsSound (s : Server Price) : Type 0 where
    pub users : IsTable (user_layout images) s.users_table
    pub events : IsTable (event_layout images) s.events_table
    pub seats : IsTable (seat_layout images) s.seats_table
    pub bookings : IsTable (booking_layout images) s.bookings_table
    pub booking_seats : IsTable (booking_seat_layout images) s.booking_seats_table

  -- The seats are booked by the user, and each is tied to the booking; no other record changes.
  pub record Sold (s : Server Price) (user_id booking_id : ℕ) (ids : List ℕ) (s' : Server Price)
      : Type 0 where
    pub sound : IsSound s'
    pub same_users : s'.users_table ≡ s.users_table
    pub same_events : s'.events_table ≡ s.events_table
    pub same_bookings : s'.bookings_table ≡ s.bookings_table
    pub more : s'.booking_seats_table.next_id ≡ s.booking_seats_table.next_id + length ids
    pub seats :
        (j : ℕ)
        → j < u32_mod
        → view (seat_layout images) s'.seats_table j
          ≡ sold_if (among j ids) user_id (view (seat_layout images) s.seats_table j)
    pub junctions :
        (j : ℕ)
        → j < u32_mod
        → view (booking_seat_layout images) s'.booking_seats_table j
          ≡ or_else
              (junction_at booking_id s.booking_seats_table.next_id ids j)
              (view (booking_seat_layout images) s.booking_seats_table j)

  -- One seat: the junction record and the changed seat.
  sell_one :
      (s : Server Price) (user_id booking_id id : ℕ) (seat : SeatRecord)
      (t : Table BookingSeatRecord) (t3 : Table SeatRecord) (env3 : Env)
      → IsSound s
      → seat.is_deleted ≡ false
      → view (seat_layout images) s.seats_table id ≡ some seat
      → Inserts (booking_seat_layout images) s.booking_seats_table (junction booking_id id 0) t
      → Replaces (seat_layout images) s.seats_table id (sold_to user_id seat) t3
      → Sold s user_id booking_id
          (id ∷ [])
          (record s { booking_seats_table = t; seats_table = t3; env = env3 })
  unfolding junction_at among
  sell_one s user_id booking_id id seat t t3 env3 v live found (w, m, law) (w3, m3, law3) = record {
    sound = record {
      users = v.users;
      events = v.events;
      seats = w3;
      bookings = v.bookings;
      booking_seats = w;
    };
    same_users = refl;
    same_events = refl;
    same_bookings = refl;
    more = m;
    seats = λ j k. law3 j k ∙ (elim (Bool-cases (j == id)) [
      | inl h ↦
          let same : j ≡ id = ground (arith, h) in
          rw h (
            ap (λ (d : Bool). if d then none else some (sold_to user_id seat)) live
            ∙ sym (rw same (rw found refl)))
      | inr h ↦ rw h (unsold (view (seat_layout images) s.seats_table j))
    ]);
    junctions = λ j k. law j k ∙ (elim (Bool-cases (j == s.booking_seats_table.next_id)) [
      | inl h ↦ rw h refl
      | inr h ↦ rw h refl
    ]);
  }
    where
      unsold : (o : Option SeatRecord) → o ≡ sold_if false user_id o
      unsold none = refl
      unsold (some q) = refl

  among-head : (id : ℕ) (ids : List ℕ) (j : ℕ) → among j (id ∷ ids) ≡ (j == id || among j ids)
  unfolding among
  among-head id ids j = refl

  sold_twice :
      (a b : Bool) (user_id : ℕ) (o : Option SeatRecord)
      → sold_if b user_id (sold_if a user_id o) ≡ sold_if (a || b) user_id o
  sold_twice a b user_id none = refl
  sold_twice true true user_id (some r) = refl
  sold_twice true false user_id (some r) = refl
  sold_twice false true user_id (some r) = refl
  sold_twice false false user_id (some r) = refl

  junction_at-before :
      (booking_id n : ℕ) (ids : List ℕ) (j : ℕ) → j < n → junction_at booking_id n ids j ≡ none
  unfolding junction_at
  junction_at-before booking_id n [] j h = refl
  junction_at-before booking_id n (id ∷ ids) j h =
      ground (arith, junction_at-before booking_id (n + 1) ids j (omega arith))

  or_else-step :
      (booking_id n id : ℕ) (ids : List ℕ) (j : ℕ) (o : Option BookingSeatRecord)
      → or_else
          (junction_at booking_id (n + 1) ids j)
          (or_else (junction_at booking_id n (id ∷ []) j) o)
        ≡ or_else (junction_at booking_id n (id ∷ ids) j) o
  unfolding junction_at
  or_else-step booking_id n id ids j o = elim (Bool-cases (j == n)) [
    | inl h ↦ rw h (rw (junction_at-before booking_id (n + 1) ids j (ground (arith, h))) refl)
    | inr h ↦ rw h refl
  ]

  -- One seat after the other.
  Sold-trans :
      (s s1 s2 : Server Price) (user_id booking_id id : ℕ) (ids : List ℕ)
      → Sold s user_id booking_id (id ∷ []) s1
      → Sold s1 user_id booking_id ids s2
      → Sold s user_id booking_id (id ∷ ids) s2
  unfolding among
  Sold-trans s s1 s2 user_id booking_id id ids a b = record {
    sound = b.sound;
    same_users = b.same_users ∙ a.same_users;
    same_events = b.same_events ∙ a.same_events;
    same_bookings = b.same_bookings ∙ a.same_bookings;
    more = omega (arith, a.more, b.more);
    seats = λ j k.
        b.seats j k
        ∙ ap (sold_if (among j ids) user_id) (a.seats j k)
        ∙ sold_twice (j == id || false) (among j ids) user_id _
        ∙ ap (λ (c : Bool). sold_if c user_id (view (seat_layout images) s.seats_table j))
            (ground arith);
    junctions = λ j k.
        b.junctions j k
        ∙ ap (or_else (junction_at booking_id s1.booking_seats_table.next_id ids j))
            (a.junctions j k)
        ∙ rw (a.more) (or_else-step booking_id s.booking_seats_table.next_id id ids j _);
  }

  Sold-nil :
      (s : Server Price) (user_id booking_id : ℕ) → IsSound s → Sold s user_id booking_id [] s
  unfolding among junction_at
  Sold-nil s user_id booking_id v = record {
    sound = v;
    same_users = refl;
    same_events = refl;
    same_bookings = refl;
    more = omega arith;
    seats = λ j k. unsold (view (seat_layout images) s.seats_table j);
    junctions = λ j k. refl;
  }
    where
      unsold : (o : Option SeatRecord) → o ≡ sold_if false user_id o
      unsold none = refl
      unsold (some q) = refl

  Skips-IsSound :
      (s : Server Price) (t : Table BookingSeatRecord) (env : Env)
      → IsSound s
      → IsTable (booking_seat_layout images) t
      → IsSound (record s { booking_seats_table = t; env = env })
  Skips-IsSound s t env v w = record {
    users = v.users;
    events = v.events;
    seats = v.seats;
    bookings = v.bookings;
    booking_seats = w;
  }

  -- The state is in order whatever the transactions, the locks and the surroundings are.
  pub aborted-IsSound : (txn_id : ℕ) (s : Server Price) → IsSound s → IsSound (aborted txn_id s)
  aborted-IsSound txn_id s v = record {
    users = v.users;
    events = v.events;
    seats = v.seats;
    bookings = v.bookings;
    booking_seats = v.booking_seats;
  }

  -- What the steps for one seat come to.
  abbrev Sells : Server Price → ℕ → ℕ → ℕ → Result (Unit {0}) × Server Price → Type 0
  Sells s user_id booking_id id o =
      Ensures o (λ _ s'. Sold s user_id booking_id (id ∷ []) s') (λ e s'. IsSound s')

  book_seat-Ensures :
      (txn_id user_id booking_id id : ℕ) (s : Server Price)
      → IsSound s
      → id < u32_mod
      → s.booking_seats_table.next_id + 1 < u32_mod
      → Sells s user_id booking_id id (book_seat images txn_id user_id booking_id id s)
  unfolding book_seat
  book_seat-Ensures txn_id user_id booking_id id s v small room =
      insert-cases (booking_seat_layout images)
        (λ t env. record s { booking_seats_table = t; env = env }) s.booking_seats_table s.env
        (junction booking_id id 0)
        (λ o. Sells s user_id booking_id id (
          then_do (abort_on_error txn_id (λ e. e) o) (λ _. find_and_sell images txn_id user_id id)))
        v.booking_seats room tied (λ e t env kept. undone t env kept.0)
    where
      undone :
          (t : Table BookingSeatRecord) (env : Env)
          → IsTable (booking_seat_layout images) t
          → IsSound (aborted txn_id (record s { booking_seats_table = t; env = env }))
      undone t env w = aborted-IsSound txn_id _ (Skips-IsSound s t env v w)

      tied :
          (t : Table BookingSeatRecord) (env : Env)
          → Inserts (booking_seat_layout images) s.booking_seats_table (junction booking_id id 0) t
          → Sells s user_id booking_id id (
              find_and_sell images txn_id user_id id
                (record s { booking_seats_table = t; env = env }))
      tied t env w =
          find-cases (seat_layout images)
            (λ x env. record s { booking_seats_table = t; seats_table = x; env = env })
            s.seats_table env id
            (λ o.
              Sells s user_id booking_id id
                (then_do (abort_on_error txn_id (λ e. e) o) (sell_seat images txn_id user_id id)))
            (λ r env2 found.
              let live = view-live (seat_layout images) s.seats_table id r v.seats small found in
              update-cases (seat_layout images)
                (λ x env. record s { booking_seats_table = t; seats_table = x; env = env })
                s.seats_table env2 id (sold_to user_id r)
                (λ o. Sells s user_id booking_id id (abort_on_error txn_id (λ e. e) o)) v.seats
                small live.0
                (λ t3 env3 changed.
                  sell_one s user_id booking_id id r t t3 env3 v live.1 found w changed)
                (λ e env3. undone t env3 w.0))
            (λ e env2. undone t env2 w.0)

  abbrev pub AllSmall : List ℕ → Type 0
  AllSmall [] = Unit {0}
  AllSmall (id ∷ ids) = (id < u32_mod) × AllSmall ids

  -- When every table is in order and enough junction ids are left, step 4 books the seats of the list
  -- for the user, ties each to the booking and changes no other record; or it fails, and every table
  -- is in order still.
  pub book_each-Ensures :
      (txn_id user_id booking_id : ℕ) (ids : List ℕ) (s : Server Price)
      → IsSound s
      → AllSmall ids
      → s.booking_seats_table.next_id + length ids < u32_mod
      → Ensures
          (book_each images txn_id user_id booking_id ids s)
          (λ _ s'. Sold s user_id booking_id ids s')
          (λ e s'. IsSound s')
  unfolding book_each
  book_each-Ensures txn_id user_id booking_id [] s v small room = Sold-nil s user_id booking_id v
  book_each-Ensures txn_id user_id booking_id (id ∷ ids) s v (small, smalls) room =
      Ensures-then (book_seat images txn_id user_id booking_id id s)
        (λ _. book_each images txn_id user_id booking_id ids)
        (λ _ s'. Sold s user_id booking_id (id ∷ []) s')
        (λ _ s'. Sold s user_id booking_id (id ∷ ids) s') (λ e s'. IsSound s')
        (book_seat-Ensures txn_id user_id booking_id id s v small (omega arith))
        (λ _ s1 one.
          Ensures-mono (book_each images txn_id user_id booking_id ids s1)
            (λ _ s'. Sold s1 user_id booking_id ids s')
            (λ _ s'. Sold s user_id booking_id (id ∷ ids) s') (λ e s'. IsSound s')
            (λ e s'. IsSound s')
            (book_each-Ensures txn_id user_id booking_id ids s1 one.sound smalls
              (omega (arith, one.more)))
            (λ _ s2 more. Sold-trans s s1 s2 user_id booking_id id ids one more) (λ e s2 h. h))
