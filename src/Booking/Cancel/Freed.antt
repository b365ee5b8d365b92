-- ===== src/Booking/Cancel/Freed.antt =====
-- The seats that are free after a part of `booking_cancel` of server/core/booking_engine.c.
use event_ticketing_platform.Base.{
  ℕ, ◌<◌, ◌≡◌, refl, sym, ap, subst, ◌∙◌, Option, none, some, List, [], ◌∷◌, arith, Bool, true,
  false, Bool-cases, inl, inr, ◌⊎◌, ◌==◌, ◌||◌, if◌then◌else◌,
}
use event_ticketing_platform.Types.{u32_mod}
use event_ticketing_platform.Records.{SeatRecord, Images, seat_layout, seat_available}
use event_ticketing_platform.Storage.Table.{Table}
use event_ticketing_platform.Storage.Table.Laws.{view}
use event_ticketing_platform.Storage.Wal.{Env}
use event_ticketing_platform.Server.Faults.{faulty, Fewer}
use event_ticketing_platform.Server.{Server}
use event_ticketing_platform.Server.Stores.{Replaces}
use event_ticketing_platform.Booking.{among}
use event_ticketing_platform.Booking.Book.Check.{Tables, tables}
use event_ticketing_platform.Booking.Book.Writes.{IsSound}
use event_ticketing_platform.Booking.Book.Laws.{IsSound-tables}
use event_ticketing_platform.Booking.Cancel.{freed}

module _ {Price : Type 0} (images : Images Price) where
  abbrev pub freed_seat : Option SeatRecord → Option SeatRecord
  freed_seat none = none
  freed_seat (some r) = some (record r { status = seat_available; booked_by = 0 })

  -- Why a seat is as it was: it is not in the list, or a call into the operating system was to fail, or
  -- the loop has not come to its end.
  abbrev pub Left : Bool → List ℕ → Server Price → ℕ → Type 0
  Left all ids s j = (among j ids ≡ false) ⊎ ((faulty s.env ≡ true) ⊎ (all ≡ false))

  -- The seats in the list are free now, or left for a reason, and nothing else has changed.
  pub record Released (all : Bool) (ids : List ℕ) (s s' : Server Price) : Type 0 where
    pub sound : IsSound images s'
    pub same_users : s'.users_table ≡ s.users_table
    pub same_events : s'.events_table ≡ s.events_table
    pub same_bookings : s'.bookings_table ≡ s.bookings_table
    pub same_booking_seats : s'.booking_seats_table ≡ s.booking_seats_table
    pub seats :
        (j : ℕ)
        → j < u32_mod
        → ((view (seat_layout images) s'.seats_table j ≡ view (seat_layout images) s.seats_table j)
            × Left all ids s j)
          ⊎ ((among j ids ≡ true)
              × (view (seat_layout images) s'.seats_table j
                  ≡ freed_seat (view (seat_layout images) s.seats_table j)))

  pub Released-tables :
      (all : Bool) (ids : List ℕ) (s s' : Server Price)
      → IsSound images s
      → tables s' ≡ tables s
      → ((j : ℕ) → Left all ids s j)
      → Released all ids s s'
  Released-tables all ids s s' v e left = record {
    sound = IsSound-tables images s s' e v;
    same_users = ap (λ (T : Tables Price). T.0) e;
    same_events = ap (λ (T : Tables Price). T.1) e;
    same_bookings = ap (λ (T : Tables Price). T.3) e;
    same_booking_seats = ap (λ (T : Tables Price). T.4) e;
    seats = λ j k. inl (ap (λ (T : Tables Price). view (seat_layout images) T.2 j) e, left j);
  }

  among-more : (id : ℕ) (ids : List ℕ) (j : ℕ) → among j ids ≡ true → among j (id ∷ ids) ≡ true
  unfolding among
  among-more id ids j h = rw h (or_true (j == id))
    where
      or_true : (b : Bool) → (b || true) ≡ true
      or_true true = refl
      or_true false = refl

  among-this : (id : ℕ) (ids : List ℕ) (j : ℕ) → (j == id) ≡ true → among j (id ∷ ids) ≡ true
  unfolding among
  among-this id ids j h = rw h refl

  freed_twice : (o : Option SeatRecord) → freed_seat (freed_seat o) ≡ freed_seat o
  freed_twice none = refl
  freed_twice (some r) = refl

  pub Released-then :
      (all : Bool) (id : ℕ) (ids : List ℕ) (s s1 s' : Server Price)
      → Released true (id ∷ []) s s1
      → Fewer s.env s1.env
      → Released all ids s1 s'
      → Released all (id ∷ ids) s s'
  unfolding among
  Released-then all id ids s s1 s' a q b = record {
    sound = b.sound;
    same_users = b.same_users ∙ a.same_users;
    same_events = b.same_events ∙ a.same_events;
    same_bookings = b.same_bookings ∙ a.same_bookings;
    same_booking_seats = b.same_booking_seats ∙ a.same_booking_seats;
    seats = λ j k.
        joined j (view (seat_layout images) s.seats_table j)
          (view (seat_layout images) s1.seats_table j) (view (seat_layout images) s'.seats_table j)
          (a.seats j k) (b.seats j k);
  }
    where
      both : (j : ℕ) → Left true (id ∷ []) s j → Left all ids s1 j → Left all (id ∷ ids) s j
      both j (inl n) (inl m) = inl (ground (arith, n, m))
      both j (inr (inl f)) m = inr (inl f)
      both j (inr (inr f)) m = absurd (ground (arith, f))
      both j (inl n) (inr (inl f)) = inr (inl (q f))
      both j (inl n) (inr (inr f)) = inr (inr f)

      first : (j : ℕ) → among j (id ∷ []) ≡ true → (j == id) ≡ true
      first j h = ground (arith, h)

      joined :
          (j : ℕ) (x y z : Option SeatRecord)
          → ((y ≡ x) × Left true (id ∷ []) s j) ⊎ ((among j (id ∷ []) ≡ true) × (y ≡ freed_seat x))
          → ((z ≡ y) × Left all ids s1 j) ⊎ ((among j ids ≡ true) × (z ≡ freed_seat y))
          → ((z ≡ x) × Left all (id ∷ ids) s j) ⊎ ((among j (id ∷ ids) ≡ true) × (z ≡ freed_seat x))
      joined j x y z (inl (e, l)) (inl (f, m)) = inl (f ∙ e, both j l m)
      joined j x y z (inl (e, _)) (inr (h, f)) = inr (among-more id ids j h, f ∙ ap freed_seat e)
      joined j x y z (inr (h, e)) (inl (f, _)) = inr (among-this id ids j (first j h), f ∙ e)
      joined j x y z (inr (h, e)) (inr (g, f)) =
          inr (among-more id ids j g, f ∙ ap freed_seat e ∙ freed_twice x)

  pub release_one :
      (s : Server Price) (id : ℕ) (seat : SeatRecord) (t : Table SeatRecord) (env env' : Env)
      → IsSound images s
      → seat.is_deleted ≡ false
      → view (seat_layout images) s.seats_table id ≡ some seat
      → Replaces (seat_layout images) s.seats_table id (freed images seat) t
      → Released true (id ∷ []) s (record s { seats_table = t; env = env' })
  unfolding among
  release_one s id seat t env env' v live found (w, m, law) = record {
    sound = record {
      users = v.users;
      events = v.events;
      seats = w;
      bookings = v.bookings;
      booking_seats = v.booking_seats;
    };
    same_users = refl;
    same_events = refl;
    same_bookings = refl;
    same_booking_seats = refl;
    seats = λ j k. elim (Bool-cases (j == id)) [
      | inl h ↦
          let same : j ≡ id = ground (arith, h) in
          inr (
            rw h refl,
            law j k
                ∙ rw h (
                    ap (λ (d : Bool). if d then none else some (freed images seat)) live
                    ∙ sym (rw same (rw found refl))),
          )
      | inr h ↦ inl (law j k ∙ rw h refl, inl (rw h refl))
    ];
  }

  pub Released-trans :
      (all : Bool) (ids : List ℕ) (s s1 s' : Server Price)
      → tables s1 ≡ tables s
      → Fewer s.env s1.env
      → Released all ids s1 s'
      → Released all ids s s'
  Released-trans all ids s s1 s' e q r = record {
    sound = r.sound;
    same_users = r.same_users ∙ ap (λ (T : Tables Price). T.0) e;
    same_events = r.same_events ∙ ap (λ (T : Tables Price). T.1) e;
    same_bookings = r.same_bookings ∙ ap (λ (T : Tables Price). T.3) e;
    same_booking_seats = r.same_booking_seats ∙ ap (λ (T : Tables Price). T.4) e;
    seats = λ j k.
        subst
          (λ (T : Tables Price).
            ((view (seat_layout images) s'.seats_table j ≡ view (seat_layout images) T.2 j)
              × Left all ids s j)
            ⊎ ((among j ids ≡ true)
                × (view (seat_layout images) s'.seats_table j
                    ≡ freed_seat (view (seat_layout images) T.2 j))))
          e (with_reason j (r.seats j k));
  }
    where
      reason : (j : ℕ) → Left all ids s1 j → Left all ids s j
      reason j (inl n) = inl n
      reason j (inr (inl f)) = inr (inl (q f))
      reason j (inr (inr f)) = inr (inr f)

      with_reason :
          (j : ℕ) {x y z : Option SeatRecord}
          → ((x ≡ y) × Left all ids s1 j) ⊎ ((among j ids ≡ true) × (x ≡ z))
          → ((x ≡ y) × Left all ids s j) ⊎ ((among j ids ≡ true) × (x ≡ z))
      with_reason j (inl (h, l)) = inl (h, reason j l)
      with_reason j (inr f) = inr f
