-- ===== src/Booking/Book/Twice.antt =====
-- No seat is sold twice: two calls of `booking_book_seats` of server/core/booking_engine.c, one after
-- the other.
use event_ticketing_platform.Base.{
  ℕ, ◌+◌, ◌<◌, ◌≡◌, refl, sym, ap, subst, ◌∙◌, Option, none, some, List, [], ◌∷◌, arith, Bool, true,
  false, Bool-cases, inl, inr, ◌==◌, ==_iff, length,
}
use event_ticketing_platform.Types.{Result, ok, u32_mod}
use event_ticketing_platform.Records.{SeatRecord, Images, seat_layout, seat_available}
use event_ticketing_platform.Storage.Table.{Table}
use event_ticketing_platform.Storage.Table.Laws.{view}
use event_ticketing_platform.Server.{Server}
use event_ticketing_platform.Server.Rules.{Ensures}
use event_ticketing_platform.Booking.{among, valid_request, sort_seat_ids}
use event_ticketing_platform.Booking.Order.{count, among-count, sort_seat_ids-Ascending}
use event_ticketing_platform.Booking.Book.{booking_book_seats}
use event_ticketing_platform.Booking.Book.Check.{IsOpen, AllOpen}
use event_ticketing_platform.Booking.Book.Writes.{IsSound, AllSmall, sold_if}
use event_ticketing_platform.Booking.Book.Call.{Answers, booking_book_seats-Ensures}

count-among : (x : ℕ) (ids : List ℕ) → count x ids ≡ 0 → among x ids ≡ false
unfolding among count
count-among x [] h = refl
count-among x (y ∷ ids) h = ground (arith, h, count-among x ids)

sorted-among :
    (x : ℕ) (ids : List ℕ)
    → valid_request ids ≡ true
    → among x ids ≡ true
    → among x (sort_seat_ids ids) ≡ true
sorted-among x ids v h = elim (Bool-cases (among x (sort_seat_ids ids))) [
  | inl e ↦ e
  | inr e ↦
      let gone : count x ids ≡ 0 =
        sym ((sort_seat_ids-Ascending ids v).1 x) ∙ among-count x (sort_seat_ids ids) e in
      absurd (ground (arith, h, count-among x ids gone))
]

module _ {Price : Type 0} (images : Images Price) where
  IsOpen-among :
      (t : Table SeatRecord) (event_id x : ℕ) (ids : List ℕ)
      → AllOpen images t event_id ids
      → among x ids ≡ true
      → IsOpen images t event_id x
  unfolding among
  IsOpen-among t event_id x [] a h = absurd (ground (arith, h))
  IsOpen-among t event_id x (y ∷ ids) (o, a) h = elim (Bool-cases (x == y)) [
    | inl e ↦ subst (IsOpen images t event_id) (sym ((==_iff x y).0 e)) o
    | inr e ↦ IsOpen-among t event_id x ids a (ground (arith, h, e))
  ]

  small_among : (x : ℕ) (ids : List ℕ) → AllSmall images ids → among x ids ≡ true → x < u32_mod
  unfolding among
  small_among x [] a h = absurd (ground (arith, h))
  small_among x (y ∷ ids) (o, a) h = elim (Bool-cases (x == y)) [
    | inl e ↦ omega (arith, (==_iff x y).0 e)
    | inr e ↦ small_among x ids a (ground (arith, h, e))
  ]

  sold_closed :
      (user_id event_id : ℕ) (o o' : Option SeatRecord) (r : SeatRecord)
      → o' ≡ sold_if true user_id o
      → o' ≡ some r
      → r.status ≡ seat_available
      → ⊥
  sold_closed user_id event_id none o' r e f h = ground (arith, e, f)
  sold_closed user_id event_id (some q) o' r e f h = ground (arith, sym e ∙ f, h)

  pub delivered :
      (times : Price → ℕ → Price) (now user_id event_id : ℕ) (ids : List ℕ) (s s' : Server Price)
      (n : ℕ)
      → AllSmall images ids
      → IsSound images s
      → s.bookings_table.next_id + 1 < u32_mod
      → s.booking_seats_table.next_id + length ids < u32_mod
      → booking_book_seats images times now user_id event_id ids s ≡ (ok (some n), s')
      → Answers images times now user_id event_id ids s (some n) s'
  delivered times now user_id event_id ids s s' n small v room many e =
      subst
        (λ (o : Result (Option ℕ) × Server Price).
          Ensures o (λ out s'. Answers images times now user_id event_id ids s out s')
            (λ c s'. IsSound images s'))
        e (booking_book_seats-Ensures images times now user_id event_id ids s small v room many)

  -- The calls of `booking_book_seats` for two users, both of which deliver a booking, the second from any
  -- state where the seat `x` still shows what the first has left: no seat `x` is in both requests. Every
  -- table is in order before the calls, the requests are 32-bit ids, and enough ids are left.
  pub no_double_booking :
      (times : Price → ℕ → Price) (now now' user_id user_id' event_id event_id' : ℕ)
      (ids ids' : List ℕ) (s s1 s2 s' : Server Price) (n n' x : ℕ)
      → AllSmall images ids
      → AllSmall images ids'
      → IsSound images s
      → IsSound images s2
      → s.bookings_table.next_id + 1 < u32_mod
      → s2.bookings_table.next_id + 1 < u32_mod
      → s.booking_seats_table.next_id + length ids < u32_mod
      → s2.booking_seats_table.next_id + length ids' < u32_mod
      → booking_book_seats images times now user_id event_id ids s ≡ (ok (some n), s1)
      → view (seat_layout images) s2.seats_table x ≡ view (seat_layout images) s1.seats_table x
      → booking_book_seats images times now' user_id' event_id' ids' s2 ≡ (ok (some n'), s')
      → among x ids ≡ true
      → ¬ (among x ids' ≡ true)
  no_double_booking times now now' user_id user_id' event_id event_id' ids ids' s s1 s2 s' n n' x
        small small' v v' room room' many many' first kept second mine yours =
      let (evt, found, valid, sold) =
        delivered times now user_id event_id ids s s1 n small v room many first in
      let (evt', found', valid', sold') =
        delivered times now' user_id' event_id' ids' s2 s' n' small' v' room' many' second in
      let (r, shown, of_event, available) =
        IsOpen-among s2.seats_table event_id' x (sort_seat_ids ids') sold'.were_open
          (sorted-among x ids' valid' yours) in
      sold_closed user_id event_id (view (seat_layout images) s.seats_table x)
        (view (seat_layout images) s1.seats_table x) r
        (sold.seats x (small_among x ids small mine)
          ∙ ap (λ (b : Bool). sold_if b user_id (view (seat_layout images) s.seats_table x))
              (sorted-among x ids valid mine))
        (sym kept ∙ shown) available
