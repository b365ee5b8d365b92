-- ===== src/Booking/Cancel/Ids.antt =====
-- The seats that `booking_cancel` of server/core/booking_engine.c finds in the junction table.
use event_ticketing_platform.Base.{
  ℕ, zero, suc, ◌<◌, List, [], ◌∷◌, ◌++◌, Bool, true, false, not, ◌&&◌, if◌then◌else◌, map, take,
}
use event_ticketing_platform.Types.{u32_mod}
use event_ticketing_platform.Records.{BookingSeatRecord, Images, booking_seat_layout}
use event_ticketing_platform.Storage.Page.{Page}
use event_ticketing_platform.Storage.Table.Scan.{matches, records, readable}
use event_ticketing_platform.Storage.Wal.{Env, fails, after_call}
use event_ticketing_platform.Server.{Server}
use event_ticketing_platform.Booking.{max_seats_per_booking}
use event_ticketing_platform.Booking.Book.Writes.{AllSmall}
use event_ticketing_platform.Booking.Cancel.{filter_booking_seats}

module _ {Price : Type 0} (images : Images Price) where
  -- The seats of the junction records that name the booking: the first ten on the pages that can be read
  -- when `env` tells which reads fail.
  abbrev pub tied_seats : Server Price → Env → ℕ → List ℕ
  tied_seats s env booking_id =
      map (λ (bs : BookingSeatRecord). bs.seat_id)
        (take max_seats_per_booking (
          matches (booking_seat_layout images) (filter_booking_seats booking_id) (
            records (booking_seat_layout images)
              (readable (booking_seat_layout images) s.booking_seats_table.pages env))))

  -- The seat ids of the junction records are 32-bit numbers.
  abbrev pub Fits : List BookingSeatRecord → Type 0
  Fits [] = Unit {0}
  Fits (r ∷ rs) = (r.seat_id < u32_mod) × Fits rs

  take-Fits : (n : ℕ) (rs : List BookingSeatRecord) → Fits rs → Fits (take n rs)
  take-Fits zero rs h = tt
  take-Fits (suc n) [] h = tt
  take-Fits (suc n) (r ∷ rs) (a, h) = (a, take-Fits n rs h)

  append_Fits : (rs qs : List BookingSeatRecord) → Fits (rs ++ qs) → Fits rs × Fits qs
  append_Fits [] qs h = (tt, h)
  append_Fits (r ∷ rs) qs (a, h) = ((a, (append_Fits rs qs h).0), (append_Fits rs qs h).1)

  both_fit : (rs qs : List BookingSeatRecord) → Fits rs → Fits qs → Fits (rs ++ qs)
  both_fit [] qs h k = k
  both_fit (r ∷ rs) qs (a, h) k = (a, both_fit rs qs h k)

  matches-Fits :
      (filter : BookingSeatRecord → Bool) (rs : List BookingSeatRecord)
      → Fits rs
      → Fits (matches (booking_seat_layout images) filter rs)
  unfolding matches
  matches-Fits filter [] h = tt
  matches-Fits filter (r ∷ rs) (a, h) =
      by_test (not r.is_deleted && filter r) (matches-Fits filter rs h)
    where
      by_test :
          (b : Bool)
          → Fits (matches (booking_seat_layout images) filter rs)
          → Fits (
              if b
              then r ∷ matches (booking_seat_layout images) filter rs
              else matches (booking_seat_layout images) filter rs)
      by_test true k = (a, k)
      by_test false k = k

  readable-Fits :
      (pages : List (Page BookingSeatRecord)) (env : Env)
      → Fits (records (booking_seat_layout images) pages)
      → Fits
          (records (booking_seat_layout images) (readable (booking_seat_layout images) pages env))
  unfolding records readable
  readable-Fits [] env h = tt
  readable-Fits (page ∷ pages) env h = by_read (fails env) (readable-Fits pages (after_call env)) (
      append_Fits (take page.record_count page.slots) (records (booking_seat_layout images) pages)
        h)
    where
      by_read :
          (b : Bool)
          → (Fits (records (booking_seat_layout images) pages)
              → Fits (
                  records
                    (booking_seat_layout images)
                    (readable (booking_seat_layout images) pages (after_call env))))
          → Fits (take page.record_count page.slots)
            × Fits (records (booking_seat_layout images) pages)
          → Fits (
              records (booking_seat_layout images) (
                if b
                then readable (booking_seat_layout images) pages (after_call env)
                else page ∷ readable (booking_seat_layout images) pages (after_call env)))
      by_read true ih (here, more) = ih more
      by_read false ih (here, more) = both_fit (take page.record_count page.slots) _ here (ih more)

  Fits_ids :
      (rs : List BookingSeatRecord)
      → Fits rs
      → AllSmall images (map (λ (bs : BookingSeatRecord). bs.seat_id) rs)
  Fits_ids [] h = tt
  Fits_ids (r ∷ rs) (a, h) = (a, Fits_ids rs h)

  pub AllSmall-tied_seats :
      (s : Server Price) (env : Env) (booking_id : ℕ)
      → Fits (records (booking_seat_layout images) s.booking_seats_table.pages)
      → AllSmall images (tied_seats s env booking_id)
  AllSmall-tied_seats s env booking_id h = Fits_ids _ (
      take-Fits max_seats_per_booking _ (
        matches-Fits (filter_booking_seats booking_id) _
          (readable-Fits s.booking_seats_table.pages env h)))
