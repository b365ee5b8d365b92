-- ===== src/Booking/Cancel/Laws.antt =====
-- `booking_cancel` of server/core/booking_engine.c as a whole.
use event_ticketing_platform.Base.{ℕ, ◌<◌, ◌≡◌, Option, none, some, true, ◌⊎◌}
use event_ticketing_platform.Types.{Result, u32_mod}
use event_ticketing_platform.Records.{
  BookingRecord, Images, booking_layout, booking_seat_layout, booking_confirmed,
}
use event_ticketing_platform.Storage.Table.Laws.{view}
use event_ticketing_platform.Storage.Table.Scan.{records, readable}
use event_ticketing_platform.Storage.Wal.{Env}
use event_ticketing_platform.Server.{Server}
use event_ticketing_platform.Server.Faults.{faulty}
use event_ticketing_platform.Server.Rules.{Ensures}
use event_ticketing_platform.Booking.{sort_seat_ids}
use event_ticketing_platform.Booking.Book.Check.{tables}
use event_ticketing_platform.Booking.Book.Writes.{IsSound}
use event_ticketing_platform.Booking.Cancel.Ids.{tied_seats, Fits}
use event_ticketing_platform.Booking.Cancel.Close.{Cancels}

module _ {Price : Type 0} (images : Images Price) where
  abbrev pub Owned : Server Price → ℕ → ℕ → BookingRecord Price → Type 0
  Owned s booking_id user_id r =
      (view (booking_layout images) s.bookings_table booking_id ≡ some r)
      × (r.user_id ≡ user_id)
      × (r.status ≡ booking_confirmed)

  -- The scan meets every junction record, or a call into the operating system was to fail.
  abbrev pub ReadsAll : Server Price → Env → Type 0
  ReadsAll s env =
      (faulty s.env ≡ true)
      ⊎ (readable (booking_seat_layout images) s.booking_seats_table.pages env
          ≡ s.booking_seats_table.pages)

  abbrev pub Answers : Server Price → ℕ → ℕ → Option (Unit {0}) → Server Price → Type 0
  Answers s booking_id user_id out s' =
      ((out ≡ none) × (tables s' ≡ tables s))
      ⊎ ((r : BookingRecord Price) × (env : Env) × Owned s booking_id user_id r
          × ReadsAll s env
          × Cancels images s booking_id r (sort_seat_ids (tied_seats images s env booking_id)) out
              s')

  abbrev pub Fails : Server Price → ℕ → ℕ → Server Price → Type 0
  Fails s booking_id user_id s' =
      (tables s' ≡ tables s)
      ⊎ ((r : BookingRecord Price) × Owned s booking_id user_id r × IsSound images s')

  module _ (s : Server Price) (booking_id user_id : ℕ) (v : IsSound images s)
      (small : booking_id < u32_mod)
      (fits : Fits images (records (booking_seat_layout images) s.booking_seats_table.pages)) where
    abbrev Ends : Result (Option (Unit {0})) × Server Price → Type 0
    Ends o =
        Ensures o (λ out s'. Answers s booking_id user_id out s')
          (λ e s'. Fails s booking_id user_id s')
