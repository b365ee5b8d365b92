-- ===== src/Records.antt =====
-- The record structures of common/types.h. A name or a date is the list of its bytes up to the
-- terminator; a `float` is a value of the parameter `Price`.
use event_ticketing_platform.Base.{ℕ, refl, Bool, true, List}
use event_ticketing_platform.Storage.Table.{Layout}

abbrev pub seat_available : ℕ
seat_available = 0

abbrev pub seat_booked : ℕ
seat_booked = 2

abbrev pub event_active : ℕ
event_active = 0

abbrev pub booking_confirmed : ℕ
booking_confirmed = 0

abbrev pub booking_cancelled : ℕ
booking_cancelled = 1

pub record UserRecord : Type 0 where
  pub user_id : ℕ
  pub username : List ℕ
  pub password_hash : List ℕ
  pub role : ℕ
  pub created_at : ℕ
  pub is_deleted : Bool

pub record EventRecord (Price : Type 0) : Type 0 where
  pub event_id : ℕ
  pub name : List ℕ
  pub venue : List ℕ
  pub event_date : List ℕ
  pub event_time : List ℕ
  pub organizer_id : ℕ
  pub total_rows : ℕ
  pub seats_per_row : ℕ
  pub price : Price
  pub status : ℕ
  pub is_deleted : Bool

pub record SeatRecord : Type 0 where
  pub seat_id : ℕ
  pub event_id : ℕ
  pub row_label : ℕ
  pub seat_number : ℕ
  pub status : ℕ
  pub booked_by : ℕ
  pub is_deleted : Bool

pub record BookingRecord (Price : Type 0) : Type 0 where
  pub booking_id : ℕ
  pub user_id : ℕ
  pub event_id : ℕ
  pub seat_count : ℕ
  pub total_amount : Price
  pub status : ℕ
  pub booked_at : ℕ
  pub is_deleted : Bool

pub record BookingSeatRecord : Type 0 where
  pub booking_id : ℕ
  pub seat_id : ℕ
  pub is_deleted : Bool
  pub junction_id : ℕ

-- The bytes of the packed structures, as the compiler lays them out: only the log takes them.
pub record Images (Price : Type 0) : Type 0 where
  pub user_bytes : UserRecord → List ℕ
  pub event_bytes : EventRecord Price → List ℕ
  pub seat_bytes : SeatRecord → List ℕ
  pub booking_bytes : BookingRecord Price → List ℕ
  pub booking_seat_bytes : BookingSeatRecord → List ℕ

module _ {Price : Type 0} (images : Images Price) where
  abbrev pub user_layout : Layout UserRecord
  user_layout = record {
    key = λ r. r.user_id;
    set_key = λ k r. record r { user_id = k };
    deleted = λ r. r.is_deleted;
    mark_deleted = λ r. record r { is_deleted = true };
    bytes = images.user_bytes;
    key-set_key = λ k r. refl;
    deleted-set_key = λ k r. refl;
    key-mark_deleted = λ r. refl;
    deleted-mark_deleted = λ r. refl;
  }

  abbrev pub event_layout : Layout (EventRecord Price)
  event_layout = record {
    key = λ r. r.event_id;
    set_key = λ k r. record r { event_id = k };
    deleted = λ r. r.is_deleted;
    mark_deleted = λ r. record r { is_deleted = true };
    bytes = images.event_bytes;
    key-set_key = λ k r. refl;
    deleted-set_key = λ k r. refl;
    key-mark_deleted = λ r. refl;
    deleted-mark_deleted = λ r. refl;
  }

  abbrev pub seat_layout : Layout SeatRecord
  seat_layout = record {
    key = λ r. r.seat_id;
    set_key = λ k r. record r { seat_id = k };
    deleted = λ r. r.is_deleted;
    mark_deleted = λ r. record r { is_deleted = true };
    bytes = images.seat_bytes;
    key-set_key = λ k r. refl;
    deleted-set_key = λ k r. refl;
    key-mark_deleted = λ r. refl;
    deleted-mark_deleted = λ r. refl;
  }

  abbrev pub booking_layout : Layout (BookingRecord Price)
  booking_layout = record {
    key = λ r. r.booking_id;
    set_key = λ k r. record r { booking_id = k };
    deleted = λ r. r.is_deleted;
    mark_deleted = λ r. record r { is_deleted = true };
    bytes = images.booking_bytes;
    key-set_key = λ k r. refl;
    deleted-set_key = λ k r. refl;
    key-mark_deleted = λ r. refl;
    deleted-mark_deleted = λ r. refl;
  }

  -- Its key is `junction_id`.
  abbrev pub booking_seat_layout : Layout BookingSeatRecord
  booking_seat_layout = record {
    key = λ r. r.junction_id;
    set_key = λ k r. record r { junction_id = k };
    deleted = λ r. r.is_deleted;
    mark_deleted = λ r. record r { is_deleted = true };
    bytes = images.booking_seat_bytes;
    key-set_key = λ k r. refl;
    deleted-set_key = λ k r. refl;
    key-mark_deleted = λ r. refl;
    deleted-mark_deleted = λ r. refl;
  }
