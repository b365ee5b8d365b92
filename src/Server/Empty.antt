-- ===== src/Server/Empty.antt =====
-- The state behind server/core before the first command, on new files.
use event_ticketing_platform.Base.{ℕ, [], arith, true}
use event_ticketing_platform.Types.{TableId, users, events, seats, bookings, booking_seats}
use event_ticketing_platform.Records.{
  Images, user_layout, event_layout, seat_layout, booking_layout, booking_seat_layout,
}
use event_ticketing_platform.Storage.BTree.{leaf}
use event_ticketing_platform.Storage.BTree.Laws.{empty, search-empty}
use event_ticketing_platform.Storage.Table.{Layout, Table}
use event_ticketing_platform.Storage.Table.Laws.{IsTable}
use event_ticketing_platform.Storage.Wal.{Env}
use event_ticketing_platform.Txn.Locks.{lock_mgr_create}
use event_ticketing_platform.Txn.Manager.{txn_mgr_create}
use event_ticketing_platform.Server.{Server}
use event_ticketing_platform.Booking.Book.Writes.{IsSound}

-- A log without entries, on a system without failures.
abbrev pub calm : Env
calm = record { wal = record { file = []; next_lsn = 1; flushed_lsn = 0 }; faults = [] }

module _ {R : Type 0} (L : Layout R) (id : TableId) where
  abbrev pub empty_table : Table R
  empty_table = record {
    id = id;
    pages = [];
    index = record { order = 4; root = leaf [] []; size = 0; dirty = true };
    next_id = 1;
  }

  pub empty_table-IsTable : IsTable L empty_table
  empty_table-IsTable = record {
    tree = (omega arith, empty);
    paged = λ p h. absurd (omega arith);
    linked = λ j ptr k e. absurd (ground (arith, search-empty 4 j));
    unused = λ j h k. search-empty 4 j;
    next_small = omega arith;
  }

module _ {Price : Type 0} (images : Images Price) where
  abbrev pub empty_server : Server Price
  empty_server = record {
    users_table = empty_table (user_layout images) users;
    events_table = empty_table (event_layout images) events;
    seats_table = empty_table (seat_layout images) seats;
    bookings_table = empty_table (booking_layout images) bookings;
    booking_seats_table = empty_table (booking_seat_layout images) booking_seats;
    txn_mgr = txn_mgr_create;
    lock_mgr = lock_mgr_create;
    env = calm;
  }

  pub empty_server-IsSound : IsSound images empty_server
  empty_server-IsSound = record {
    users = empty_table-IsTable (user_layout images) users;
    events = empty_table-IsTable (event_layout images) events;
    seats = empty_table-IsTable (seat_layout images) seats;
    bookings = empty_table-IsTable (booking_layout images) bookings;
    booking_seats = empty_table-IsTable (booking_seat_layout images) booking_seats;
  }

-- Records whose bytes nothing reads, with whole prices.
abbrev pub plain_images : Images ℕ
plain_images = record {
  user_bytes = λ r. [];
  event_bytes = λ r. [];
  seat_bytes = λ r. [];
  booking_bytes = λ r. [];
  booking_seat_bytes = λ r. [];
}
