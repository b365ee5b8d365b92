-- ===== src/Booking/Tests.antt =====
-- A request for three seats, and a shop with one event and two of its seats.
use event_ticketing_platform.Types.{ok, u32_mod}
use event_ticketing_platform.Booking.Book.Twice.{delivered, no_double_booking}
use event_ticketing_platform.Base.{
  some, ℕ, ◌+◌, ◌<◌, ◌*◌, ◌≡◌, refl, true, false, List, [], ◌∷◌, arith,
}
use event_ticketing_platform.Types.{users, events, seats, bookings, booking_seats}
use event_ticketing_platform.Records.{
  EventRecord, SeatRecord, Images, user_layout, event_layout, seat_layout, booking_layout,
  booking_seat_layout, seat_available, event_active,
}
use event_ticketing_platform.Storage.Table.{
  Table, table_insert, fetch, store, etp_next_id, page_alloc, last_page, or_alloc, log_first,
  or_fail, index_insert, index_delete, lookup, place, insert_into, live_record, table_find_by_id,
  table_update, table_delete, scan_slots, scan_pages, table_scan, table_count,
}
use event_ticketing_platform.Storage.Table.Laws.{IsTable}
use event_ticketing_platform.Storage.Table.Insertion.{table_insert_lem}
use event_ticketing_platform.Txn.Locks.{
  lock_mgr_create, lock_hash, same_key, find_entry, store_entry, unlink, try_remove_entry,
  lock_mgr_lock, lock_mgr_unlock, release_chain, lock_mgr_release_all,
}
use event_ticketing_platform.Txn.Manager.{
  txn_mgr_create, find_txn, store_txn, claim, txn_begin, release_locks, txn_abort, txn_commit,
  holds, txn_lock_granted, after_lock, txn_lock,
}
use event_ticketing_platform.Server.{Server}
use event_ticketing_platform.Server.Empty.{calm, empty_table, empty_table-IsTable, plain_images}
use event_ticketing_platform.Server.Rules.{Ensures}
use event_ticketing_platform.Booking.{
  valid_request, sort_seat_ids, among, check_seat_ids, sweep, sort_loop,
}
use event_ticketing_platform.Booking.Order.{count, Ascending, sort_seat_ids-Ascending}
use event_ticketing_platform.Booking.Book.{
  booking_book_seats, lock_seats, check_seat, verify_seats, sell_seat, find_and_sell, book_seat,
  book_each, close_booking, book_verified, book_locked, book_held, book_active, find_event,
}
use event_ticketing_platform.Booking.Book.Writes.{IsSound}
use event_ticketing_platform.Booking.Book.Call.{Answers, booking_book_seats-Ensures}
use event_ticketing_platform.Booking.Cancel.{
  booked_seat_ids, release_found, release_seat, release_seats, close_cancel, cancel_checked,
  check_booking, cancel_held, booking_cancel,
}
use event_ticketing_platform.Booking.Cancel
use event_ticketing_platform.Storage.BTree.{
  lower_bound_loop, key_lower_bound, key_find_exact, child_index, find_leaf, insert_at, remove_at,
  split_leaf, split_internal, grow_leaf, grow_internal, insert_leaf, adopt, insert_recursive,
  btree_insert, search_node, btree_search, delete_node,
}
use event_ticketing_platform.Storage.Page.{
  page_get_max_records, write_slot, page_init_header, page_is_full, page_insert_record,
  page_get_record, page_update_record,
}
use event_ticketing_platform.Storage.Wal.{
  append_data, wal_append, wal_log_insert, wal_log_update, wal_log_delete, wal_log_commit,
  wal_log_abort, wal_flush,
}

abbrev request : List ℕ
request = 9 ∷ 2 ∷ 5 ∷ []

request-valid : valid_request request ≡ true
unfolding valid_request
request-valid = refl

request-sorted : sort_seat_ids request ≡ 2 ∷ 5 ∷ 9 ∷ []
unfolding sort_seat_ids
request-sorted = refl

sort_seat_ids-Ascending_example :
    Ascending (sort_seat_ids request)
    × ((k : ℕ) → count k (sort_seat_ids request) ≡ count k request)
sort_seat_ids-Ascending_example = sort_seat_ids-Ascending request request-valid

abbrev images : Images ℕ
images = plain_images

abbrev concert : EventRecord ℕ
concert = record {
  event_id = 0;
  name = [];
  venue = [];
  event_date = [];
  event_time = [];
  organizer_id = 1;
  total_rows = 1;
  seats_per_row = 2;
  price = 30;
  status = event_active;
  is_deleted = false;
}

abbrev seat : ℕ → SeatRecord
seat n = record {
  seat_id = 0;
  event_id = 1;
  row_label = 65;
  seat_number = n;
  status = seat_available;
  booked_by = 0;
  is_deleted = false;
}

abbrev events_table : Table (EventRecord ℕ)
events_table =
    (table_insert (event_layout images) concert (empty_table (event_layout images) events) calm).1

abbrev one_seat : Table SeatRecord
one_seat =
    (table_insert (seat_layout images) (seat 1) (empty_table (seat_layout images) seats) calm).1

abbrev two_seats : Table SeatRecord
two_seats = (table_insert (seat_layout images) (seat 2) one_seat calm).1

abbrev shop : Server ℕ
shop = record {
  users_table = empty_table (user_layout images) users;
  events_table = events_table;
  seats_table = two_seats;
  bookings_table = empty_table (booking_layout images) bookings;
  booking_seats_table = empty_table (booking_seat_layout images) booking_seats;
  txn_mgr = txn_mgr_create;
  lock_mgr = lock_mgr_create;
  env = calm;
}

one_seat-landed : IsTable (seat_layout images) one_seat × (one_seat.next_id ≡ 2)
one_seat-landed =
    (table_insert_lem (seat_layout images) (empty_table (seat_layout images) seats) (seat 1) calm
      (empty_table-IsTable (seat_layout images) seats) (omega arith)).0

shop-IsSound : IsSound images shop
shop-IsSound = record {
  users = empty_table-IsTable (user_layout images) users;
  events =
      (table_insert_lem (event_layout images) (empty_table (event_layout images) events) concert
        calm (empty_table-IsTable (event_layout images) events) (omega arith)).0.0;
  seats =
      (table_insert_lem (seat_layout images) one_seat (seat 2) calm one_seat-landed.0
        (omega (arith, one_seat-landed.1))).0.0;
  bookings = empty_table-IsTable (booking_layout images) bookings;
  booking_seats = empty_table-IsTable (booking_seat_layout images) booking_seats;
}

abbrev buy : List ℕ
buy = 2 ∷ 1 ∷ []

booking_book_seats-Ensures_example :
    Ensures
      (booking_book_seats images (λ p n. p * n) 100 7 1 buy shop)
      (λ out s'. Answers images (λ p n. p * n) 100 7 1 buy shop out s')
      (λ e s'. IsSound images s')
booking_book_seats-Ensures_example =
    booking_book_seats-Ensures images (λ p n. p * n) 100 7 1 buy shop
      (omega arith, (omega arith, tt)) shop-IsSound (omega arith) (omega arith)

program : Unit {0}
unfolding lower_bound_loop key_lower_bound key_find_exact child_index find_leaf insert_at remove_at
    split_leaf split_internal grow_leaf grow_internal insert_leaf adopt insert_recursive
    btree_insert search_node btree_search delete_node page_get_max_records write_slot
    page_init_header page_is_full page_insert_record page_get_record page_update_record append_data
    wal_append wal_log_insert wal_log_update wal_log_delete wal_log_commit wal_log_abort wal_flush
    fetch store etp_next_id page_alloc last_page or_alloc log_first or_fail index_insert
    index_delete lookup place insert_into table_insert live_record table_find_by_id table_update
    table_delete scan_slots scan_pages table_scan table_count find_txn store_txn claim txn_begin
    release_locks txn_abort txn_commit holds txn_lock_granted after_lock txn_lock lock_hash same_key
    find_entry store_entry unlink try_remove_entry lock_mgr_create lock_mgr_lock lock_mgr_unlock
    release_chain lock_mgr_release_all among check_seat_ids valid_request sweep sort_loop
    sort_seat_ids lock_seats check_seat verify_seats sell_seat find_and_sell book_seat book_each
    close_booking book_verified book_locked book_held book_active find_event booking_book_seats
    count
program = tt

-- One seat each, by two users.
abbrev times : ℕ → ℕ → ℕ
times price n = price * n

abbrev first_sold : Server ℕ
first_sold = (booking_book_seats images times 100 7 1 (1 ∷ []) shop).1

abbrev second_sold : Server ℕ
second_sold = (booking_book_seats images times 101 8 1 (2 ∷ []) first_sold).1

first_booked : booking_book_seats images times 100 7 1 (1 ∷ []) shop ≡ (ok (some 1), first_sold)
unfolding program
first_booked = refl

second_booked :
    booking_book_seats images times 101 8 1 (2 ∷ []) first_sold ≡ (ok (some 2), second_sold)
unfolding program
second_booked = refl

first_sold-IsSound : IsSound images first_sold
first_sold-IsSound =
    (delivered images times 100 7 1 (1 ∷ []) shop first_sold 1 (omega arith, tt) shop-IsSound
      (omega arith) (omega arith) first_booked).3.sound

first_sold-room : first_sold.bookings_table.next_id + 1 < u32_mod
unfolding program
first_sold-room = omega arith

first_sold-many : first_sold.booking_seats_table.next_id + 1 < u32_mod
unfolding program
first_sold-many = omega arith

seat_asked : among 1 (1 ∷ []) ≡ true
unfolding program
seat_asked = refl

no_double_booking_example : ¬ (among 1 (2 ∷ []) ≡ true)
no_double_booking_example =
    no_double_booking images times 100 101 7 8 1 1 (1 ∷ []) (2 ∷ []) shop first_sold first_sold
      second_sold 1 2 1 (omega arith, tt) (omega arith, tt) shop-IsSound first_sold-IsSound
      (omega arith) first_sold-room (omega arith) first_sold-many first_booked refl second_booked
      seat_asked

first_cancelled : (booking_cancel images 1 7 first_sold).0 ≡ ok (some tt)
unfolding program booked_seat_ids release_found release_seat release_seats close_cancel
    cancel_checked check_booking cancel_held booking_cancel
first_cancelled = refl
