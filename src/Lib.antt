-- ===== src/Lib.antt =====
-- Event Ticketing Platform: a ticketing server with its own storage engine, transactions and locks.
-- A client's command reaches a worker thread, whose handler reads and writes five tables; a booking
-- does so in a transaction, under two-phase locking. This library models the core of the server.
--
-- Base holds the names, lists and Boolean tests that all files share.
-- Types is common/types.h, the enumerations and sizes.
-- Txn/Locks is server/txn/lock_manager.c. A function of the model is one critical section under a
-- bucket's mutex: `lock_mgr_lock` up to the grant or the first wait, `lock_mgr_wake` from the return
-- of `pthread_cond_wait` to the grant or the next wait, `lock_mgr_unlock` whole. Txn/Locks/Counts says
-- in plain counts what they answer and leave. Txn/Locks/Threads lets any number of threads run these sections in any order, with spurious wake-ups.
-- Txn/Manager is server/txn/txn_manager.c. `locks` holds the first `num_locks` elements of the array.
-- `txn_lock` waits outside the mutex, so it is `txn_lock` up to the lock manager's answer and
-- `txn_lock_woken` after a wait.
-- Storage/BTree is server/storage/btree.c, the index. A node's arrays are lists, its array of children
-- is a function of the index.
-- Storage/Page is server/storage/page.c, the records of a page in memory. The record area is a list
-- of values of a record type, each of the page's fixed size.
-- Storage/Wal is server/storage/wal.c, the log as the list of its entries, torn ones included.
-- Storage/Table is server/storage/table.c over the other three, for any record type whose id, deletion
-- flag and bytes a `Layout` gives. An action takes the table and its surroundings to a value or an
-- error, the table and the surroundings after it.
-- Auth/Rbac is server/auth/rbac.c, the permission matrix, with roles and commands as numbers.
-- Auth/Sessions is server/auth/auth.c, the pool of sessions; the end of `auth_login`, which writes the
-- session, is `login_session`.
-- Records is the record structures of common/types.h, each as a `Layout` for the table engine.
-- Server is the state behind server/core, `server_context_t` of server/main.c: the five tables, the
-- transactions, the locks and the surroundings. An `Action` takes it to a value or an error code and
-- the state after it. Server/Rules and Server/Stores are the rules for proofs on actions,
-- and Server/Faults tells which faults are left after them.
-- Booking is server/core/booking_engine.c. Booking/Order is about the order of the locks, Booking/Book
-- is `booking_book_seats`, Booking/Cancel is `booking_cancel`. A thread that must wait for a lock
-- leaves the model there with `none`; `book_locked` and `release_seat`, which it runs with its locks,
-- start from any state.
-- Events is server/core/event_mgr.c.
-- Protocol is server/protocol/parser.c with the names of the commands in server/auth/rbac.c, and
-- Protocol/Lines the reading and writing of a connection in server/main.c.
-- Network/Pool is server/network/thread_pool.c. A function is one critical section under the pool's
-- mutex; submitters, workers and the thread that destroys the pool run them in any order. A worker that
-- waits on `not_empty` sleeps until a signal, the broadcast or a spurious wake-up; submitters that wait
-- on `not_full` are no part of the state. The linked list with its tail pointer is a list.
-- Service is the cases of `handle_command` in server/main.c, Service/Accounts the accounts of
-- server/auth/auth.c with the password hash of common/utils.c.
--
-- Numbers are natural numbers with the wrap-around of the C types written out. The operating system
-- answers each call that may fail from a list, `faults`, over which the theorems quantify; so every
-- pattern of failures of reads, writes and syncs is covered. The allocation of memory may fail in
-- `lock_mgr_lock` and in the thread pool, and is taken to succeed elsewhere. The binary search of the
-- index runs on fuel, one round for each key, and the sort of the seat ids on one round for each
-- place; the theorems on them show that this is enough. The other loops are structural.
--
-- Not modelled: the buffer pool, of which the table engine uses that it answers a page or fails; the
-- reading and writing of whole files (opening a table, saving the index, recovery from the log);
-- sockets, logging and statistics, and the texts of replies, which are I/O and formatting; the reports
-- of revenue, with the command that prints them; the failure of `lseek` in `page_get_count`, after which
-- it answers 0; and the loop of `client_handler`.
mod Base
pub mod Types
pub mod Txn
pub mod Storage
pub mod Auth
pub mod Protocol
pub mod Network
pub mod Records
pub mod Server
pub mod Booking
pub mod Events
pub mod Service
