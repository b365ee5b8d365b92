-- ===== src/Service.antt =====
-- The commands of a client, in server/main.c: the cases of `handle_command`. `session` is the client's
-- slot as the command finds it. A reply is its status; its text is not modelled. A command whose thread must wait for a
-- lock leaves the model with `none`.
pub mod Accounts
pub mod Laws
mod Tests
use event_ticketing_platform.Base.{
  ℕ, zero, suc, ◌+◌, ◌-◌, ◌%◌, Bool, true, false, not, ◌||◌, ◌&&◌, Option, none, some, List, [],
  ◌∷◌, ltb, ◌==◌, if◌then◌else◌, length, take, drop, map, get_or,
}
use event_ticketing_platform.Types.{EtpError, Result, ok, err}
use event_ticketing_platform.Records.{UserRecord, EventRecord, Images, user_layout}
use event_ticketing_platform.Storage.Table.{table_scan}
use event_ticketing_platform.Server.{Server, Action}
use event_ticketing_platform.Auth.Rbac.{role_admin}
use event_ticketing_platform.Auth.Sessions.{AuthManager, Session, login_session, auth_logout}
use event_ticketing_platform.Protocol.Commands.{same_name}
use event_ticketing_platform.Protocol.Parser.{ParsedCommand}
use event_ticketing_platform.Booking.{max_seats_per_booking}
use event_ticketing_platform.Booking.Book.{booking_book_seats}
use event_ticketing_platform.Booking.Cancel.{booking_cancel, booking_list_by_user}
use event_ticketing_platform.Events.{
  event_mgr_create_event, event_mgr_get_event, event_mgr_list_events, event_mgr_get_seats,
  event_mgr_delete_event,
}
use event_ticketing_platform.Service.Accounts.{auth_register, login_user}

pub data Reply : Type 0 where
  resp_ok resp_error resp_denied : Reply

-- The stores behind a command.
pub record World (Price : Type 0) : Type 0 where
  pub server : Server Price
  pub auth : AuthManager

-- The library calls on the text of an argument and on prices, and the clock.
pub record Calls (Price : Type 0) : Type 0 where
  -- `(uint32_t)atoi(arg)` and `(uint16_t)atoi(arg)`.
  pub atoi_u32 : List ℕ → ℕ
  pub atoi_u16 : List ℕ → ℕ
  -- `(float)atof(arg)`.
  pub atof : List ℕ → Price
  -- `isfinite(price) && price >= 0`.
  pub price_valid : Price → Bool
  pub times : Price → ℕ → Price
  pub now : ℕ

abbrev pub role_customer : ℕ
role_customer = 1

abbrev pub role_organizer : ℕ
role_organizer = 2

-- `organizer`, `organiser`, `customer`.
abbrev pub organizer_names : List (List ℕ)
organizer_names =
    (111 ∷ 114 ∷ 103 ∷ 97 ∷ 110 ∷ 105 ∷ 122 ∷ 101 ∷ 114 ∷ [])
    ∷ (111 ∷ 114 ∷ 103 ∷ 97 ∷ 110 ∷ 105 ∷ 115 ∷ 101 ∷ 114 ∷ [])
    ∷ []

abbrev pub customer_name : List ℕ
customer_name = 99 ∷ 117 ∷ 115 ∷ 116 ∷ 111 ∷ 109 ∷ 101 ∷ 114 ∷ []

abbrev pub arg : ParsedCommand → ℕ → List ℕ
arg cmd i = get_or cmd.args i []

-- The role that REGISTER asks for; none for a word that names no role.
unfoldable pub asked_role : ParsedCommand → Option ℕ
asked_role cmd =
    if ltb (length cmd.args) 3
    then some role_customer
    else if same_name (arg cmd 2) (get_or organizer_names 0 [])
        || same_name (arg cmd 2) (get_or organizer_names 1 [])
    then some role_organizer
    else if same_name (arg cmd 2) customer_name
    then some role_customer
    else none

abbrev pub Handled : Type 0 → Type 0
Handled Price = Option Reply × World Price

module _ {Price : Type 0} where
  -- The reply to an action on the server: an error of the action is RESP_ERROR.
  abbrev pub replied : {A : Type 0} → World Price → Result A × Server Price → Handled Price
  replied w (ok a, s) = (some resp_ok, record w { server = s })
  replied w (err e, s) = (some resp_error, record w { server = s })

  -- The same for an action whose thread may have to wait.
  abbrev pub replied_or_asleep :
      {A : Type 0} → World Price → Result (Option A) × Server Price → Handled Price
  replied_or_asleep w (ok none, s) = (none, record w { server = s })
  replied_or_asleep w (ok (some a), s) = (some resp_ok, record w { server = s })
  replied_or_asleep w (err e, s) = (some resp_error, record w { server = s })

  abbrev pub answered : Reply → World Price → Handled Price
  answered reply w = (some reply, w)

  -- A list that is empty is RESP_ERROR.
  abbrev pub listed : {A : Type 0} → World Price → Result (List A) × Server Price → Handled Price
  listed w (ok [], s) = (some resp_error, record w { server = s })
  listed w (ok (a ∷ more), s) = (some resp_ok, record w { server = s })
  listed w (err e, s) = (some resp_error, record w { server = s })

  abbrev pub session_reply : World Price → Result (Unit {0}) × AuthManager → Handled Price
  session_reply w (ok u, am) = (some resp_ok, record w { auth = am })
  session_reply w (err e, am) = (some resp_error, record w { auth = am })

module _ {Price : Type 0} (images : Images Price) (calls : Calls Price) where
  abbrev pub register_as : Session → ParsedCommand → Option ℕ → World Price → Handled Price
  register_as session cmd none w = answered resp_error w
  register_as session cmd (some role) w =
      if role == role_organizer && not (session.role == role_admin)
      then answered resp_denied w
      else replied w (auth_register images (arg cmd 0) (arg cmd 1) role calls.now w.server)

  -- REGISTER.
  unfoldable pub register_command : Session → ParsedCommand → World Price → Handled Price
  unfolding asked_role
  register_command session cmd w =
      if ltb (length cmd.args) 2
      then answered resp_error w
      else register_as session cmd (asked_role cmd) w

  -- The session of the client takes the user's id, role and name.
  abbrev pub logged_on : ℕ → World Price → Result UserRecord × Server Price → Handled Price
  logged_on fd w (ok user, s) =
      session_reply (record w { server = s })
        (login_session w.auth fd user.user_id user.role user.username calls.now)
  logged_on fd w (err e, s) = (some resp_error, record w { server = s })

  -- LOGIN; `fd` is the client's descriptor.
  unfoldable pub login_command : ℕ → Session → ParsedCommand → World Price → Handled Price
  login_command fd session cmd w =
      if ltb (length cmd.args) 2 || session.authenticated
      then answered resp_error w
      else logged_on fd w (login_user images (arg cmd 0) (arg cmd 1) w.server)

  -- LOGOUT.
  unfoldable pub logout_command : ℕ → World Price → Handled Price
  logout_command fd w = session_reply w (auth_logout w.auth fd)

  -- CREATE_EVENT.
  unfoldable pub create_event_command : Session → ParsedCommand → World Price → Handled Price
  create_event_command session cmd w =
      if ltb (length cmd.args) 7
      then answered resp_error w
      else replied w (
          event_mgr_create_event images calls.price_valid (arg cmd 0) (arg cmd 1) (arg cmd 2)
            (arg cmd 3) session.user_id (calls.atoi_u16 (arg cmd 4)) (calls.atoi_u16 (arg cmd 5))
            (calls.atof (arg cmd 6)) w.server)

  -- The event is there: its organizer and an administrator may delete it.
  abbrev pub delete_found :
      Session → ℕ → World Price → Result (EventRecord Price) × Server Price → Handled Price
  delete_found session eid w (err e, s) = (some resp_error, record w { server = s })
  delete_found session eid w (ok event, s) =
      if not (session.role == role_admin) && not (event.organizer_id == session.user_id)
      then (some resp_denied, record w { server = s })
      else replied w (event_mgr_delete_event images eid s)

  -- DELETE_EVENT.
  unfoldable pub delete_event_command : Session → ParsedCommand → World Price → Handled Price
  delete_event_command session cmd w =
      if ltb (length cmd.args) 1
      then answered resp_error w
      else delete_found session (calls.atoi_u32 (arg cmd 0)) w
          (event_mgr_get_event images (calls.atoi_u32 (arg cmd 0)) w.server)

  -- VIEW_EVENT.
  unfoldable pub view_event_command : ParsedCommand → World Price → Handled Price
  view_event_command cmd w =
      if ltb (length cmd.args) 1
      then answered resp_error w
      else replied w (event_mgr_get_event images (calls.atoi_u32 (arg cmd 0)) w.server)

  -- VIEW_SEATS, its memory being allocated.
  unfoldable pub view_seats_command : ParsedCommand → World Price → Handled Price
  view_seats_command cmd w =
      if ltb (length cmd.args) 1
      then answered resp_error w
      else listed w (event_mgr_get_seats images (calls.atoi_u32 (arg cmd 0)) 2600 w.server)

  -- LIST_EVENTS and MY_BOOKINGS: an empty list is RESP_OK, too.
  unfoldable pub list_events_command : World Price → Handled Price
  list_events_command w = replied w (event_mgr_list_events images 50 w.server)

  unfoldable pub my_bookings_command : Session → World Price → Handled Price
  my_bookings_command session w =
      replied w (booking_list_by_user images session.user_id 20 w.server)

  -- BOOK: the seats behind the event, at most ten of them.
  abbrev pub asked_seats : ParsedCommand → List ℕ
  asked_seats cmd = map calls.atoi_u32 (take max_seats_per_booking (drop 1 cmd.args))

  unfoldable pub book_command : Session → ParsedCommand → World Price → Handled Price
  book_command session cmd w =
      if ltb (length cmd.args) 2
      then answered resp_error w
      else replied_or_asleep w (
          booking_book_seats images calls.times calls.now session.user_id
            (calls.atoi_u32 (arg cmd 0)) (asked_seats cmd) w.server)

  -- CANCEL.
  unfoldable pub cancel_command : Session → ParsedCommand → World Price → Handled Price
  cancel_command session cmd w =
      if ltb (length cmd.args) 1
      then answered resp_error w
      else replied_or_asleep w
          (booking_cancel images (calls.atoi_u32 (arg cmd 0)) session.user_id w.server)

  -- LIST_USERS.
  unfoldable pub list_users_command : World Price → Handled Price
  list_users_command w =
      let r =
        table_scan (user_layout images) (λ (user : UserRecord). true) 50 w.server.users_table
          w.server.env in
      (some resp_ok, record w { server = record w.server { env = r.1 } })
