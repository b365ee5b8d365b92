-- ===== src/Auth/Sessions.antt =====
-- server/auth/auth.c: the pool of sessions. `none` is the descriptor -1 of a free slot, and the
-- clients' descriptors are at least 0. Each function is one critical section under the mutex; `now`
-- is what the clock answers. The search for the user and the check of the
-- password are in Service/Accounts.
pub mod Laws
use event_ticketing_platform.Base.{
  ℕ, ◌+◌, ◌-◌, Bool, true, false, Option, none, some, List, [], ◌∷◌, ◌==◌, if◌then◌else◌, take,
}
use event_ticketing_platform.Types.{EtpError, auth, generic, Result, ok, err}

pub record Session : Type 0 where
  pub fd : Option ℕ
  pub user_id : ℕ
  pub role : ℕ
  pub username : List ℕ
  pub last_active : ℕ
  pub authenticated : Bool

pub record AuthManager : Type 0 where
  pub sessions : List Session
  pub session_count : ℕ

abbrev pub role_guest : ℕ
role_guest = 0

abbrev pub is_free : Session → Bool
is_free s = elim s.fd [ none ↦ true | some k ↦ false ]

-- `sessions[i].fd == client_fd`.
abbrev pub serves : Session → ℕ → Bool
serves s client_fd = elim s.fd [ none ↦ false | some k ↦ k == client_fd ]

-- `session_init`, then the time.
abbrev pub new_session : ℕ → ℕ → Session
new_session fd now = record {
  fd = some fd;
  user_id = 0;
  role = role_guest;
  username = [];
  last_active = now;
  authenticated = false;
}

-- The first free slot is taken.
unfoldable pub open_slot : List Session → Session → Option (List Session)
open_slot [] s' = none
open_slot (s ∷ ss) s' =
    let later : Option (List Session) = elim (open_slot ss s') [
      | none ↦ none
      | some ys ↦ some (s ∷ ys)
    ] in
    if is_free s then some (s' ∷ ss) else later

unfoldable pub find_session : List Session → ℕ → Option Session
find_session [] client_fd = none
find_session (s ∷ ss) client_fd = if serves s client_fd then some s else find_session ss client_fd

-- A write to the first slot of the descriptor.
unfoldable pub store_session : List Session → ℕ → Session → List Session
store_session [] client_fd s' = []
store_session (s ∷ ss) client_fd s' =
    if serves s client_fd then s' ∷ ss else s ∷ store_session ss client_fd s'

unfoldable pub auth_create_session : AuthManager → ℕ → ℕ → Option Session × AuthManager
auth_create_session am client_fd now = elim (open_slot am.sessions (new_session client_fd now)) [
  | none ↦ (none, am)
  | some sessions ↦ (
    some (new_session client_fd now),
    record { sessions = sessions; session_count = am.session_count + 1 },
  )
]

unfoldable pub auth_get_session : AuthManager → ℕ → ℕ → Option Session × AuthManager
auth_get_session am client_fd now = elim (find_session am.sessions client_fd) [
  | none ↦ (none, am)
  | some s ↦ (
    some (record s { last_active = now }),
    record am { sessions = store_session am.sessions client_fd (record s { last_active = now }) },
  )
]

abbrev pub closed : Session → Session
closed s = record s {
  fd = none;
  authenticated = false;
  user_id = 0;
  role = role_guest;
  username = [];
}

unfoldable pub auth_remove_session : AuthManager → ℕ → AuthManager
auth_remove_session am client_fd = elim (find_session am.sessions client_fd) [
  | none ↦ am
  | some s ↦ record {
    sessions = store_session am.sessions client_fd (closed s);
    session_count = am.session_count - 1;
  }
]

abbrev pub logged_in : Session → ℕ → ℕ → List ℕ → ℕ → Session
logged_in s user_id role username now = record s {
  user_id = user_id;
  role = role;
  authenticated = true;
  last_active = now;
  username = take 31 username;
}

-- The end of `auth_login`: the session of the client takes the verified user's id, role and name.
unfoldable pub login_session :
    AuthManager → ℕ → ℕ → ℕ → List ℕ → ℕ → Result (Unit {0}) × AuthManager
login_session am client_fd user_id role username now = elim (find_session am.sessions client_fd) [
  | none ↦ (err generic, am)
  | some s ↦ (
    ok tt,
    record am {
      sessions = store_session am.sessions client_fd (logged_in s user_id role username now);
    },
  )
]

abbrev pub logged_out : Session → Session
logged_out s = record s { user_id = 0; role = role_guest; authenticated = false; username = [] }

unfoldable pub auth_logout : AuthManager → ℕ → Result (Unit {0}) × AuthManager
auth_logout am client_fd = elim (find_session am.sessions client_fd) [
  | none ↦ (err auth, am)
  | some s ↦
      if s.authenticated
      then (ok tt, record am { sessions = store_session am.sessions client_fd (logged_out s) })
      else (err auth, am)
]
