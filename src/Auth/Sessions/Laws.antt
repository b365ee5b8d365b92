-- ===== src/Auth/Sessions/Laws.antt =====
-- The pool of sessions of server/auth/auth.c, in any order of its operations.
use event_ticketing_platform.Base.{
  ℕ, subst, ◌+◌, ◌≡◌, refl, inl, inr, false, Bool-cases, some, Option-cases, List, [], ◌∷◌, ◌==◌,
  ◌&&◌, ltb, get_or, arith, if◌then◌else◌,
}
use event_ticketing_platform.Auth.Rbac.{cmd_count, least_roles, rbac_check, rbac_check_lem}
use event_ticketing_platform.Auth.Sessions.{
  Session, AuthManager, role_guest, is_free, serves, new_session, open_slot, find_session,
  store_session, closed, logged_in, logged_out, auth_create_session, auth_get_session,
  auth_remove_session, login_session, auth_logout,
}

-- The slots in use.
unfoldable pub used : List Session → ℕ
used [] = 0
used (s ∷ ss) = (if is_free s then 0 else 1) + used ss

-- A session without a login has no rights but a guest's.
abbrev pub IsFair : Session → Type 0
IsFair s = s.authenticated ≡ false → (s.role ≡ role_guest) × (s.user_id ≡ 0)

abbrev pub AllFair : List Session → Type 0
AllFair [] = Unit {0}
AllFair (s ∷ ss) = IsFair s × AllFair ss

pub record IsPool (am : AuthManager) : Type 0 where
  pub counted : am.session_count ≡ used am.sessions
  pub fair : AllFair am.sessions

used-open_slot :
    (ss ys : List Session) (s' : Session)
    → is_free s' ≡ false
    → open_slot ss s' ≡ some ys
    → used ys ≡ used ss + 1
unfolding used open_slot
used-open_slot [] ys s' n e = absurd (ground arith)
used-open_slot (s ∷ ss) ys s' n e = elim (Option-cases (open_slot ss s')) [
  | inl c ↦ ground (arith, c)
  | inr (zs, c) ↦ ground (arith, c, used-open_slot ss zs s' n c)
]

open_slot-AllFair :
    (ss ys : List Session) (s' : Session)
    → IsFair s'
    → open_slot ss s' ≡ some ys
    → AllFair ss
    → AllFair ys
unfolding open_slot
open_slot-AllFair [] ys s' n e f = absurd (ground arith)
open_slot-AllFair (s ∷ ss) ys s' n e (a, f) = elim (Bool-cases (is_free s)) [
  | inl free ↦ let same : s' ∷ ss ≡ ys = ground (arith, e, free) in subst AllFair same (n, f)
  | inr busy ↦ elim (Option-cases (open_slot ss s')) [
    | inl c ↦ absurd (ground (arith, e, busy, c))
    | inr (zs, c) ↦
        let same : s ∷ zs ≡ ys = ground (arith, e, busy, c) in
        subst AllFair same (a, open_slot-AllFair ss zs s' n c f)
  ]
]

used-store_session :
    (ss : List Session) (fd : ℕ) (s s' : Session)
    → find_session ss fd ≡ some s
    → used (store_session ss fd s') + 1 ≡ used ss + (if is_free s' then 0 else 1)
unfolding used store_session find_session
used-store_session [] fd s s' e = absurd (ground arith)
used-store_session (x ∷ ss) fd s s' e = ground (arith, used-store_session ss fd s s')

store_session-AllFair :
    (ss : List Session) (fd : ℕ) (s' : Session)
    → IsFair s'
    → AllFair ss
    → AllFair (store_session ss fd s')
unfolding store_session
store_session-AllFair [] fd s' n f = tt
store_session-AllFair (s ∷ ss) fd s' n (a, f) = elim (Bool-cases (serves s fd)) [
  | inl e ↦ rw e (n, f)
  | inr e ↦ rw e (a, store_session-AllFair ss fd s' n f)
]

find_session-IsFair :
    (ss : List Session) (fd : ℕ) (s : Session) → find_session ss fd ≡ some s → AllFair ss → IsFair s
unfolding find_session
find_session-IsFair [] fd s e f = absurd (ground arith)
find_session-IsFair (x ∷ ss) fd s e (a, f) = elim (Bool-cases (serves x fd)) [
  | inl h ↦ let same : x ≡ s = ground (arith, e, h) in subst IsFair same a
  | inr h ↦ find_session-IsFair ss fd s (ground (arith, e, h)) f
]

-- A client of the pool: what the server calls as clients come, log in and out, and go.
pub data Call : Type 0 where
  create : ℕ → ℕ → Call
  get : ℕ → ℕ → Call
  remove : ℕ → Call
  login : ℕ → ℕ → ℕ → List ℕ → ℕ → Call
  logout : ℕ → Call

unfoldable pub apply : Call → AuthManager → AuthManager
unfolding auth_create_session auth_get_session auth_remove_session login_session auth_logout
apply (create fd now) am = (auth_create_session am fd now).1
apply (get fd now) am = (auth_get_session am fd now).1
apply (remove fd) am = auth_remove_session am fd
apply (login fd user_id role username now) am = (login_session am fd user_id role username now).1
apply (logout fd) am = (auth_logout am fd).1

unfoldable pub run : List Call → AuthManager → AuthManager
unfolding apply
run [] am = am
run (c ∷ cs) am = run cs (apply c am)

find-serves :
    (ss : List Session) (fd : ℕ) (s : Session) → find_session ss fd ≡ some s → is_free s ≡ false
unfolding find_session
find-serves [] fd s e = absurd (ground arith)
find-serves (x ∷ ss) fd s e = ground (arith, find-serves ss fd s)

-- A write of a session that stays in use keeps the pool in order.
rewrite-IsPool :
    (am : AuthManager) (fd : ℕ) (s s' : Session)
    → IsPool am
    → find_session am.sessions fd ≡ some s
    → is_free s' ≡ false
    → IsFair s'
    → IsPool (record am { sessions = store_session am.sessions fd s' })
rewrite-IsPool am fd s s' v e n f = record {
  counted = ground (arith, v.counted, used-store_session am.sessions fd s s' e);
  fair = store_session-AllFair am.sessions fd s' f v.fair;
}

-- Every operation keeps the pool in order: the counter is the number of the slots in use, and a
-- session without a login has a guest's role.
pub apply-IsPool : (c : Call) (am : AuthManager) → IsPool am → IsPool (apply c am)
unfolding apply
apply-IsPool (create fd now) am v =
    elim (Option-cases (open_slot am.sessions (new_session fd now))) [
      | inl c ↦ rw (c, apply, auth_create_session) v
      | inr (ys, c) ↦
          rw (c, apply, auth_create_session)
            (record {
              counted =
                  ground
                    (arith, v.counted, used-open_slot am.sessions ys (new_session fd now) refl c);
              fair =
                  open_slot-AllFair am.sessions ys (new_session fd now) (λ h. (refl, refl)) c
                    v.fair;
            })
    ]
apply-IsPool (get fd now) am v = elim (Option-cases (find_session am.sessions fd)) [
  | inl c ↦ rw (c, apply, auth_get_session) v
  | inr (s, c) ↦
      rw (c, apply, auth_get_session)
        (rewrite-IsPool am fd s (record s { last_active = now }) v c
          (find-serves am.sessions fd s c) (find_session-IsFair am.sessions fd s c v.fair))
]
apply-IsPool (remove fd) am v = elim (Option-cases (find_session am.sessions fd)) [
  | inl c ↦ rw (c, apply, auth_remove_session) v
  | inr (s, c) ↦
      rw (c, apply, auth_remove_session)
        (record {
          counted = ground (arith, v.counted, used-store_session am.sessions fd s (closed s) c);
          fair = store_session-AllFair am.sessions fd (closed s) (λ h. (refl, refl)) v.fair;
        })
]
apply-IsPool (login fd user_id role username now) am v =
    elim (Option-cases (find_session am.sessions fd)) [
      | inl c ↦ rw (c, apply, login_session) v
      | inr (s, c) ↦
          rw (c, apply, login_session)
            (rewrite-IsPool am fd s (logged_in s user_id role username now) v c
              (find-serves am.sessions fd s c) (λ h. absurd (ground arith)))
    ]
apply-IsPool (logout fd) am v = elim (Option-cases (find_session am.sessions fd)) [
  | inl c ↦ rw (c, apply, auth_logout) v
  | inr (s, c) ↦ elim (Bool-cases s.authenticated) [
    | inr a ↦ rw (c, apply, auth_logout) (rw (a, apply, auth_logout) v)
    | inl a ↦
        rw (c, apply, auth_logout)
          (rw (a, apply, auth_logout)
            (rewrite-IsPool am fd s (logged_out s) v c (find-serves am.sessions fd s c)
              (λ h. (refl, refl))))
  ]
]

pub run-IsPool : (cs : List Call) (am : AuthManager) → IsPool am → IsPool (run cs am)
unfolding run
run-IsPool [] am v = v
run-IsPool (c ∷ cs) am v = run-IsPool cs (apply c am) (apply-IsPool c am v)

-- After any run of the operations from a pool in order, a client that is not logged in may run exactly
-- the commands that are open to all.
pub run-guest_rights :
    (cs : List Call) (am : AuthManager) (fd cmd : ℕ) (s : Session)
    → IsPool am
    → find_session (run cs am).sessions fd ≡ some s
    → s.authenticated ≡ false
    → rbac_check s.role cmd ≡ (ltb cmd cmd_count && get_or least_roles cmd 4 == 0)
run-guest_rights cs am fd cmd s v e a =
    let fair = find_session-IsFair (run cs am).sessions fd s e (run-IsPool cs am v).fair a in
    ground (arith, fair, rbac_check_lem s.role cmd)
