-- ===== src/Auth/Tests.antt =====
-- The sessions at work: a client logs in and out.
use event_ticketing_platform.Base.{
  ◌≡◌, refl, true, false, ◌&&◌, ◌==◌, ltb, leb, some, none, List, [], ◌∷◌, get_or,
}
use event_ticketing_platform.Auth.Rbac.{
  cmd_count, role_admin, least_roles, rbac_check, rbac_check_lem,
}
use event_ticketing_platform.Auth.Sessions.{
  Session, AuthManager, new_session, find_session, open_slot, store_session,
}
use event_ticketing_platform.Auth.Sessions.Laws.{
  IsPool, used, Call, create, login, logout, apply, apply-IsPool, run, run-guest_rights,
}

rbac_check_lem_example :
    rbac_check 1 8 ≡ (ltb 8 cmd_count && leb 1 role_admin && leb (get_or least_roles 8 4) 1)
rbac_check_lem_example = rbac_check_lem 1 8

customer_books : rbac_check 1 8 ≡ true
unfolding rbac_check
customer_books = refl

abbrev free : Session
free = record {
  fd = none;
  user_id = 0;
  role = 0;
  username = [];
  last_active = 0;
  authenticated = false;
}

abbrev two_slots : AuthManager
two_slots = record { sessions = free ∷ free ∷ []; session_count = 0 }

two_slots-IsPool : IsPool two_slots
unfolding used
two_slots-IsPool = record {
  counted = refl;
  fair = ((λ h. (refl, refl)), ((λ h. (refl, refl)), tt));
}

abbrev visit : List Call
visit = create 5 100 ∷ login 5 42 3 (97 ∷ []) 101 ∷ logout 5 ∷ []

apply-IsPool_example : IsPool (apply (create 5 100) two_slots)
apply-IsPool_example = apply-IsPool (create 5 100) two_slots two_slots-IsPool

run-visit : find_session (run visit two_slots).sessions 5 ≡ some (new_session 5 101)
unfolding run find_session store_session open_slot
run-visit = refl

run-guest_rights_example : rbac_check 0 11 ≡ (ltb 11 cmd_count && get_or least_roles 11 4 == 0)
run-guest_rights_example =
    run-guest_rights visit two_slots 5 11 (new_session 5 101) two_slots-IsPool run-visit refl
