-- ===== src/Auth/Rbac.antt =====
-- server/auth/rbac.c: the permission matrix. Roles and commands are numbers, as in the records and
-- the enumerations of common/types.h and common/protocol.h.
use event_ticketing_platform.Base.{
  ℕ, zero, suc, ◌≤◌, ◌<◌, ◌≡◌, refl, sym, subst, inl, inr, Bool, true, false, ◌&&◌, ◌||◌,
  Bool-cases, List, [], ◌∷◌, arith, ltb, leb, if◌then◌else◌, get_or, length,
}

-- CMD_COUNT and ROLE_ADMIN.
abbrev pub cmd_count : ℕ
cmd_count = 17

abbrev pub role_admin : ℕ
role_admin = 3

abbrev pub everyone : List Bool
everyone = true ∷ true ∷ true ∷ true ∷ []

abbrev pub customers : List Bool
customers = false ∷ true ∷ true ∷ true ∷ []

abbrev pub organizers : List Bool
organizers = false ∷ false ∷ true ∷ true ∷ []

abbrev pub admins : List Bool
admins = false ∷ false ∷ false ∷ true ∷ []

abbrev pub nobody : List Bool
nobody = false ∷ false ∷ false ∷ false ∷ []

-- REGISTER LOGIN LOGOUT, LIST_EVENTS VIEW_EVENT VIEW_SEATS, CREATE_EVENT DELETE_EVENT,
-- BOOK CANCEL MY_BOOKINGS, LIST_USERS REVENUE SYSTEM_STATS, HELP QUIT UNKNOWN.
abbrev pub permission_matrix : List (List Bool)
permission_matrix =
    everyone ∷ everyone ∷ customers ∷ everyone ∷ everyone ∷ everyone ∷ organizers ∷ organizers
    ∷ customers ∷ customers ∷ customers ∷ admins ∷ organizers ∷ admins ∷ everyone ∷ everyone
    ∷ nobody ∷ []

unfoldable pub rbac_check : ℕ → ℕ → Bool
rbac_check role cmd =
    if leb cmd_count cmd || ltb role_admin role
    then false
    else get_or (get_or permission_matrix cmd []) role false

-- The least role that may run each command; 4 is no role.
abbrev pub least_roles : List ℕ
least_roles = 0 ∷ 0 ∷ 1 ∷ 0 ∷ 0 ∷ 0 ∷ 2 ∷ 2 ∷ 1 ∷ 1 ∷ 1 ∷ 3 ∷ 2 ∷ 3 ∷ 0 ∷ 0 ∷ 4 ∷ []

abbrev row_of : ℕ → List Bool
row_of least = leb least 0 ∷ leb least 1 ∷ leb least 2 ∷ leb least 3 ∷ []

rows_of : List ℕ → List (List Bool)
rows_of [] = []
rows_of (least ∷ more) = row_of least ∷ rows_of more

matrix_rows : permission_matrix ≡ rows_of least_roles
unfolding rows_of
matrix_rows = refl

get_or-row_of : (least role : ℕ) → role < 4 → get_or (row_of least) role false ≡ leb least role
get_or-row_of least zero h = refl
get_or-row_of least (suc zero) h = refl
get_or-row_of least (suc (suc zero)) h = refl
get_or-row_of least (suc (suc (suc zero))) h = refl
get_or-row_of least (suc (suc (suc (suc role)))) h = absurd (omega arith)

get_or-rows_of :
    (ls : List ℕ) (cmd : ℕ)
    → cmd < length ls
    → get_or (rows_of ls) cmd [] ≡ row_of (get_or ls cmd 4)
unfolding rows_of
get_or-rows_of [] cmd h = absurd (omega arith)
get_or-rows_of (l ∷ ls) zero h = refl
get_or-rows_of (l ∷ ls) (suc cmd) h = get_or-rows_of ls cmd (omega arith)

-- A role may run a command exactly when the two are known and the role is at least the command's
-- least role.
pub rbac_check_lem :
    (role cmd : ℕ)
    → rbac_check role cmd
      ≡ (ltb cmd cmd_count && leb role role_admin && leb (get_or least_roles cmd 4) role)
unfolding rbac_check
rbac_check_lem role cmd = elim (Bool-cases (leb cmd_count cmd)) [
  | inl unknown ↦ ground (arith, unknown)
  | inr known ↦ elim (Bool-cases (ltb role_admin role)) [
    | inl strange ↦ ground (arith, known, strange)
    | inr fair ↦
        let a : cmd < length least_roles = ground (arith, known) in
        let b : role < 4 = ground (arith, fair) in
        let row : get_or (get_or permission_matrix cmd []) role false
            ≡ leb (get_or least_roles cmd 4) role =
          subst
            (λ (m : List (List Bool)).
              get_or (get_or m cmd []) role false ≡ leb (get_or least_roles cmd 4) role)
            (sym matrix_rows)
            (rw (get_or-rows_of least_roles cmd a)
              (get_or-row_of (get_or least_roles cmd 4) role b)) in
        rw (known, fair) (rw row (ground (arith, known, fair)))
  ]
]

-- What a role may do, every higher role up to the administrator may do.
pub rbac_check_mono :
    (role role' cmd : ℕ)
    → role ≤ role'
    → role' ≤ role_admin
    → rbac_check role cmd ≡ true
    → rbac_check role' cmd ≡ true
rbac_check_mono role role' cmd h k e =
    ground (arith, rbac_check_lem role cmd, rbac_check_lem role' cmd)
