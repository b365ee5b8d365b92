-- ===== src/Protocol/Commands.antt =====
-- The names of the commands, in server/auth/rbac.c. A string is the list of its bytes up to the
-- terminator, in ASCII.
use event_ticketing_platform.Base.{
  ℕ, zero, suc, ◌+◌, ◌<◌, ◌≡◌, refl, inl, inr, Bool, true, false, ◌&&◌, Bool-cases, List, [], ◌∷◌,
  arith, ltb, leb, ◌==◌, if◌then◌else◌, get_or,
}
use event_ticketing_platform.Auth.Rbac.{cmd_count}

abbrev pub cmd_unknown : ℕ
cmd_unknown = 16

-- REGISTER, LOGIN, LOGOUT, LIST_EVENTS, VIEW_EVENT, VIEW_SEATS, CREATE_EVENT, DELETE_EVENT, BOOK, CANCEL,
-- MY_BOOKINGS, LIST_USERS, REVENUE, SYSTEM_STATS, HELP, QUIT, UNKNOWN.
abbrev pub command_names : List (List ℕ)
command_names =
    (82 ∷ 69 ∷ 71 ∷ 73 ∷ 83 ∷ 84 ∷ 69 ∷ 82 ∷ [])
    ∷ (76 ∷ 79 ∷ 71 ∷ 73 ∷ 78 ∷ [])
    ∷ (76 ∷ 79 ∷ 71 ∷ 79 ∷ 85 ∷ 84 ∷ [])
    ∷ (76 ∷ 73 ∷ 83 ∷ 84 ∷ 95 ∷ 69 ∷ 86 ∷ 69 ∷ 78 ∷ 84 ∷ 83 ∷ [])
    ∷ (86 ∷ 73 ∷ 69 ∷ 87 ∷ 95 ∷ 69 ∷ 86 ∷ 69 ∷ 78 ∷ 84 ∷ [])
    ∷ (86 ∷ 73 ∷ 69 ∷ 87 ∷ 95 ∷ 83 ∷ 69 ∷ 65 ∷ 84 ∷ 83 ∷ [])
    ∷ (67 ∷ 82 ∷ 69 ∷ 65 ∷ 84 ∷ 69 ∷ 95 ∷ 69 ∷ 86 ∷ 69 ∷ 78 ∷ 84 ∷ [])
    ∷ (68 ∷ 69 ∷ 76 ∷ 69 ∷ 84 ∷ 69 ∷ 95 ∷ 69 ∷ 86 ∷ 69 ∷ 78 ∷ 84 ∷ [])
    ∷ (66 ∷ 79 ∷ 79 ∷ 75 ∷ [])
    ∷ (67 ∷ 65 ∷ 78 ∷ 67 ∷ 69 ∷ 76 ∷ [])
    ∷ (77 ∷ 89 ∷ 95 ∷ 66 ∷ 79 ∷ 79 ∷ 75 ∷ 73 ∷ 78 ∷ 71 ∷ 83 ∷ [])
    ∷ (76 ∷ 73 ∷ 83 ∷ 84 ∷ 95 ∷ 85 ∷ 83 ∷ 69 ∷ 82 ∷ 83 ∷ [])
    ∷ (82 ∷ 69 ∷ 86 ∷ 69 ∷ 78 ∷ 85 ∷ 69 ∷ [])
    ∷ (83 ∷ 89 ∷ 83 ∷ 84 ∷ 69 ∷ 77 ∷ 95 ∷ 83 ∷ 84 ∷ 65 ∷ 84 ∷ 83 ∷ [])
    ∷ (72 ∷ 69 ∷ 76 ∷ 80 ∷ [])
    ∷ (81 ∷ 85 ∷ 73 ∷ 84 ∷ [])
    ∷ (85 ∷ 78 ∷ 75 ∷ 78 ∷ 79 ∷ 87 ∷ 78 ∷ [])
    ∷ []

-- `tolower` of the C locale, which `strcasecmp` compares by.
unfoldable pub to_lower : ℕ → ℕ
to_lower c = if leb 65 c && leb c 90 then c + 32 else c

-- `strcasecmp(a, b) == 0`.
unfoldable pub same_name : List ℕ → List ℕ → Bool
unfolding to_lower
same_name [] [] = true
same_name [] (d ∷ ds) = false
same_name (c ∷ cs) [] = false
same_name (c ∷ cs) (d ∷ ds) = let rest = same_name cs ds in to_lower c == to_lower d && rest

-- The loop over the names from the index `i` on.
unfoldable pub find_name : List (List ℕ) → ℕ → List ℕ → ℕ
unfolding same_name
find_name [] i cmd_str = cmd_unknown
find_name (name ∷ names) i cmd_str =
    let rest = find_name names (i + 1) cmd_str in if same_name cmd_str name then i else rest

unfoldable pub rbac_parse_command_type : List ℕ → ℕ
unfolding find_name
rbac_parse_command_type cmd_str = find_name command_names 0 cmd_str

unfoldable pub rbac_command_name : ℕ → List ℕ
rbac_command_name cmd =
    if ltb cmd cmd_count then get_or command_names cmd [] else get_or command_names cmd_unknown []

all_below : ℕ → (ℕ → Bool) → Bool
all_below zero f = true
all_below (suc n) f = let rest = all_below n f in f n && rest

all_below-true : (n : ℕ) (f : ℕ → Bool) (c : ℕ) → all_below n f ≡ true → c < n → f c ≡ true
unfolding all_below
all_below-true zero f c h k = absurd (omega (arith, k))
all_below-true (suc n) f c h k = elim (Bool-cases (c == n)) [
  | inl e ↦ let same : c ≡ n = ground (arith, e) in rw same (ground (arith, h))
  | inr e ↦ all_below-true n f c (ground (arith, h)) (ground (arith, e, k))
]

names_checked : all_below cmd_count (λ c. rbac_parse_command_type (rbac_command_name c) == c) ≡ true
unfolding all_below rbac_parse_command_type rbac_command_name
names_checked = refl

-- The name of every command is read back as that command.
pub rbac_parse_command_type-rbac_command_name :
    (c : ℕ) → c < cmd_count → rbac_parse_command_type (rbac_command_name c) ≡ c
rbac_parse_command_type-rbac_command_name c h = ground (
  arith,
  all_below-true cmd_count (λ c. rbac_parse_command_type (rbac_command_name c) == c) c names_checked
      h,
)
