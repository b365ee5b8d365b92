-- ===== src/Service/Accounts.antt =====
-- The accounts in server/auth/auth.c, and the password check of common/utils.c.
use event_ticketing_platform.Base.{
  ℕ, zero, suc, ◌+◌, ◌*◌, ◌/◌, ◌%◌, Bool, true, false, ◌||◌, ◌&&◌, List, [], ◌∷◌, ◌++◌, ltb, ◌==◌,
  if◌then◌else◌, length, take,
}
use event_ticketing_platform.Types.{u64_mod, invalid_arg, duplicate, auth, ok}
use event_ticketing_platform.Records.{UserRecord, Images, user_layout}
use event_ticketing_platform.Storage.Table.{table_insert, table_scan}
use event_ticketing_platform.Server.{Action, ◌>>=◌, return, fail, on_users}
use Prim.Native.Nat.{bit_xor}

abbrev pub max_username_len : ℕ
max_username_len = 31

abbrev pub max_password_len : ℕ
max_password_len = 64

-- `strcmp(a, b) == 0`.
unfoldable pub same_text : List ℕ → List ℕ → Bool
same_text [] [] = true
same_text [] (d ∷ ds) = false
same_text (c ∷ cs) [] = false
same_text (c ∷ cs) (d ∷ ds) = let rest = same_text cs ds in c == d && rest

-- `hash << 5` and the sum are of 64 bits.
unfoldable pub djb2_hash : List ℕ → ℕ → ℕ
djb2_hash [] hash = hash
djb2_hash (c ∷ cs) hash = djb2_hash cs (bit_xor ((hash * 32 % u64_mod + hash) % u64_mod) c)

abbrev pub hex_digit : ℕ → ℕ
hex_digit d = if ltb d 10 then 48 + d else 87 + d

-- The last `n` hexadecimal digits, as `%016lx` prints sixteen.
unfoldable pub hex_digits : ℕ → ℕ → List ℕ
hex_digits zero x = []
hex_digits (suc n) x = hex_digits n (x / 16) ++ hex_digit (x % 16) ∷ []

-- `etp_hash_password` into a buffer of at least 33 bytes.
unfoldable pub etp_hash_password : List ℕ → List ℕ
unfolding djb2_hash hex_digits
etp_hash_password password =
    hex_digits 16 (djb2_hash password 5381) ++ hex_digits 16 (djb2_hash password 7919)

unfoldable pub etp_verify_password : List ℕ → List ℕ → Bool
unfolding etp_hash_password same_text
etp_verify_password password stored_hash = same_text (etp_hash_password password) stored_hash

abbrev pub filter_by_username : List ℕ → UserRecord → Bool
filter_by_username target_username user = same_text user.username target_username

abbrev pub new_user : List ℕ → List ℕ → ℕ → ℕ → UserRecord
new_user username password role now = record {
  user_id = 0;
  username = take 31 username;
  password_hash = etp_hash_password password;
  role = role % 256;
  created_at = now;
  is_deleted = false;
}

abbrev pub valid_account : List ℕ → List ℕ → Bool
valid_account username password =
    if length username == 0 || ltb max_username_len (length username)
    then false
    else if length password == 0 || ltb max_password_len (length password)
    then false
    else true

module _ {Price : Type 0} (images : Images Price) where
  -- The scan for the first user of the name.
  unfoldable pub find_user : List ℕ → Action Price (List UserRecord)
  find_user username s =
      let r = table_scan (user_layout images) (filter_by_username username) 1 s.users_table s.env in
      (ok r.0, record s { env = r.1 })

  -- The insertion, unless the name is taken.
  unfoldable pub add_user : UserRecord → List UserRecord → Action Price ℕ
  add_user user [] = on_users (table_insert (user_layout images) user)
  add_user user (existing ∷ more) = fail duplicate

  unfoldable pub auth_register : List ℕ → List ℕ → ℕ → ℕ → Action Price ℕ
  unfolding find_user add_user
  auth_register username password role now =
      if valid_account username password
      then (find_user username >>= λ found. add_user (new_user username password role now) found)
      else fail invalid_arg

  -- The user whose name and password these are.
  unfoldable pub check_password : List ℕ → List UserRecord → Action Price UserRecord
  check_password password [] = fail auth
  check_password password (user ∷ more) =
      if etp_verify_password password user.password_hash then return user else fail auth

  -- `auth_login` up to the search for the session.
  unfoldable pub login_user : List ℕ → List ℕ → Action Price UserRecord
  unfolding find_user check_password
  login_user username password = find_user username >>= λ found. check_password password found
