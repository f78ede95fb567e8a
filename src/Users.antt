-- ===== src/Users.antt =====
-- src/server/security/auth.c, src/server/data/dao_user.c and jwt_create_for_user of
-- src/common/jwt_utils.c: registration and login. SHA256 and what RAND_bytes gives are parameters, as
-- is l8w8jwt (here with the issuer and audience of a login). A reply stands for its packet.
pub mod Login
mod Tests
use wind_cloud_v.Shared.{
  ℕ, ◌+◌, Bool, true, false, not, ◌&&◌, ◌||◌, List, [], ◌∷◌, ◌++◌, map, Option, none, some, ltb,
  ◌==◌, if◌then◌else◌, length,
}
use wind_cloud_v.Shared.Int.{ℤ, pos, negsuc}
use wind_cloud_v.Shared.Decimal.{print_ℤ}
use wind_cloud_v.Shared.Text.{Bytes, codes, str_eq, is_empty, truncated}
use wind_cloud_v.Protocol.{token_len}
use wind_cloud_v.RangeRequest.{strtok_r}
use wind_cloud_v.Ticket.{Jwt, bin_to_hex}
use wind_cloud_v.Vfs.{Backend, Db, UserRow, tick, is_literal}

abbrev pub Digest : Type 0
Digest = Bytes → Bytes

unfoldable pub find_user : Backend → Bytes → List UserRow → Option UserRow
find_user b name [] = none
find_user b name (row ∷ rows) =
    if b.collates row.username name then some row else find_user b name rows

-- The id, the hash and the salt.
unfoldable pub dao_get_user_by_name : Backend → Bytes → Db → Option UserRow × Db
unfolding find_user is_literal
dao_get_user_by_name b name db = (
  if b.fails db.calls
      then none
      else if is_literal 20 name
      then find_user b name db.users
      else b.unquoted_user db.calls name,
  tick db,
)

-- INSERT INTO users: the name is unique, and at most 20 characters long.
unfoldable pub dao_insert_user : Backend → Bytes → Bytes → Bytes → Db → Bool × Db
unfolding find_user is_literal
dao_insert_user b name password_hash salt db =
    let row : UserRow = record {
      id = b.next_id db.calls (map (λ r. r.id) db.users);
      username = name;
      password_hash = password_hash;
      salt = salt;
    } in
    if b.fails db.calls
    then (false, tick db)
    else if not (is_literal 20 name)
    then (
      (b.unquoted_user_insert db.calls row db.users).0,
      record (tick db) { users = (b.unquoted_user_insert db.calls row db.users).1 },
    )
    else elim (find_user b name db.users) [
      | some _ ↦ (false, tick db)
      | none ↦ (true, record (tick db) { users = db.users ++ (row ∷ []) })
    ]

-- 16 bytes of RAND_bytes, or of rand where that fails, in hexadecimal.
unfoldable pub generate_salt : Option Bytes → Bytes → Bytes
unfolding bin_to_hex
generate_salt random fallback = bin_to_hex (elim random [ none ↦ fallback | some bytes ↦ bytes ])

unfoldable pub hash_password_with_salt : Digest → Bytes → Bytes → Bytes
unfolding bin_to_hex
hash_password_with_salt sha256 password salt =
    bin_to_hex (sha256 (truncated 256 (password ++ salt)))

-- `strtok(NULL, "\r\n\t")`
abbrev ends_line : ℕ → Bool
ends_line c = c == 13 || (c == 10 || c == 9)

unfoldable pub skip_line_ends : Bytes → Bytes
skip_line_ends [] = []
skip_line_ends (c ∷ s) = let rest = skip_line_ends s in if ends_line c then rest else c ∷ s

unfoldable pub take_line : Bytes → Bytes
take_line [] = []
take_line (c ∷ s) = let rest = take_line s in if ends_line c then [] else c ∷ rest

unfoldable pub strtok_line : Bytes → Option Bytes
unfolding skip_line_ends take_line
strtok_line s = if is_empty (skip_line_ends s) then none else some (take_line (skip_line_ends s))

-- The name and the password of `name/password`.
unfoldable pub split_credentials : Bytes → Option (Bytes × Bytes)
unfolding strtok_r strtok_line
split_credentials text = elim (strtok_r b'/' text) [
  | none ↦ none
  | some (name, rest) ↦ elim (strtok_line rest) [
    | none ↦ none
    | some password ↦ some (name, password)
  ]
]

pub data RegisterReply : Type 0 where
  register_malformed registered not_registered : RegisterReply

-- What follows the insert; the id is that of the new user, or -1.
unfoldable pub register_made : Backend → Bytes → Bool × Db → RegisterReply × ℤ × Db
unfolding dao_get_user_by_name
register_made b name (false, db) = (not_registered, negsuc 0, db)
register_made b name (true, db) =
    let found = dao_get_user_by_name b name db in
    (registered, elim found.0 [ none ↦ negsuc 0 | some row ↦ pos row.id ], found.1)

unfoldable pub handle_register :
    Backend → Digest → Option Bytes → Bytes → Bytes → Db → RegisterReply × ℤ × Db
unfolding split_credentials generate_salt hash_password_with_salt dao_insert_user register_made
handle_register b sha256 random fallback text db = elim (split_credentials text) [
  | none ↦ (register_malformed, negsuc 0, db)
  | some (name, password) ↦
      let salt = generate_salt random fallback in
      register_made b name
        (dao_insert_user b name (hash_password_with_salt sha256 password salt) salt db)
]

abbrev pub login_jwt_expire_seconds : ℕ
login_jwt_expire_seconds = 3600

unfoldable pub jwt_create_for_user : Jwt → ℕ → ℤ → ℕ → Option Bytes
jwt_create_for_user jwt now user token_size =
    elim (jwt.encode ((codes "uid", print_ℤ user) ∷ []) now (now + login_jwt_expire_seconds)) [
      | none ↦ none
      | some token ↦
          if ltb token_size (length token + 1) then none else some (truncated token_size token)
    ]

pub data LoginReply : Type 0 where
  login_malformed no_user token_failed wrong_password : LoginReply
  logged_in : ℤ → Bytes → LoginReply

-- The user was found.
unfoldable pub check_password : Digest → Jwt → ℕ → Bytes → UserRow → LoginReply × ℤ
unfolding hash_password_with_salt jwt_create_for_user
check_password sha256 jwt now password row =
    if str_eq (hash_password_with_salt sha256 password row.salt) row.password_hash
    then elim (jwt_create_for_user jwt now (pos row.id) token_len) [
      | none ↦ (token_failed, negsuc 0)
      | some token ↦ (logged_in (pos row.id) token, pos row.id)
    ]
    else (wrong_password, negsuc 0)

-- What follows the lookup of the name.
unfoldable pub login_found : Digest → Jwt → ℕ → Bytes → Option UserRow × Db → LoginReply × ℤ × Db
unfolding check_password
login_found sha256 jwt now password (none, db) = (no_user, negsuc 0, db)
login_found sha256 jwt now password (some row, db) =
    let r = check_password sha256 jwt now password row in (r.0, r.1, db)

-- The id is that of the session from then on: -1 where the login fails.
unfoldable pub handle_login : Backend → Digest → Jwt → ℕ → Bytes → Db → LoginReply × ℤ × Db
unfolding split_credentials dao_get_user_by_name login_found
handle_login b sha256 jwt now text db = elim (split_credentials text) [
  | none ↦ (login_malformed, negsuc 0, db)
  | some (name, password) ↦ login_found sha256 jwt now password (dao_get_user_by_name b name db)
]
