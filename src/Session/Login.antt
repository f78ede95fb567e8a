-- ===== src/Session/Login.antt =====
-- What a login and a registration reply, and what they leave of the tables.
use wind_cloud_v.Shared.{
  ℕ, ◌≡◌, refl, ◌⊎◌, inl, inr, Bool, true, false, ◌||◌, List, [], ◌∷◌, Option, none, some, arith,
  Bool-cases, Option-cases,
}
use wind_cloud_v.Shared.Int.{pos}
use wind_cloud_v.Shared.Text.{Bytes, str_eq}
use wind_cloud_v.Protocol.{token_len}
use wind_cloud_v.Ticket.{Jwt}
use wind_cloud_v.Vfs.{Backend, Db, UserRow}
use wind_cloud_v.Users.{
  Digest, split_credentials, hash_password_with_salt, jwt_create_for_user, logged_in,
  check_password, login_found, dao_get_user_by_name, handle_login, dao_insert_user, register_made,
  handle_register,
}
use wind_cloud_v.Session.{SessionReply, auth}
use wind_cloud_v.Session.Dispatch.{no_user_id}

unfoldable pub is_login : SessionReply → Bool
is_login (auth (logged_in _ _)) = true
is_login _ = false

unfoldable pub some_login : List SessionReply → Bool
unfolding is_login
some_login [] = false
some_login (r ∷ replies) = is_login r || some_login replies

check_password-is_login :
    (sha256 : Digest) (jwt : Jwt) (now : ℕ) (password : Bytes) (row : UserRow)
    → (is_login (auth (check_password sha256 jwt now password row).0) ≡ true)
      ⊎ ((check_password sha256 jwt now password row).1 ≡ no_user_id)
unfolding check_password is_login
check_password-is_login sha256 jwt now password row =
    elim (Bool-cases
      (str_eq (hash_password_with_salt sha256 password row.salt) row.password_hash)) [
        | inr y ↦ inr (rw (check_password, y) refl)
        | inl y ↦ elim (Option-cases (jwt_create_for_user jwt now (pos row.id) token_len)) [
          | inl z ↦ inr (rw (check_password, y, z) refl)
          | inr (token, z) ↦ inl (rw (check_password, y, z) refl)
        ]
      ]

-- A login says that it succeeded, or leaves nobody logged in; it changes no table.
module _ (b : Backend) (sha256 : Digest) (jwt : Jwt) (now : ℕ) where
  login_found-is_login :
      (password : Bytes) (r : Option UserRow × Db)
      → (is_login (auth (login_found sha256 jwt now password r).0) ≡ true)
        ⊎ ((login_found sha256 jwt now password r).1 ≡ no_user_id)
  unfolding login_found
  login_found-is_login password (none, db) = inr refl
  login_found-is_login password (some row, db) = check_password-is_login sha256 jwt now password row

  login_found-db :
      (password : Bytes) (r : Option UserRow × Db) → (login_found sha256 jwt now password r).2 ≡ r.1
  unfolding login_found
  login_found-db password (none, db) = refl
  login_found-db password (some row, db) = refl

  pub handle_login-is_login :
      (text : Bytes) (db : Db)
      → (is_login (auth (handle_login b sha256 jwt now text db).0) ≡ true)
        ⊎ ((handle_login b sha256 jwt now text db).1 ≡ no_user_id)
  unfolding handle_login
  handle_login-is_login text db = elim (Option-cases (split_credentials text)) [
    | inl e ↦ inr (rw (handle_login, e) refl)
    | inr ((name, password), e) ↦
        rw (handle_login, e) (login_found-is_login password (dao_get_user_by_name b name db))
  ]

-- The tables but that of the users.
pub record IsSame (db db' : Db) : Type 0 where
  pub paths : db'.paths ≡ db.paths
  pub files : db'.files ≡ db.files
  pub file_sources : db'.file_sources ≡ db.file_sources
  pub store : db'.store ≡ db.store

pub handle_login-IsSame :
    (b : Backend) (sha256 : Digest) (jwt : Jwt) (now : ℕ) (text : Bytes) (db : Db)
    → IsSame db (handle_login b sha256 jwt now text db).2
unfolding handle_login dao_get_user_by_name
handle_login-IsSame b sha256 jwt now text db = elim (Option-cases (split_credentials text)) [
  | inl e ↦
      rw (handle_login, e)
        (record { paths = refl; files = refl; file_sources = refl; store = refl })
  | inr ((name, password), e) ↦
      rw
        (handle_login, e, login_found-db b sha256 jwt now password (dao_get_user_by_name b name db))
        (record { paths = refl; files = refl; file_sources = refl; store = refl })
]

register_made-IsSame :
    (b : Backend) (name : Bytes) (db : Db) (r : Bool × Db)
    → IsSame db r.1
    → IsSame db (register_made b name r).2
unfolding register_made dao_get_user_by_name
register_made-IsSame b name db (true, db') s = record {
  paths = s.paths;
  files = s.files;
  file_sources = s.file_sources;
  store = s.store;
}
register_made-IsSame b name db (false, db') s = s

dao_insert_user-IsSame :
    (b : Backend) (name hash salt : Bytes) (db : Db)
    → IsSame db (dao_insert_user b name hash salt db).1
unfolding dao_insert_user
dao_insert_user-IsSame b name hash salt db = record {
  paths = ground arith;
  files = ground arith;
  file_sources = ground arith;
  store = ground arith;
}

pub handle_register-IsSame :
    (b : Backend) (sha256 : Digest) (random : Option Bytes) (fallback text : Bytes) (db : Db)
    → IsSame db (handle_register b sha256 random fallback text db).2
unfolding handle_register
handle_register-IsSame b sha256 random fallback text db =
    elim (Option-cases (split_credentials text)) [
      | inl e ↦
          rw (handle_register, e)
            (record { paths = refl; files = refl; file_sources = refl; store = refl })
      | inr ((name, password), e) ↦
          rw (handle_register, e)
            (register_made-IsSame b name db _ (dao_insert_user-IsSame b name _ _ db))
    ]
