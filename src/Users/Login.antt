-- ===== src/Users/Login.antt =====
-- Who a login makes the user of a session.
use wind_cloud_v.Shared.{
  ℕ, ◌≡◌, refl, sym, take, ap, ◌∙◌, ◌⊎◌, inl, inr, true, false, List, [], ◌∷◌, ◌++◌, map, Option,
  none, some, arith, Bool-cases, Option-cases,
}
use wind_cloud_v.Shared.Int.{ℤ, pos, negsuc}
use wind_cloud_v.Shared.Text.{Bytes, truncated, str_eq, str_eq_iff, str_eq_refl}
use wind_cloud_v.Protocol.{token_len}
use wind_cloud_v.Ticket.{Jwt, bin_to_hex}
use wind_cloud_v.Vfs.{Backend, Db, UserRow, tick, is_literal}
use wind_cloud_v.Users.{
  Digest, find_user, dao_get_user_by_name, dao_insert_user, generate_salt, hash_password_with_salt,
  split_credentials, registered, handle_register, jwt_create_for_user, logged_in, check_password,
  login_found, register_made, handle_login,
}

-- A row of the table with this name, in which the hash of the password with the row's salt stands.
pub record IsUser (b : Backend) (sha256 : Digest) (name password : Bytes) (user : ℤ) (db : Db)
    : Type 0 where
  pub row : UserRow
  pub before : List UserRow
  pub after : List UserRow
  pub listed : db.users ≡ before ++ (row ∷ after)
  pub named : b.collates row.username name ≡ true
  pub matches : row.password_hash ≡ bin_to_hex (sha256 (take 255 (password ++ row.salt)))
  pub is_id : user ≡ pos row.id

-- Where find_user finds a row.
find_user-listed :
    (b : Backend) (name : Bytes) (rows : List UserRow) {row : UserRow}
    → find_user b name rows ≡ some row
    → (before : List UserRow) × (after : List UserRow) × (rows ≡ before ++ (row ∷ after))
      × (b.collates row.username name ≡ true)
unfolding find_user
find_user-listed b name [] e = absurd (ground (arith, e))
find_user-listed b name (r ∷ rows) {row} e = elim (Bool-cases (b.collates r.username name)) [
  | inl y ↦
      let same : r ≡ row = ground (arith, y, e) in
      ([], rows, ap (λ x. x ∷ rows) same, rw (← same) y)
  | inr y ↦
      let (before, after, p, c) = find_user-listed b name rows {row = row} (ground (arith, y, e)) in
      (r ∷ before, after, ap (λ x. r ∷ x) p, c)
]

hash_password-eq :
    (sha256 : Digest) (password salt : Bytes)
    → hash_password_with_salt sha256 password salt
      ≡ bin_to_hex (sha256 (take 255 (password ++ salt)))
unfolding hash_password_with_salt truncated
hash_password-eq sha256 password salt = refl

check_password-cases :
    (sha256 : Digest) (jwt : Jwt) (now : ℕ) (password : Bytes) (row : UserRow)
    → ((check_password sha256 jwt now password row).1 ≡ negsuc 0)
      ⊎ ((hash_password_with_salt sha256 password row.salt ≡ row.password_hash)
          × ((check_password sha256 jwt now password row).1 ≡ pos row.id))
unfolding check_password
check_password-cases sha256 jwt now password row =
    let hash = hash_password_with_salt sha256 password row.salt in
    elim (Bool-cases (str_eq hash row.password_hash)) [
      | inr y ↦ inl (rw (check_password, y) refl)
      | inl y ↦ elim (Option-cases (jwt_create_for_user jwt now (pos row.id) token_len)) [
        | inl z ↦ inl (rw (check_password, y, z) refl)
        | inr (token, z) ↦
            inr ((str_eq_iff hash row.password_hash).0 y, rw (check_password, y, z) refl)
      ]
    ]

handle_login-split :
    (b : Backend) (sha256 : Digest) (jwt : Jwt) (now : ℕ) (text : Bytes) (db : Db)
    {name password : Bytes}
    → split_credentials text ≡ some (name, password)
    → handle_login b sha256 jwt now text db
      ≡ login_found sha256 jwt now password (dao_get_user_by_name b name db)
unfolding handle_login
handle_login-split b sha256 jwt now text db s = rw (handle_login, s) refl

dao_get_user_by_name-cases :
    (b : Backend) (name : Bytes)
    → is_literal 20 name ≡ true
    → (db : Db)
    → (dao_get_user_by_name b name db ≡ (none, tick db))
      ⊎ ((row : UserRow) × (find_user b name db.users ≡ some row)
          × (dao_get_user_by_name b name db ≡ (some row, tick db)))
unfolding dao_get_user_by_name
dao_get_user_by_name-cases b name lit db = elim (Bool-cases (b.fails db.calls)) [
  | inl f ↦ inl (rw (dao_get_user_by_name, f) refl)
  | inr w ↦ elim (Option-cases (find_user b name db.users)) [
    | inl e ↦ inl (rw (dao_get_user_by_name, w, lit, e) refl)
    | inr (row, e) ↦ inr (row, e, rw (dao_get_user_by_name, w, lit, e) refl)
  ]
]

-- A login gives a session a user only if a row of the table has this id and, up to the collation, this
-- name, and holds the hash of the password followed by the row's salt (of their first 255 bytes),
-- whichever calls fail. (The name is a plain text that fits
-- its column.)
pub handle_login-IsUser :
    (b : Backend) (sha256 : Digest) (jwt : Jwt) (now : ℕ) (text name password : Bytes) (db : Db)
    → split_credentials text ≡ some (name, password)
    → is_literal 20 name ≡ true
    → ((handle_login b sha256 jwt now text db).1 ≡ negsuc 0)
      ⊎ IsUser b sha256 name password (handle_login b sha256 jwt now text db).1 db
unfolding login_found
handle_login-IsUser b sha256 jwt now text name password db s lit =
    elim (dao_get_user_by_name-cases b name lit db) [
      | inl e ↦ rw (handle_login-split b sha256 jwt now text db s, e) (inl refl)
      | inr (row, f, e) ↦ elim (check_password-cases sha256 jwt now password row) [
        | inl q ↦ rw (handle_login-split b sha256 jwt now text db s, e) (inl q)
        | inr (m, q) ↦
            rw (handle_login-split b sha256 jwt now text db s, e)
              (let (before, after, p, c) = find_user-listed b name db.users {row = row} f in
                inr (record {
                  row = row;
                  before = before;
                  after = after;
                  listed = p;
                  named = c;
                  matches = sym m ∙ hash_password-eq sha256 password row.salt;
                  is_id = q;
                }))
      ]
    ]

find_user-append :
    (b : Backend) (name : Bytes) (rows : List UserRow) (row : UserRow)
    → find_user b name rows ≡ none
    → b.collates row.username name ≡ true
    → find_user b name (rows ++ (row ∷ [])) ≡ some row
unfolding find_user
find_user-append b name [] row e h = ground arith
find_user-append b name (r ∷ rows) row e h = ground (arith, find_user-append b name rows row)

-- The row of a user who registers.
new_user : Backend → Bytes → Bytes → Bytes → Db → UserRow
new_user b name password_hash salt db = record {
  id = b.next_id db.calls (map (λ r. r.id) db.users);
  username = name;
  password_hash = password_hash;
  salt = salt;
}

module _ (b : Backend) (works : (k : ℕ) → b.fails k ≡ false) (name : Bytes)
    (lit : is_literal 20 name ≡ true) where
  dao_insert_user-new :
      (password_hash salt : Bytes) (db : Db)
      → find_user b name db.users ≡ none
      → dao_insert_user b name password_hash salt db ≡ (
        true,
        record (tick db) { users = db.users ++ (new_user b name password_hash salt db ∷ []) },
      )
  unfolding dao_insert_user new_user
  dao_insert_user-new password_hash salt db e = rw (dao_insert_user, works db.calls, lit, e) refl

  dao_insert_user-taken :
      (password_hash salt : Bytes) (db : Db) (row : UserRow)
      → find_user b name db.users ≡ some row
      → dao_insert_user b name password_hash salt db ≡ (false, tick db)
  unfolding dao_insert_user
  dao_insert_user-taken password_hash salt db row e =
      rw (dao_insert_user, works db.calls, lit, e) refl

  dao_get_user_by_name-eq :
      (db : Db) → dao_get_user_by_name b name db ≡ (find_user b name db.users, tick db)
  unfolding dao_get_user_by_name
  dao_get_user_by_name-eq db = rw (dao_get_user_by_name, works db.calls, lit) refl

module _ (b : Backend) (works : (k : ℕ) → b.fails k ≡ false) (sha256 : Digest)
    (random : Option Bytes) (fallback text name password : Bytes)
    (split : split_credentials text ≡ some (name, password)) (lit : is_literal 20 name ≡ true)
    (db : Db) (free : find_user b name db.users ≡ none) where
  made_user : UserRow
  made_user =
      new_user b name (hash_password_with_salt sha256 password (generate_salt random fallback))
        (generate_salt random fallback) db

  made_db : Db
  made_db = record (tick db) { users = db.users ++ (made_user ∷ []) }

  made_found : find_user b name made_db.users ≡ some made_user
  unfolding made_db made_user new_user
  made_found = find_user-append b name db.users made_user free (b.collates-refl name)

  handle_register-split :
      handle_register b sha256 random fallback text db
      ≡ register_made b name (
          dao_insert_user b name
            (hash_password_with_salt sha256 password (generate_salt random fallback))
            (generate_salt random fallback)
            db)
  unfolding handle_register
  handle_register-split = rw (handle_register, split) refl

  handle_register-eq :
      handle_register b sha256 random fallback text db
      ≡ (registered, pos made_user.id, tick made_db)
  unfolding register_made made_db made_user
  handle_register-eq =
      let salt = generate_salt random fallback in
      handle_register-split
      ∙ ap (register_made b name) (
          dao_insert_user-new b works name lit (hash_password_with_salt sha256 password salt) salt
            db free)
      ∙ ap (λ r. (registered, elim r.0 [ none ↦ negsuc 0 | some row ↦ pos row.id ], r.1))
          (dao_get_user_by_name-eq b works name lit made_db
            ∙ ap (λ o. (o, tick made_db)) made_found)

  password_matches :
      (jwt : Jwt) (now : ℕ) (token : Bytes)
      → jwt_create_for_user jwt now (pos made_user.id) token_len ≡ some token
      → check_password sha256 jwt now password made_user
        ≡ (logged_in (pos made_user.id) token, pos made_user.id)
  unfolding check_password made_user new_user
  password_matches jwt now token t =
      rw
        (
          check_password,
          str_eq_refl (hash_password_with_salt sha256 password (generate_salt random fallback)),
          t,
        )
        refl

  handle_login-eq :
      (jwt : Jwt) (now : ℕ) (token : Bytes)
      → jwt_create_for_user jwt now (pos made_user.id) token_len ≡ some token
      → handle_login b sha256 jwt now text (tick made_db)
        ≡ (logged_in (pos made_user.id) token, pos made_user.id, tick (tick made_db))
  unfolding login_found
  handle_login-eq jwt now token t =
      handle_login-split b sha256 jwt now text (tick made_db) split
      ∙ ap (login_found sha256 jwt now password) (
          dao_get_user_by_name-eq b works name lit (tick made_db)
          ∙ ap (λ o. (o, tick (tick made_db))) made_found)
      ∙ ap (λ r. (r.0, r.1, tick (tick made_db))) (password_matches jwt now token t)

-- A name that nobody has yet, registered with a password, logs in with this password as the user
-- that the registration made, while no call fails and a token can be signed: the salt and the hash
-- that were stored are those that the login computes. (The name is a plain text that fits its column.)
pub handle_login-handle_register :
    (b : Backend) (sha256 : Digest) (jwt : Jwt) (now : ℕ) (random : Option Bytes)
    (fallback text name password token : Bytes) (db : Db)
    → ((k : ℕ) → b.fails k ≡ false)
    → split_credentials text ≡ some (name, password)
    → is_literal 20 name ≡ true
    → find_user b name db.users ≡ none
    → jwt_create_for_user jwt now (handle_register b sha256 random fallback text db).1 token_len
      ≡ some token
    → let made = handle_register b sha256 random fallback text db in
      let entered = handle_login b sha256 jwt now text made.2 in
      (made.0 ≡ registered) × (entered.0 ≡ logged_in made.1 token) × (entered.1 ≡ made.1)
handle_login-handle_register b sha256 jwt now random fallback text name password token db works
      split lit free t =
    let registers =
      handle_register-eq b works sha256 random fallback text name password split lit db free in
    let enters =
      handle_login-eq b works sha256 random fallback text name password split lit db free jwt now
        token (rw registers at t) in
    rw (registers, enters) (refl, refl, refl)
