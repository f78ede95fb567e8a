-- ===== src/Users/Tests.antt =====
-- A user registers on the tables of Samples and logs in.
use wind_cloud_v.Shared.{◌≡◌, ◌⊎◌, refl, true, none, some, [], ◌∷◌}
use wind_cloud_v.Shared.Int.{negsuc}
use wind_cloud_v.Shared.Decimal.{print_ℤ, print_ℕ}
use wind_cloud_v.Shared.Text.{Bytes, codes, str_eq, has_byte, truncated}
use wind_cloud_v.Protocol.{token_len}
use wind_cloud_v.RangeRequest.{strtok_r, skip, break_at}
use wind_cloud_v.Ticket.{Claims, bin_to_hex, hex_digit}
use wind_cloud_v.Vfs.{is_literal}
use wind_cloud_v.Samples.{backend, db, jwt_knowing, encode_token, claims_eq}
use wind_cloud_v.Users.{
  Digest, find_user, dao_insert_user, dao_get_user_by_name, generate_salt, hash_password_with_salt,
  split_credentials, skip_line_ends, take_line, strtok_line, registered, register_made,
  handle_register, jwt_create_for_user, logged_in, handle_login,
}
use wind_cloud_v.Users.Login.{IsUser, handle_login-IsUser, handle_login-handle_register}

-- The text is its own digest.
abbrev digest : Digest
digest s = s

abbrev salt_bytes : Bytes
salt_bytes = 1 ∷ 2 ∷ []

abbrev uid_claims : Claims
uid_claims = (codes "uid", codes "1") ∷ []

credentials : split_credentials (codes "bob/pw") ≡ some (codes "bob", codes "pw")
unfolding split_credentials strtok_r skip break_at strtok_line skip_line_ends take_line
credentials = refl

bob_plain : is_literal 20 (codes "bob") ≡ true
unfolding is_literal has_byte
bob_plain = refl

bob_free : find_user backend (codes "bob") db.users ≡ none
unfolding find_user
bob_free = refl

bob_token :
    jwt_create_for_user
      (jwt_knowing uid_claims)
      100
      (handle_register backend digest (some salt_bytes) [] (codes "bob/pw") db).1
      token_len
    ≡ some (3700 ∷ [])
unfolding handle_register split_credentials strtok_r skip break_at strtok_line skip_line_ends
    take_line generate_salt hash_password_with_salt bin_to_hex hex_digit truncated dao_insert_user
    register_made dao_get_user_by_name find_user is_literal has_byte str_eq jwt_create_for_user
    print_ℤ print_ℕ encode_token claims_eq
bob_token = refl

handle_login-handle_register_example :
    let made = handle_register backend digest (some salt_bytes) [] (codes "bob/pw") db in
    let entered =
      handle_login backend digest (jwt_knowing uid_claims) 100 (codes "bob/pw") made.2 in
    (made.0 ≡ registered) × (entered.0 ≡ logged_in made.1 (3700 ∷ [])) × (entered.1 ≡ made.1)
handle_login-handle_register_example =
    handle_login-handle_register backend digest (jwt_knowing uid_claims) 100 (some salt_bytes) []
      (codes "bob/pw") (codes "bob") (codes "pw") (3700 ∷ []) db (λ k. refl) credentials bob_plain
      bob_free bob_token

handle_login-IsUser_example :
    let made = handle_register backend digest (some salt_bytes) [] (codes "bob/pw") db in
    let entered =
      handle_login backend digest (jwt_knowing uid_claims) 100 (codes "bob/pw") made.2 in
    (entered.1 ≡ negsuc 0) ⊎ IsUser backend digest (codes "bob") (codes "pw") entered.1 made.2
handle_login-IsUser_example =
    handle_login-IsUser backend digest (jwt_knowing uid_claims) 100 (codes "bob/pw") (codes "bob")
      (codes "pw") (handle_register backend digest (some salt_bytes) [] (codes "bob/pw") db).2
      credentials bob_plain
