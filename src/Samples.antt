-- ===== src/Samples.antt =====
-- Concrete data for the tests: the tables of two users who share a stored file, a descriptor
-- whose calls move one byte, and a token library.
use wind_cloud_v.Shared.{
  ℕ, zero, suc, ◌+◌, ◌<◌, ◌≡◌, refl, Bool, true, false, ◌&&◌, List, [], ◌∷◌, Option, none, some,
  arith, ltb, if◌then◌else◌,
}
use wind_cloud_v.Shared.Int.{pos}
use wind_cloud_v.Shared.Text.{Bytes, codes, str_eq, str_eq_iff, str_eq_refl, is_empty}
use wind_cloud_v.Protocol.Stream.{Calls, IsBounded, NeverFails}
use wind_cloud_v.Ticket.{Claims, Jwt, find_claim}
use wind_cloud_v.Vfs.{Backend, Db, PathRow, has_id}
use wind_cloud_v.FileTable.Laws.{recorded}
use wind_cloud_v.Vfs.Counts.{points, references, occurrences, is_shaped, all_shaped}
use wind_cloud_v.Vfs.Refcount.{IsTidy, expected}
use wind_cloud_v.Vfs.Entities.{ClientContext, write_name}

abbrev pub sum : List ℕ → ℕ
sum [] = 0
sum (n ∷ ns) = n + sum ns

pub has_id-large : (i : ℕ) (ids : List ℕ) → sum ids < i → has_id i ids ≡ false
unfolding has_id
has_id-large i [] h = refl
has_id-large i (j ∷ ids) h = ground (arith, has_id-large i ids)

abbrev pub stored_hash : Bytes
stored_hash = codes "5e5e5e5e5e5e5e5e5e5e5e5e5e5e5e5e5e5e5e5e5e5e5e5e5e5e5e5e5e5e5e5e"

-- A server whose calls all succeed.
abbrev pub backend : Backend
backend = record {
  fails = λ k. false;
  collates = str_eq;
  next_id = λ k ids. suc (sum ids);
  order = λ rows. rows;
  unquoted_select = λ k path. none;
  unquoted_insert = λ k row rows. (false, rows);
  unquoted_user = λ k name. none;
  unquoted_user_insert = λ k row rows. (false, rows);
  unhashed_select = λ k hash rows. none;
  unhashed_insert = λ k hash row rows. (false, rows);
  resolve = λ name. name;
  collates-refl = str_eq_refl;
  next_id-fresh = λ k ids. has_id-large (suc (sum ids)) ids (omega arith);
  next_id-positive = λ k ids. omega arith;
  resolve-hash = λ name h. refl;
}

abbrev pub shared_file : ℕ → ℕ → Bytes → PathRow
shared_file node user name = record {
  id = node;
  user_id = pos user;
  path = b'/' ∷ name;
  file_id = some 7;
  parent_id = 0;
  file_name = name;
  node_type = 0;
}

abbrev pub db : Db
db = record {
  users = [];
  paths = shared_file 1 1 (codes "a") ∷ shared_file 2 2 (codes "b") ∷ [];
  files = record { id = 7; sha256sum = stored_hash; size = pos 3; count = 2 } ∷ [];
  file_sources = [];
  store = write_name (stored_hash) (codes "abc") (λ s. none);
  calls = 0;
}

pub db-IsTidy : IsTidy db
unfolding recorded references points expected occurrences all_shaped is_shaped
db-IsTidy = record {
  counted = λ i. ground arith;
  kept = record { keyed = λ i. ground arith; positive = refl; shaped = refl };
}

abbrev pub first_user : ClientContext
first_user = record { user_id = pos 1; current_path = b'/' ∷ []; current_dir_id = 0 }

-- Each call moves one byte.
unfoldable pub one_byte : Calls
one_byte k zero = none
one_byte k (suc n) = some 0

pub one_byte-IsBounded : IsBounded one_byte
unfolding one_byte
one_byte-IsBounded k zero r e = cc
one_byte-IsBounded k (suc n) r e = ground arith

pub one_byte-NeverFails : NeverFails one_byte
unfolding one_byte
one_byte-NeverFails k n = λ e. cc

unfoldable pub claims_eq : Claims → Claims → Bool
claims_eq [] [] = true
claims_eq ((k, v) ∷ cs) ((l, w) ∷ ds) = str_eq k l && str_eq v w && claims_eq cs ds
claims_eq _ _ = false

pub claims_eq_sound : (cs ds : Claims) → claims_eq cs ds ≡ true → cs ≡ ds
unfolding claims_eq
claims_eq_sound [] [] h = refl
claims_eq_sound [] (d ∷ ds) h = absurd (ground arith)
claims_eq_sound (c ∷ cs) [] h = absurd (ground arith)
claims_eq_sound ((k, v) ∷ cs) ((l, w) ∷ ds) h =
    ground (arith, str_eq_iff k l, str_eq_iff v w, claims_eq_sound cs ds)

-- A token is the time at which it expires.
abbrev pub decode_token : Claims → Bytes → ℕ → Option Claims
decode_token claims (exp ∷ []) now = if ltb now exp then some claims else none
decode_token claims _ now = none

unfoldable pub encode_token : Claims → Claims → ℕ → ℕ → Option Bytes
unfolding claims_eq
encode_token known claims iat exp = if claims_eq claims known then some (exp ∷ []) else none

pub decode_token-encode_token :
    (known claims : Claims) (iat exp now : ℕ) (token : Bytes)
    → encode_token known claims iat exp ≡ some token
    → now < exp
    → decode_token known token now ≡ some claims
unfolding encode_token
decode_token-encode_token known claims iat exp now token e l =
    ground (arith, claims_eq_sound claims known)

pub encode_token-not-empty :
    (known claims : Claims) (iat exp : ℕ) (token : Bytes)
    → encode_token known claims iat exp ≡ some token
    → is_empty token ≡ false
unfolding encode_token
encode_token-not-empty known claims iat exp token e = ground arith

pub decode_token_stable :
    (known : Claims) (token : Bytes) (now later : ℕ) (claims claims' : Claims)
    → decode_token known token now ≡ some claims
    → decode_token known token later ≡ some claims'
    → claims ≡ claims'
decode_token_stable known token now later claims claims' e f = ground arith

-- A token library that knows one set of claims.
abbrev pub jwt_knowing : Claims → Jwt
jwt_knowing known = record {
  encode = encode_token known;
  decode = decode_token known;
  get_claim = find_claim;
  get_claim-find = λ key claims. refl;
  decode-encode = decode_token-encode_token known;
  encode_not_empty = encode_token-not-empty known;
  decode_stable = decode_token_stable known;
}
