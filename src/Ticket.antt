-- ===== src/Ticket.antt =====
-- src/server/security/transfer_ticket.c, and the transfer tickets of src/common/jwt_utils.c. The library
-- l8w8jwt, the clock and RAND_bytes are parameters. The table is the list of its 1024 nodes; every
-- operation on it runs under one lock, so an interleaving is an order of whole operations.
pub mod Table
pub mod Once
mod Tests
use wind_cloud_v.Shared.{
  ℕ, zero, suc, ◌+◌, ◌/◌, ◌%◌, ◌<◌, ◌≡◌, Bool, true, false, ◌&&◌, ◌||◌, List, [], ◌∷◌, map, Option,
  none, some, ltb, leb, if◌then◌else◌, length, set, replicate,
}
use wind_cloud_v.Shared.Int.{ℤ}
use wind_cloud_v.Shared.Decimal.{print_ℤ, atoll}
use wind_cloud_v.Shared.Text.{◌>>=◌, Bytes, codes, str_eq, is_empty, truncated}

abbrev pub max_transfer_ticket_count : ℕ
max_transfer_ticket_count = 1024

abbrev pub transfer_ticket_id_len : ℕ
transfer_ticket_id_len = 33

abbrev pub transfer_ticket_expire_seconds : ℕ
transfer_ticket_expire_seconds = 30

-- What a ticket allows: the arguments of issue_transfer_ticket.
pub record Grant : Type 0 where
  pub user_id : ℤ
  pub cmd_type : ℤ
  pub full_path : Bytes
  pub range_start : ℤ
  pub range_end : ℤ
  pub source_ip : Bytes
  pub source_port : Bytes

pub record TransferTicketNode : Type 0 where
  pub active : Bool
  pub ticket_id : Bytes
  pub expire_time : ℕ

abbrev pub Table : Type 0
Table = List TransferTicketNode

abbrev pub Claims : Type 0
Claims = List (Bytes × Bytes)

-- The value of the first claim with a key.
unfoldable pub find_claim : Bytes → Claims → Option Bytes
find_claim key [] = none
find_claim key ((k, v) ∷ claims) = if str_eq k key then some v else find_claim key claims

-- l8w8jwt with the transfer issuer, audience and key. `decode` gives the claims of a token that is
-- genuine and not expired. Documented: a token decodes, until it expires, to the claims put in, it
-- is not empty, and its claims do not depend on the time; l8w8jwt_get_claim finds a claim by its
-- key.
pub record Jwt : Type 0 where
  pub encode : Claims → ℕ → ℕ → Option Bytes
  pub decode : Bytes → ℕ → Option Claims
  pub get_claim : Bytes → Claims → Option Bytes
  pub get_claim-find :
      (key : Bytes) (claims : Claims) → get_claim key claims ≡ find_claim key claims
  pub decode-encode :
      (claims : Claims) (iat exp now : ℕ) (token : Bytes)
      → encode claims iat exp ≡ some token
      → now < exp
      → decode token now ≡ some claims
  pub encode_not_empty :
      (claims : Claims) (iat exp : ℕ) (token : Bytes)
      → encode claims iat exp ≡ some token
      → is_empty token ≡ false
  pub decode_stable :
      (token : Bytes) (now later : ℕ) (claims claims' : Claims)
      → decode token now ≡ some claims
      → decode token later ≡ some claims'
      → claims ≡ claims'

-- copy_string_claim
unfoldable pub copy_string_claim : Jwt → Bytes → ℕ → Claims → Option Bytes
copy_string_claim jwt key size claims = elim (jwt.get_claim key claims) [
  | none ↦ none
  | some v ↦ if ltb size (length v + 1) then none else some (truncated size v)
]

unfoldable pub hex_digit : ℕ → ℕ
hex_digit d = if ltb d 10 then 48 + d else 87 + d

-- `%02x` of each byte
unfoldable pub bin_to_hex : Bytes → Bytes
unfolding hex_digit
bin_to_hex [] = []
bin_to_hex (b ∷ bs) = hex_digit (b / 16) ∷ hex_digit (b % 16) ∷ bin_to_hex bs

-- RAND_bytes gives 16 bytes or fails.
unfoldable pub generate_ticket_id : Option Bytes → Option Bytes
unfolding bin_to_hex
generate_ticket_id none = none
generate_ticket_id (some random) = some (bin_to_hex random)

abbrev pub ticket_claims : Grant → Bytes → Claims
ticket_claims g ticket_id =
    (codes "uid", print_ℤ g.user_id)
    ∷ (codes "cmd", print_ℤ g.cmd_type)
    ∷ (codes "path", g.full_path)
    ∷ (codes "tid", ticket_id)
    ∷ (codes "start", print_ℤ g.range_start)
    ∷ (codes "end", print_ℤ g.range_end)
    ∷ (codes "sip", g.source_ip)
    ∷ (codes "sport", g.source_port)
    ∷ []

unfoldable pub jwt_create_transfer_ticket : Jwt → ℕ → Grant → Bytes → ℕ → Option Bytes
jwt_create_transfer_ticket jwt now g ticket_id ticket_size =
    if is_empty g.full_path || is_empty g.source_ip || is_empty g.source_port || is_empty ticket_id
    then none
    else elim (jwt.encode (ticket_claims g ticket_id) now (now + transfer_ticket_expire_seconds)) [
      | none ↦ none
      | some token ↦
          if ltb ticket_size (length token + 1) then none else some (truncated ticket_size token)
    ]

-- The claims of a decoded ticket; the buffers are those of handle_transfer_request.
unfoldable pub read_claims : Jwt → Claims → Option (Grant × Bytes)
unfolding copy_string_claim
read_claims jwt claims = do
  uid ← jwt.get_claim (codes "uid") claims
  cmd ← jwt.get_claim (codes "cmd") claims
  start ← jwt.get_claim (codes "start") claims
  end ← jwt.get_claim (codes "end") claims
  path ← copy_string_claim jwt (codes "path") 512 claims
  ip ← copy_string_claim jwt (codes "sip") 64 claims
  port ← copy_string_claim jwt (codes "sport") 16 claims
  tid ← copy_string_claim jwt (codes "tid") transfer_ticket_id_len claims
  some (
    record {
      user_id = atoll uid;
      cmd_type = atoll cmd;
      full_path = path;
      range_start = atoll start;
      range_end = atoll end;
      source_ip = ip;
      source_port = port;
    },
    tid,
  )

unfoldable pub jwt_verify_transfer_ticket : Jwt → ℕ → Bytes → Option (Grant × Bytes)
unfolding read_claims
jwt_verify_transfer_ticket jwt now ticket =
    if is_empty ticket then none else (do claims ← jwt.decode ticket now; read_claims jwt claims)

abbrev pub free_node : TransferTicketNode
free_node = record { active = false; ticket_id = []; expire_time = 0 }

abbrev pub expire_node : ℕ → TransferTicketNode → TransferTicketNode
expire_node now n = if n.active && leb n.expire_time now then free_node else n

unfoldable pub cleanup_expired_tickets : ℕ → Table → Table
cleanup_expired_tickets now [] = []
cleanup_expired_tickets now (n ∷ table) = expire_node now n ∷ cleanup_expired_tickets now table

unfoldable pub alloc_ticket_slot : Table → Option ℕ
alloc_ticket_slot [] = none
alloc_ticket_slot (n ∷ table) =
    let rest = alloc_ticket_slot table in
    if n.active then elim rest [ none ↦ none | some i ↦ some (suc i) ] else some 0

-- The locked part of issue_transfer_ticket: `none` where no slot is free.
unfoldable pub register_ticket : ℕ → Bytes → Table → Table × Bool
unfolding cleanup_expired_tickets alloc_ticket_slot
register_ticket now ticket_id table =
    let clean = cleanup_expired_tickets now table in
    elim (alloc_ticket_slot clean) [
      | none ↦ (clean, false)
      | some slot ↦ (
        set clean slot (record {
          active = true;
          ticket_id = truncated transfer_ticket_id_len ticket_id;
          expire_time = now + transfer_ticket_expire_seconds;
        }),
        true,
      )
    ]

unfoldable pub issue_transfer_ticket :
    Jwt → ℕ → Option Bytes → Grant → ℕ → Table → Table × Option Bytes
unfolding generate_ticket_id jwt_create_transfer_ticket register_ticket
issue_transfer_ticket jwt now random g ticket_size table =
    if is_empty g.full_path || is_empty g.source_ip || is_empty g.source_port
    then (table, none)
    else elim (generate_ticket_id random) [
      | none ↦ (table, none)
      | some ticket_id ↦ elim (jwt_create_transfer_ticket jwt now g ticket_id ticket_size) [
        | none ↦ (table, none)
        | some ticket ↦
            let (table', registered) = register_ticket now ticket_id table in
            (table', if registered then some ticket else none)
      ]
    ]

-- The search loop: the first active node with the id is cleared.
unfoldable pub consume_slot : Bytes → Table → Table × Bool
consume_slot ticket_id [] = ([], false)
consume_slot ticket_id (n ∷ table) =
    let rest = consume_slot ticket_id table in
    if n.active && str_eq n.ticket_id ticket_id
    then (free_node ∷ table, true)
    else (n ∷ rest.0, rest.1)

unfoldable pub verify_and_consume_transfer_ticket : Jwt → ℕ → Bytes → Table → Table × Option Grant
unfolding jwt_verify_transfer_ticket cleanup_expired_tickets consume_slot
verify_and_consume_transfer_ticket jwt now ticket table =
    elim (jwt_verify_transfer_ticket jwt now ticket) [
      | none ↦ (table, none)
      | some (g, ticket_id) ↦
          let (table', found) = consume_slot ticket_id (cleanup_expired_tickets now table) in
          (table', if found then some g else none)
    ]

-- g_transfer_tickets at the start of the program
unfoldable pub initial_table : Table
initial_table = replicate max_transfer_ticket_count free_node
