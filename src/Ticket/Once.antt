-- ===== src/Ticket/Once.antt =====
-- A transfer ticket from its issue to its use.
use wind_cloud_v.Shared.{
  ℕ, ◌+◌, ◌*◌, ◌<◌, ◌≡◌, refl, sym, ap, ◌∙◌, inl, inr, true, false, List, [], ◌∷◌, Option, none,
  some, arith, ltb, if◌then◌else◌, length, Option-cases, append-nil,
}
use mathlib.Core.Path.{subst}
use mathlib.Core.Option.{some-injective}
use wind_cloud_v.Shared.Int.{ℤ}
use wind_cloud_v.Shared.Decimal.{print_ℤ, atoll, atoll-print_ℤ}
use wind_cloud_v.Shared.Text.{codes, Bytes, str_eq, str_eq_refl, truncated, truncated_fits}
use wind_cloud_v.Ticket.{
  Table, Grant, Jwt, Claims, cleanup_expired_tickets, read_claims, copy_string_claim, find_claim,
  bin_to_hex, ticket_claims, jwt_create_transfer_ticket, jwt_verify_transfer_ticket,
  issue_transfer_ticket, verify_and_consume_transfer_ticket, register_ticket, consume_slot,
  transfer_ticket_expire_seconds, transfer_ticket_id_len,
}
use wind_cloud_v.Ticket.Table.{
  live, IsDistinct, unexpired, live-cleanup_none, live-cleanup, cleanup-IsDistinct,
  live-consume_slot, live-consume_slot-none, consume_slot-IsDistinct, consume_slot_found,
  live-register_ticket, live-register_ticket-none,
}

pub length-bin_to_hex : (bs : Bytes) → length (bin_to_hex bs) ≡ 2 * length bs
unfolding bin_to_hex
length-bin_to_hex [] = refl
length-bin_to_hex (b ∷ bs) = omega (arith, length-bin_to_hex bs)

-- The strings of a grant fit the buffers of the transfer connection.
pub record IsFitting (g : Grant) : Type 0 where
  pub path_fits : length g.full_path < 512
  pub ip_fits : length g.source_ip < 64
  pub port_fits : length g.source_port < 16

read_number : (a : ℤ) → atoll (print_ℤ a) ≡ a
read_number a = ap atoll (sym (append-nil (print_ℤ a))) ∙ atoll-print_ℤ a [] tt

copied :
    (size : ℕ) (s : Bytes)
    → length s < size
    → (if ltb size (length s + 1) then none else some (truncated size s)) ≡ some s
copied size s h = ground (arith, truncated_fits size s h)

copy_string_claim-find :
    (jwt : Jwt) (key : Bytes) (size : ℕ) (claims : Claims) (v : Bytes)
    → find_claim key claims ≡ some v
    → length v < size
    → copy_string_claim jwt key size claims ≡ some v
unfolding copy_string_claim
copy_string_claim-find jwt key size claims v e l =
    ground (arith, jwt.get_claim-find key claims, e, copied size v l)

-- The eight claims of a ticket give back the grant and the id.
read_claims-ticket_claims :
    (jwt : Jwt) (g : Grant) (id : Bytes)
    → IsFitting g
    → length id < transfer_ticket_id_len
    → read_claims jwt (ticket_claims g id) ≡ some (g, id)
unfolding read_claims find_claim str_eq
read_claims-ticket_claims jwt g id f l =
    let c = ticket_claims g id in
    rw
      (
        jwt.get_claim-find (codes "uid") c,
        jwt.get_claim-find (codes "cmd") c,
        jwt.get_claim-find (codes "start") c,
        jwt.get_claim-find (codes "end") c,
        copy_string_claim-find jwt (codes "path") 512 c g.full_path refl f.path_fits,
        copy_string_claim-find jwt (codes "sip") 64 c g.source_ip refl f.ip_fits,
        copy_string_claim-find jwt (codes "sport") 16 c g.source_port refl f.port_fits,
        copy_string_claim-find jwt (codes "tid") transfer_ticket_id_len c id refl l,
        read_number g.user_id,
        read_number g.cmd_type,
        read_number g.range_start,
        read_number g.range_end,
      )
      refl

verify-refused :
    (jwt : Jwt) (now : ℕ) (ticket : Bytes) (table : Table)
    → jwt_verify_transfer_ticket jwt now ticket ≡ none
    → verify_and_consume_transfer_ticket jwt now ticket table ≡ (table, none)
unfolding verify_and_consume_transfer_ticket
verify-refused jwt now ticket table e = ground arith

verify-decoded :
    (jwt : Jwt) (now : ℕ) (ticket : Bytes) (table : Table) (g : Grant) (id : Bytes)
    → jwt_verify_transfer_ticket jwt now ticket ≡ some (g, id)
    → let r = consume_slot id (cleanup_expired_tickets now table) in
      verify_and_consume_transfer_ticket jwt now ticket table ≡ (r.0, if r.1 then some g else none)
unfolding verify_and_consume_transfer_ticket
verify-decoded jwt now ticket table g id e = rw (e, verify_and_consume_transfer_ticket)

-- A ticket that verifies for an id is accepted exactly when the id is live and has not run out, and
-- then it is live no more; every other live ticket that has not run out stays.
pub verify-live :
    (jwt : Jwt) (now : ℕ) (ticket : Bytes) (table : Table) (g : Grant) (id : Bytes)
    → jwt_verify_transfer_ticket jwt now ticket ≡ some (g, id)
    → IsDistinct table
    → let r = verify_and_consume_transfer_ticket jwt now ticket table in
      (r.1 ≡ elim (unexpired now (live id table)) [ none ↦ none | some _ ↦ some g ])
      × IsDistinct r.0
      × ((j : Bytes) → live j r.0 ≡ (if str_eq id j then none else unexpired now (live j table)))
verify-live jwt now ticket table g id e d =
    let clean = cleanup_expired_tickets now table in
    let d' : IsDistinct clean = cleanup-IsDistinct now table d in
    rw (verify-decoded jwt now ticket table g id e) (
      rw (consume_slot_found id clean, live-cleanup now id table d)
          (flag (unexpired now (live id table))),
      consume_slot-IsDistinct id clean d',
      λ j. rw (live-consume_slot id j clean d', live-cleanup now j table d),
    )
  where
    flag :
        (o : Option ℕ)
        → (if (elim o [ none ↦ false | some _ ↦ true ]) then some g else none)
          ≡ elim o [ none ↦ none | some _ ↦ some g ]
    flag none = refl
    flag (some x) = refl

pub data Op : Type 0 where
  issue : ℕ → Option Bytes → Grant → ℕ → Op
  verify : ℕ → Bytes → Op

unfoldable pub step : Jwt → Op → Table → Table
step jwt (issue now random g size) table = (issue_transfer_ticket jwt now random g size table).0
step jwt (verify now ticket) table = (verify_and_consume_transfer_ticket jwt now ticket table).0

unfoldable pub run : Jwt → List Op → Table → Table
unfolding step
run jwt [] table = table
run jwt (op ∷ ops) table = run jwt ops (step jwt op table)

-- RAND_bytes gives 16 bytes, and not those of the id.
abbrev pub Avoids : Bytes → Op → Type 0
Avoids id (issue now none g size) = Unit {0}
Avoids id (issue now (some random) g size) =
    (length random ≡ 16) × (str_eq (bin_to_hex random) id ≡ false)
Avoids id (verify now ticket) = Unit {0}

abbrev pub AllAvoid : Bytes → List Op → Type 0
AllAvoid id [] = Unit {0}
AllAvoid id (op ∷ ops) = Avoids id op × AllAvoid id ops

-- A ticket that is not live does not become so when some ticket is verified.
verify_none :
    (jwt : Jwt) (now : ℕ) (ticket : Bytes) (table : Table) (id : Bytes)
    → live id table ≡ none
    → live id (verify_and_consume_transfer_ticket jwt now ticket table).0 ≡ none
verify_none jwt now ticket table id e =
    elim (Option-cases (jwt_verify_transfer_ticket jwt now ticket)) [
      | inl f ↦ rw (verify-refused jwt now ticket table f) e
      | inr ((g, j), f) ↦ rw (verify-decoded jwt now ticket table g j f) (
          live-consume_slot-none j id (cleanup_expired_tickets now table)
            (live-cleanup_none now id table e))
    ]

verify_dead :
    (jwt : Jwt) (now : ℕ) (ticket : Bytes) (table : Table) (g : Grant) (id : Bytes)
    → jwt_verify_transfer_ticket jwt now ticket ≡ some (g, id)
    → live id table ≡ none
    → (verify_and_consume_transfer_ticket jwt now ticket table).1 ≡ none
verify_dead jwt now ticket table g id e f = rw (
  verify-decoded jwt now ticket table g id e,
  consume_slot_found id (cleanup_expired_tickets now table),
  live-cleanup_none now id table f,
)

step-none :
    (jwt : Jwt) (id : Bytes) (op : Op) (table : Table)
    → Avoids id op
    → live id table ≡ none
    → live id (step jwt op table) ≡ none
unfolding step issue_transfer_ticket
step-none jwt id (issue now none g size) table a e = ground arith
step-none jwt id (issue now (some random) g size) table a e = ground (
  arith,
  live-register_ticket-none now (bin_to_hex random) id table
      (omega (arith, length-bin_to_hex random, a.0)) a.1 e,
)
step-none jwt id (verify now ticket) table a e = verify_none jwt now ticket table id e

run-none :
    (jwt : Jwt) (id : Bytes) (ops : List Op) (table : Table)
    → AllAvoid id ops
    → live id table ≡ none
    → live id (run jwt ops table) ≡ none
unfolding run
run-none jwt id [] table a e = e
run-none jwt id (op ∷ ops) table a e =
    run-none jwt id ops (step jwt op table) a.1 (step-none jwt id op table a.0 e)

jwt_verify-decode :
    (jwt : Jwt) (ticket : Bytes) (now : ℕ) {a : Grant × Bytes}
    → jwt_verify_transfer_ticket jwt now ticket ≡ some a
    → (claims : Claims) × (jwt.decode ticket now ≡ some claims) × (read_claims jwt claims ≡ some a)
unfolding jwt_verify_transfer_ticket
jwt_verify-decode jwt ticket now e = ground arith

-- The claims of one ticket are the same whenever it decodes.
jwt_verify_stable :
    (jwt : Jwt) (ticket : Bytes) (now later : ℕ) {a b : Grant × Bytes}
    → jwt_verify_transfer_ticket jwt now ticket ≡ some a
    → jwt_verify_transfer_ticket jwt later ticket ≡ some b
    → a ≡ b
jwt_verify_stable jwt ticket now later {a} {b} e f =
    let (c, dc, rc) = jwt_verify-decode jwt ticket now e in
    let (c', dc', rc') = jwt_verify-decode jwt ticket later f in
    let same : c ≡ c' = jwt.decode_stable ticket now later c c' dc dc' in
    some-injective a b (sym rc ∙ ap (read_claims jwt) same ∙ rc')

-- Once a ticket has been accepted it is never accepted again, at whatever time and after whatever
-- further issues and verifications, whenever no id was live twice in the table and the random bytes
-- drawn later do not give the id of this ticket again.
pub verify_once :
    (jwt : Jwt) (now later : ℕ) (ticket : Bytes) (table : Table) (g : Grant) (id : Bytes)
    (ops : List Op)
    → IsDistinct table
    → jwt_verify_transfer_ticket jwt now ticket ≡ some (g, id)
    → AllAvoid id ops
    → (verify_and_consume_transfer_ticket jwt later ticket
        (run jwt ops (verify_and_consume_transfer_ticket jwt now ticket table).0)).1
      ≡ none
verify_once jwt now later ticket table g id ops d e a =
    let table' = (verify_and_consume_transfer_ticket jwt now ticket table).0 in
    let spent : live id table' ≡ none =
      rw (str_eq_refl id) at ((verify-live jwt now ticket table g id e d).2 id) in
    let gone : live id (run jwt ops table') ≡ none = run-none jwt id ops table' a spent in
    elim (Option-cases (jwt_verify_transfer_ticket jwt later ticket)) [
      | inl f ↦ rw (verify-refused jwt later ticket (run jwt ops table') f)
      | inr ((g', j), f) ↦
          let same : (g, id) ≡ (g', j) = jwt_verify_stable jwt ticket now later e f in
          verify_dead jwt later ticket (run jwt ops table') g' j f
            (subst (λ (x : Grant × Bytes). live x.1 (run jwt ops table') ≡ none) same gone)
    ]

-- What has happened where a ticket was issued.
record Issued (jwt : Jwt) (now : ℕ) (id : Bytes) (g : Grant) (table table' : Table) (ticket : Bytes)
    : Type 0 where
  encoded : jwt.encode (ticket_claims g id) now (now + transfer_ticket_expire_seconds) ≡ some ticket
  registered : register_ticket now id table ≡ (table', true)

jwt_create-encode :
    (jwt : Jwt) (now : ℕ) (g : Grant) (id : Bytes) (size : ℕ) {ticket : Bytes}
    → jwt_create_transfer_ticket jwt now g id size ≡ some ticket
    → jwt.encode (ticket_claims g id) now (now + transfer_ticket_expire_seconds) ≡ some ticket
unfolding jwt_create_transfer_ticket
jwt_create-encode jwt now g id size {ticket} e =
    elim (Option-cases
      (jwt.encode (ticket_claims g id) now (now + transfer_ticket_expire_seconds))) [
        | inl f ↦ ground arith
        | inr (t, f) ↦ ground (arith, truncated_fits size t)
      ]

issue-Issued :
    (jwt : Jwt) (now : ℕ) (random : Bytes) (g : Grant) (size : ℕ) (table table' : Table)
    (ticket : Bytes)
    → issue_transfer_ticket jwt now (some random) g size table ≡ (table', some ticket)
    → Issued jwt now (bin_to_hex random) g table table' ticket
unfolding issue_transfer_ticket
issue-Issued jwt now random g size table table' ticket e =
    ground (arith, jwt_create-encode jwt now g (bin_to_hex random) size {ticket = ticket})

Issued-live :
    (jwt : Jwt) (now : ℕ) (id : Bytes) (g : Grant) (table table' : Table) (ticket : Bytes)
    → IsDistinct table
    → live id table ≡ none
    → length id < transfer_ticket_id_len
    → Issued jwt now id g table table' ticket
    → IsDistinct table' × (live id table' ≡ some (now + transfer_ticket_expire_seconds))
Issued-live jwt now id g table table' ticket d fresh fits i =
    ground (arith, live-register_ticket now id id table d fresh fits, i.registered, str_eq_refl id)

Issued-verifies :
    (jwt : Jwt) (now later : ℕ) (id : Bytes) (g : Grant) (table table' : Table) (ticket : Bytes)
    → IsFitting g
    → length id < transfer_ticket_id_len
    → later < now + transfer_ticket_expire_seconds
    → Issued jwt now id g table table' ticket
    → jwt_verify_transfer_ticket jwt later ticket ≡ some (g, id)
unfolding jwt_verify_transfer_ticket
Issued-verifies jwt now later id g table table' ticket f fits l i = ground (
  arith,
  jwt.encode_not_empty (ticket_claims g id) now (now + transfer_ticket_expire_seconds) ticket
      i.encoded,
  jwt.decode-encode (ticket_claims g id) now (now + transfer_ticket_expire_seconds) later ticket
      i.encoded l,
  read_claims-ticket_claims jwt g id f fits,
)

-- A ticket that was issued is accepted on the transfer connection, for less than 30 seconds, with
-- exactly the user, command, path, range and source that it was issued for, whenever these fit the
-- buffers there and the 16 random bytes are not those of a live ticket.
pub verify-issue :
    (jwt : Jwt) (now later : ℕ) (random : Bytes) (g : Grant) (size : ℕ) (table table' : Table)
    (ticket : Bytes)
    → IsDistinct table
    → IsFitting g
    → length random ≡ 16
    → live (bin_to_hex random) table ≡ none
    → issue_transfer_ticket jwt now (some random) g size table ≡ (table', some ticket)
    → later < now + transfer_ticket_expire_seconds
    → (verify_and_consume_transfer_ticket jwt later ticket table').1 ≡ some g
verify-issue jwt now later random g size table table' ticket d f n fresh e l =
    let id = bin_to_hex random in
    let fits : length id < transfer_ticket_id_len = omega (arith, length-bin_to_hex random) in
    let i = issue-Issued jwt now random g size table table' ticket e in
    let (d', is_live) = Issued-live jwt now id g table table' ticket d fresh fits i in
    rw
      (
        (verify-live jwt later ticket table' g id
            (Issued-verifies jwt now later id g table table' ticket f fits l i) d').0,
        is_live,
      )
      (ground arith)
