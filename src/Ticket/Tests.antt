-- ===== src/Ticket/Tests.antt =====
-- One ticket from its issue to its second use, with a token library that knows one set of claims.
use wind_cloud_v.Shared.{◌≡◌, refl, true, [], ◌∷◌, none, some, arith, if◌then◌else◌, replicate}
use wind_cloud_v.Shared.Int.{pos}
use wind_cloud_v.Shared.Text.{Bytes, codes, str_eq, truncated}
use wind_cloud_v.Shared.Decimal.{print_ℤ, print_ℕ, atoll, read_digits}
use wind_cloud_v.Ticket.{
  Grant, Jwt, Table, free_node, ticket_claims, bin_to_hex, hex_digit, read_claims, find_claim,
  copy_string_claim, jwt_create_transfer_ticket, jwt_verify_transfer_ticket, generate_ticket_id,
  register_ticket, issue_transfer_ticket, cleanup_expired_tickets, alloc_ticket_slot,
  verify_and_consume_transfer_ticket,
}
use wind_cloud_v.Samples.{claims_eq, encode_token, jwt_knowing}
use wind_cloud_v.Ticket.Table.{live, IsDistinct, unexpired}
use wind_cloud_v.Ticket.Once.{IsFitting, verify, run, verify_once, verify-issue, verify-live}

abbrev grant : Grant
grant = record {
  user_id = pos 5;
  cmd_type = pos 4;
  full_path = codes "/d/a";
  range_start = pos 0;
  range_end = pos 9;
  source_ip = codes "h";
  source_port = codes "8";
}

abbrev random : Bytes
random = replicate 16 1

abbrev id : Bytes
id = codes "01010101010101010101010101010101"

abbrev jwt : Jwt
jwt = jwt_knowing (ticket_claims grant id)

-- A table of two nodes.
abbrev table : Table
table = free_node ∷ free_node ∷ []

abbrev ticket : Bytes
ticket = 130 ∷ []

abbrev issued_table : Table
issued_table = record { active = true; ticket_id = id; expire_time = 130 } ∷ free_node ∷ []

table-IsDistinct : IsDistinct table
unfolding live
table-IsDistinct = (λ h. refl, (λ h. refl, tt))

issued_table-IsDistinct : IsDistinct issued_table
unfolding live
issued_table-IsDistinct = (λ h. refl, (λ h. refl, tt))

grant-IsFitting : IsFitting grant
grant-IsFitting = record { path_fits = omega arith; ip_fits = omega arith; port_fits = omega arith }

issued : issue_transfer_ticket jwt 100 (some random) grant 1024 table ≡ (issued_table, some ticket)
unfolding issue_transfer_ticket generate_ticket_id bin_to_hex hex_digit jwt_create_transfer_ticket
    register_ticket cleanup_expired_tickets alloc_ticket_slot encode_token claims_eq str_eq
    truncated print_ℤ print_ℕ
issued = refl

verified : jwt_verify_transfer_ticket jwt 110 ticket ≡ some (grant, id)
unfolding jwt_verify_transfer_ticket read_claims find_claim copy_string_claim str_eq truncated
    print_ℤ print_ℕ atoll read_digits
verified = refl

unused : live (bin_to_hex random) table ≡ none
unfolding live
unused = refl

verify-issue_example :
    (verify_and_consume_transfer_ticket jwt 110 ticket issued_table).1 ≡ some grant
verify-issue_example =
    verify-issue jwt 100 110 random grant 1024 table issued_table ticket table-IsDistinct
      grant-IsFitting refl unused issued (omega arith)

verify_once_example :
    (verify_and_consume_transfer_ticket jwt 120 ticket (
      run jwt
        (verify 115 ticket ∷ [])
        (verify_and_consume_transfer_ticket jwt 110 ticket issued_table).0)).1
    ≡ none
verify_once_example =
    verify_once jwt 110 120 ticket issued_table grant id (verify 115 ticket ∷ [])
      issued_table-IsDistinct verified (tt, tt)

verify-live_example :
    ((verify_and_consume_transfer_ticket jwt 110 ticket issued_table).1
      ≡ elim (unexpired 110 (live id issued_table)) [ none ↦ none | some _ ↦ some grant ])
    × IsDistinct (verify_and_consume_transfer_ticket jwt 110 ticket issued_table).0
    × ((j : Bytes)
        → live j (verify_and_consume_transfer_ticket jwt 110 ticket issued_table).0
          ≡ (if str_eq id j then none else unexpired 110 (live j issued_table)))
verify-live_example =
    verify-live jwt 110 ticket issued_table grant id verified issued_table-IsDistinct
