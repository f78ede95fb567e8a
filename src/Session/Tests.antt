-- ===== src/Session/Tests.antt =====
-- A stranger on a control connection, and a download ticket on a transfer connection.
use wind_cloud_v.Shared.{◌≡◌, ◌⊎◌, refl, true, none, some, [], ◌∷◌, arith}
use wind_cloud_v.Shared.Int.{pos}
use wind_cloud_v.Shared.Decimal.{print_ℤ, print_ℕ, atoll, read_digits}
use wind_cloud_v.Shared.Text.{
  Bytes, codes, str_eq, has_byte, truncated, snprintf, contains, starts_with,
}
use wind_cloud_v.VirtualPath.{full_path_len, build_transfer_full_path, check_arg_path, join_path}
use wind_cloud_v.Protocol.{CommandPacket, TransferAuthPacket, c_string}
use wind_cloud_v.Ticket.{
  Grant, ticket_claims, verify_and_consume_transfer_ticket, jwt_verify_transfer_ticket, read_claims,
  find_claim, copy_string_claim, cleanup_expired_tickets, consume_slot,
}
use wind_cloud_v.Vfs.{is_literal}
use wind_cloud_v.Samples.{backend, db, jwt_knowing, one_byte, one_byte-IsBounded}
use wind_cloud_v.Upload.{UploadLink}
use wind_cloud_v.Download.{DownloadLink}
use wind_cloud_v.Download.Window.{IsBoundedLink}
use wind_cloud_v.Session.{Server, Draws, State}
use wind_cloud_v.Session.Login.{some_login}
use wind_cloud_v.Session.Dispatch.{no_user_id, new_session, serve_packets}
use wind_cloud_v.Session.Gate.{IsUntouched, serve_packets-IsUntouched}
use wind_cloud_v.Session.Transfer.{handle_transfer_request}
use wind_cloud_v.Session.Serve.{OnlyServes, handle_transfer_request-OnlyServes}

abbrev grant : Grant
grant = record {
  user_id = pos 1;
  cmd_type = pos 4;
  full_path = codes "/a";
  range_start = pos 0;
  range_end = pos 1;
  source_ip = codes "127.0.0.1";
  source_port = codes "9090";
}

abbrev id : Bytes
id = codes "01"

abbrev server : Server
server = record {
  backend = backend;
  config = λ key. none;
  sha256 = λ s. s;
  login_jwt = jwt_knowing [];
  transfer_jwt = jwt_knowing (ticket_claims grant id);
}

abbrev state : State
state = record {
  db = db;
  tickets = record { active = true; ticket_id = id; expire_time = 130 } ∷ [];
}

abbrev draws : Draws
draws = record { now = 100; random = none; fallback = [] }

-- mkdir before any login.
abbrev mkdir_packet : CommandPacket
mkdir_packet = record { cmd_type = pos 8; data_len = pos 1; text = codes "d" }

serve_packets-IsUntouched_example :
    (some_login (serve_packets server new_session ((draws, mkdir_packet) ∷ []) state).0 ≡ true)
    ⊎ (((serve_packets server new_session ((draws, mkdir_packet) ∷ []) state).1.user_id
          ≡ no_user_id)
        × IsUntouched state (serve_packets server new_session ((draws, mkdir_packet) ∷ []) state).2)
serve_packets-IsUntouched_example =
    serve_packets-IsUntouched server new_session ((draws, mkdir_packet) ∷ []) state refl

-- A token is the time at which it expires.
abbrev auth_packet : TransferAuthPacket
auth_packet = record { ticket = 130 ∷ 0 ∷ [] }

verified_ticket :
    (verify_and_consume_transfer_ticket server.transfer_jwt 110
      (c_string auth_packet.ticket)
      state.tickets).1
    ≡ some grant
unfolding verify_and_consume_transfer_ticket jwt_verify_transfer_ticket read_claims find_claim
    copy_string_claim cleanup_expired_tickets consume_slot c_string str_eq truncated print_ℤ print_ℕ
    atoll read_digits
verified_ticket = refl

abbrev upload : UploadLink
upload = record {
  file_packet = none;
  sends_packet = true;
  incoming = [];
  recvs = one_byte;
  writes = λ k. one_byte;
}

abbrev download : DownloadLink
download = record {
  sends_packet = true;
  client_packet = some (record {
    cmd_type = pos 4;
    data_len = pos 1;
    file_size = pos 0;
    offset = pos 0;
    file_name = codes "a";
    hash = [];
  });
  sendfiles = one_byte;
  sends = λ k. one_byte;
}

download-IsBounded : IsBoundedLink download
download-IsBounded = record { sendfiles = one_byte-IsBounded; sends = λ k. one_byte-IsBounded }

ticket_path : build_transfer_full_path full_path_len (codes "/") (codes "a") ≡ some (codes "/a")
unfolding build_transfer_full_path check_arg_path join_path snprintf str_eq has_byte contains
    starts_with
ticket_path = refl

ticket_plain : is_literal 255 (codes "/a") ≡ true
unfolding is_literal has_byte
ticket_plain = refl

handle_transfer_request-OnlyServes_example :
    OnlyServes backend download grant db
      (handle_transfer_request server 110 (some auth_packet) upload download state).0
handle_transfer_request-OnlyServes_example =
    handle_transfer_request-OnlyServes server 110 auth_packet upload download state grant
      (codes "/") (codes "a") download-IsBounded verified_ticket refl refl (omega arith)
      (omega arith) ticket_path ticket_plain
