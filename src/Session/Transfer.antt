-- ===== src/Session/Transfer.antt =====
-- src/server/core/session.c: handle_transfer_request, a transfer connection from its ticket to the transfer.
use wind_cloud_v.Shared.{
  ℕ, Bool, true, false, not, ◌&&◌, List, [], Option, none, some, ◌==◌, if◌then◌else◌,
}
use wind_cloud_v.Shared.Int.{ℤ, pos, negsuc, eqb_ℤ, ltb_ℤ}
use wind_cloud_v.Shared.Text.{Bytes, str_eq, truncated}
use wind_cloud_v.VirtualPath.{
  root, is_absolute, extract_file_name, split_full_path, current_path_len,
}
use wind_cloud_v.Protocol.{
  cmd_code, gets, puts, file_name_len, c_string, FilePacket, TransferAuthPacket, init_file_packet,
}
use wind_cloud_v.Ticket.{Grant, verify_and_consume_transfer_ticket}
use wind_cloud_v.Identity.{get_current_server_address}
use wind_cloud_v.Vfs.{Backend, Db, dao_get_node_by_path}
use wind_cloud_v.Vfs.Entities.{ClientContext}
use wind_cloud_v.Upload.{PutsReply, UploadLink}
use wind_cloud_v.Upload.Handler.{handle_puts}
use wind_cloud_v.Download.{DownloadLink, Download, handle_gets, handle_gets_range}
use wind_cloud_v.Session.{Server, State}

abbrev pub directory_context : ℤ → Bytes → ℕ → ClientContext
directory_context user path dir = record {
  user_id = user;
  current_path = truncated current_path_len path;
  current_dir_id = dir;
}

-- What follows the lookup of the directory.
unfoldable pub context_found :
    ℤ → Bytes → Bytes → Option (ℕ × ℕ) × Db → Option (ClientContext × Bytes) × Db
context_found user parent name (none, db) = (none, db)
context_found user parent name (some (dir, type), db) =
    if type == 1 then (some (directory_context user parent dir, name), db) else (none, db)

-- The context of a directory, which must exist; the flag is that it is the root.
unfoldable pub context_at :
    Backend → ℤ → Bytes → Bytes → Bool → Db → Option (ClientContext × Bytes) × Db
unfolding dao_get_node_by_path context_found
context_at b user parent name true db = (some (directory_context user parent 0, name), db)
context_at b user parent name false db =
    context_found user parent name (dao_get_node_by_path b user parent db)

-- `none` is -1.
unfoldable pub build_transfer_context :
    Backend → ℤ → Bytes → Db → Option (ClientContext × Bytes) × Db
unfolding split_full_path context_at
build_transfer_context b user full_path db =
    elim (split_full_path current_path_len file_name_len full_path) [
      | none ↦ (none, db)
      | some (parent, name) ↦ context_at b user parent name (str_eq parent root) db
    ]

-- The name that build_transfer_context leaves in its caller's buffer where it fails.
unfoldable pub left_name : Bytes → Bytes
unfolding extract_file_name
left_name full_path =
    if is_absolute full_path then truncated file_name_len (extract_file_name full_path) else []

-- What a transfer connection comes to. A refused upload answers the client's packet, where it came.
pub data TransferEnd : Type 0 where
  closed : TransferEnd
  gets_refused : FilePacket → TransferEnd
  puts_refused : Option FilePacket → TransferEnd
  downloaded : Download → TransferEnd
  uploaded : List PutsReply → TransferEnd

unfoldable pub fail_gets_request : Bytes → FilePacket
unfolding init_file_packet
fail_gets_request name = init_file_packet gets (some name) (negsuc 0) (pos 0) none

unfoldable pub fail_puts_request : UploadLink → Bytes → Option FilePacket
unfolding init_file_packet
fail_puts_request link name = elim link.file_packet [
  | none ↦ none
  | some p ↦ some (init_file_packet puts (some name) p.file_size p.file_size none)
]

abbrev pub is_cmd : ℤ → ℕ → Bool
is_cmd type code = eqb_ℤ type (pos code)

-- The transfer that the ticket allows, in its context.
unfoldable pub transfer_in :
    Server → UploadLink → DownloadLink → Grant → ClientContext → Bytes → Db → TransferEnd × Db
unfolding handle_gets handle_gets_range handle_puts
transfer_in server up down g ctx name db =
    if is_cmd g.cmd_type (cmd_code gets)
    then (let r =
          if not (ltb_ℤ g.range_end g.range_start) && not (ltb_ℤ g.range_end (pos 0))
          then handle_gets_range server.backend down ctx name g.range_start g.range_end db
          else handle_gets server.backend down ctx name db in
        (downloaded r.0, r.1))
    else if is_cmd g.cmd_type (cmd_code puts)
    then (let r = handle_puts server.backend server.config up ctx name db in (uploaded r.0, r.1))
    else (closed, db)

-- What follows the construction of the context.
unfoldable pub transfer_built :
    Server
    → UploadLink
    → DownloadLink
    → Grant
    → Option (ClientContext × Bytes) × Db
    → TransferEnd × Db
unfolding left_name fail_gets_request fail_puts_request transfer_in
transfer_built server up down g (none, db) =
    if is_cmd g.cmd_type (cmd_code gets)
    then (gets_refused (fail_gets_request (left_name g.full_path)), db)
    else if is_cmd g.cmd_type (cmd_code puts)
    then (puts_refused (fail_puts_request up (left_name g.full_path)), db)
    else (closed, db)
transfer_built server up down g (some (ctx, name), db) = transfer_in server up down g ctx name db

-- The ticket is good: it must name this server.
unfoldable pub transfer_granted : Server → UploadLink → DownloadLink → Grant → Db → TransferEnd × Db
unfolding get_current_server_address build_transfer_context transfer_built
transfer_granted server up down g db = elim (get_current_server_address server.config) [
  | none ↦ (closed, db)
  | some (ip, port) ↦
      if str_eq g.source_ip ip && str_eq g.source_port port
      then transfer_built server up down g
          (build_transfer_context server.backend g.user_id g.full_path db)
      else (closed, db)
]

unfoldable pub handle_transfer_request :
    Server → ℕ → Option TransferAuthPacket → UploadLink → DownloadLink → State → TransferEnd × State
unfolding c_string verify_and_consume_transfer_ticket transfer_granted
handle_transfer_request server now none up down state = (closed, state)
handle_transfer_request server now (some p) up down state =
    let r =
      verify_and_consume_transfer_ticket server.transfer_jwt now (c_string p.ticket)
        state.tickets in
    elim r.1 [
      | none ↦ (closed, record state { tickets = r.0 })
      | some g ↦
          let t = transfer_granted server up down g state.db in
          (t.0, record { db = t.1; tickets = r.0 })
    ]
