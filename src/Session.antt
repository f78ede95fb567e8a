-- ===== src/Session.antt =====
-- src/server/core/session.c: a control connection, from the packet to the reply. What one command draws
-- from outside (the clock, random bytes) comes with its packet. Session.Requests has the requests for a
-- download plan and for tickets, Session.Dispatch the commands, Session.Transfer the other connections.
pub mod Requests
pub mod Dispatch
pub mod Transfer
pub mod Login
pub mod Gate
pub mod Serve
mod Tests
use wind_cloud_v.Shared.{
  ℕ, Bool, true, false, not, ◌&&◌, ◌||◌, List, [], ◌∷◌, map, Option, none, some, ◌==◌,
  if◌then◌else◌, length, drop, ◌++◌,
}
use wind_cloud_v.Shared.Int.{ℤ, pos, negsuc, eqb_ℤ}
use wind_cloud_v.Shared.Text.{Bytes, utf8_codes, truncated}
use wind_cloud_v.VirtualPath.{root, full_path_len, build_transfer_full_path}
use wind_cloud_v.Protocol.{
  CmdType, cmd_code, login, register, gets, puts, gets_range, cmd_data_len, transfer_ticket_len,
  max_source_server_count, c_string, fill, CommandPacket, SourceServer, MultiGetsPlanPacket,
  TransferTicketReplyPacket, init_multi_gets_plan_packet, init_transfer_ticket_reply_packet,
}
use wind_cloud_v.RangeRequest.{
  RangeRequest, parse_gets_range_ticket_request, is_requested_source_allowed,
}
use wind_cloud_v.Ticket.{Jwt, Table, Grant, issue_transfer_ticket}
use wind_cloud_v.Identity.{Config, get_current_server_address}
use wind_cloud_v.Users.{Digest, LoginReply, RegisterReply, handle_login, handle_register}
use wind_cloud_v.Vfs.{Backend, Db, dao_get_file_info_by_path}
use wind_cloud_v.Vfs.Entities.{ClientContext}
use wind_cloud_v.Vfs.Commands.{Reply, FileCommand, dispatch_file_command}
use wind_cloud_v.FileTable.{dao_file_source_list, dao_file_get_info_by_id}

-- The server: its tables' backend, its configuration, and the parameters of Users and Ticket.
pub record Server : Type 0 where
  pub backend : Backend
  pub config : Config
  pub sha256 : Digest
  pub login_jwt : Jwt
  pub transfer_jwt : Jwt

-- What a command draws from outside: the time, and what RAND_bytes and rand give.
pub record Draws : Type 0 where
  pub now : ℕ
  pub random : Option Bytes
  pub fallback : Bytes

-- The tables and the transfer tickets.
pub record State : Type 0 where
  pub db : Db
  pub tickets : Table

pub data SessionReply : Type 0 where
  login_first bad_command : SessionReply
  auth : LoginReply → SessionReply
  registration : RegisterReply → SessionReply
  file_reply : Reply → SessionReply
  plan : MultiGetsPlanPacket → SessionReply
  ticket : TransferTicketReplyPacket → SessionReply

-- The addresses of the servers that hold a file, with the own one where none is recorded.
unfoldable pub load_available_sources_for_file :
    Backend → Config → ℕ → Db → Option (List (Bytes × Bytes)) × Db
unfolding dao_file_source_list get_current_server_address
load_available_sources_for_file b config file db =
    if file == 0
    then (none, db)
    else (let r = dao_file_source_list b file max_source_server_count db in
        let own : Option (List (Bytes × Bytes)) = elim (get_current_server_address config) [
          | none ↦ none
          | some (ip, port) ↦ some ((truncated 64 ip, truncated 16 port) ∷ [])
        ] in
        (elim r.0 [ none ↦ own | some [] ↦ own | some (s ∷ sources) ↦ some (s ∷ sources) ], r.1))

abbrev pub source_entry : Bytes × Bytes → SourceServer
source_entry (ip, port) = record { ip = fill 64 ip; port = fill 16 port }
