-- ===== src/Session/Requests.antt =====
-- src/server/core/session.c: the requests for a download plan and for transfer tickets.
use wind_cloud_v.Shared.{ℕ, List, map, Option, none, some, if◌then◌else◌, length, drop, ◌++◌}
use wind_cloud_v.Shared.Int.{ℤ, pos, negsuc}
use wind_cloud_v.Shared.Text.{Bytes, utf8_codes}
use wind_cloud_v.VirtualPath.{full_path_len, build_transfer_full_path}
use wind_cloud_v.Protocol.{
  CmdType, cmd_code, gets, transfer_ticket_len, fill, MultiGetsPlanPacket,
  TransferTicketReplyPacket, init_multi_gets_plan_packet, init_transfer_ticket_reply_packet,
}
use wind_cloud_v.RangeRequest.{
  RangeRequest, parse_gets_range_ticket_request, is_requested_source_allowed,
}
use wind_cloud_v.Ticket.{Grant, issue_transfer_ticket}
use wind_cloud_v.Identity.{Config, get_current_server_address}
use wind_cloud_v.Vfs.{Backend, Db, dao_get_file_info_by_path}
use wind_cloud_v.Vfs.Entities.{ClientContext}
use wind_cloud_v.FileTable.{dao_file_get_info_by_id}
use wind_cloud_v.Session.{Server, Draws, State, load_available_sources_for_file, source_entry}

abbrev plan_refused : Bytes → Bytes → MultiGetsPlanPacket
plan_refused arg message =
    init_multi_gets_plan_packet (pos 0) (some arg) (negsuc 0) none (pos 0) (some message)

-- The first `source_count` entries of the packet's array.
unfoldable pub plan_made : Bytes → Bytes → ℤ → List (Bytes × Bytes) → MultiGetsPlanPacket
unfolding init_multi_gets_plan_packet fill
plan_made arg hash size sources =
    let p =
      init_multi_gets_plan_packet (pos 1) (some arg) size (some hash) (pos (length sources))
        (some (utf8_codes "多点下载方案申请成功")) in
    record p { sources = map source_entry sources ++ drop (length sources) p.sources }

-- What follows the lookup of the record.
unfoldable pub plan_recorded :
    Backend → Config → Bytes → ℕ → Option (Bytes × ℤ) × Db → MultiGetsPlanPacket × Db
unfolding init_multi_gets_plan_packet load_available_sources_for_file plan_made
plan_recorded b config arg file (none, db) =
    (plan_refused arg (utf8_codes "多点下载方案申请失败：查询文件信息失败"), db)
plan_recorded b config arg file (some (hash, size), db) =
    let r = load_available_sources_for_file b config file db in
    (
      elim r.0 [
        | none ↦ plan_refused arg (utf8_codes "多点下载方案申请失败：没有可用数据源")
        | some sources ↦ plan_made arg hash size sources
      ],
      r.1,
    )

-- What follows the lookup of the path.
unfoldable pub plan_found :
    Backend → Config → Bytes → Option (ℕ × ℕ) × Db → MultiGetsPlanPacket × Db
unfolding init_multi_gets_plan_packet dao_file_get_info_by_id plan_recorded
plan_found b config arg (none, db) = (plan_refused arg (utf8_codes "多点下载方案申请失败：文件不存在"), db)
plan_found b config arg (some (_, file), db) =
    plan_recorded b config arg file (dao_file_get_info_by_id b file db)

unfoldable pub handle_multi_gets_plan :
    Backend → Config → ClientContext → Bytes → Db → MultiGetsPlanPacket × Db
unfolding build_transfer_full_path init_multi_gets_plan_packet dao_get_file_info_by_path plan_found
handle_multi_gets_plan b config ctx arg db =
    elim (build_transfer_full_path full_path_len ctx.current_path arg) [
      | none ↦ (plan_refused arg (utf8_codes "多点下载方案申请失败：文件名不合法"), db)
      | some full_path ↦
          plan_found b config arg (dao_get_file_info_by_path b ctx.user_id full_path db)
    ]

abbrev ticket_refused : Bytes → TransferTicketReplyPacket
ticket_refused message = init_transfer_ticket_reply_packet (pos 0) (some message) none

-- The end of both kinds of request: the ticket is issued.
unfoldable pub issue_reply :
    Server → Draws → Bytes → Bytes → Grant → State → TransferTicketReplyPacket × State
unfolding issue_transfer_ticket init_transfer_ticket_reply_packet
issue_reply server draws made failed g state =
    let r =
      issue_transfer_ticket server.transfer_jwt draws.now draws.random g transfer_ticket_len
        state.tickets in
    (
      elim r.1 [
        | none ↦ ticket_refused failed
        | some t ↦ init_transfer_ticket_reply_packet (pos 1) (some made) (some t)
      ],
      record state { tickets = r.0 },
    )

abbrev range_grant : ClientContext → Bytes → RangeRequest → Grant
range_grant ctx full_path r = record {
  user_id = ctx.user_id;
  cmd_type = pos (cmd_code gets);
  full_path = full_path;
  range_start = r.range_start;
  range_end = r.range_end;
  source_ip = r.source_ip;
  source_port = r.source_port;
}

-- What follows the lookup of the path.
unfoldable pub range_found :
    Server
    → Draws
    → ClientContext
    → Bytes
    → RangeRequest
    → State
    → Option (ℕ × ℕ) × Db
    → TransferTicketReplyPacket × State
unfolding load_available_sources_for_file fill is_requested_source_allowed issue_reply
    init_transfer_ticket_reply_packet
range_found server draws ctx full_path r state (none, db) =
    (ticket_refused (utf8_codes "下载分片票据申请失败：文件不存在"), record state { db = db })
range_found server draws ctx full_path r state (some (_, file), db) =
    let loaded = load_available_sources_for_file server.backend server.config file db in
    let state' = record state { db = loaded.1 } in
    let unusable = ticket_refused (utf8_codes "下载分片票据申请失败：数据源服务器不可用") in
    elim loaded.0 [
      | none ↦ (unusable, state')
      | some sources ↦
          if is_requested_source_allowed (length sources) (map source_entry sources) r.source_ip
            r.source_port
          then issue_reply server draws (utf8_codes "下载分片票据申请成功") (utf8_codes "下载分片票据申请失败：签发票据失败")
              (range_grant ctx full_path r) state'
          else (unusable, state')
    ]

unfoldable pub handle_gets_range_ticket_prepare :
    Server → Draws → ClientContext → Bytes → State → TransferTicketReplyPacket × State
unfolding parse_gets_range_ticket_request build_transfer_full_path dao_get_file_info_by_path
    range_found init_transfer_ticket_reply_packet
handle_gets_range_ticket_prepare server draws ctx arg state =
    elim (parse_gets_range_ticket_request arg) [
      | none ↦ (ticket_refused (utf8_codes "下载分片票据申请失败：参数不合法"), state)
      | some r ↦ elim (build_transfer_full_path full_path_len ctx.current_path r.file_name) [
        | none ↦ (ticket_refused (utf8_codes "下载分片票据申请失败：文件名不合法"), state)
        | some full_path ↦
            range_found server draws ctx full_path r state
              (dao_get_file_info_by_path server.backend ctx.user_id full_path state.db)
      ]
    ]

-- No range: 0 to -1.
unfoldable pub handle_transfer_prepare :
    Server → Draws → ClientContext → CmdType → Bytes → State → TransferTicketReplyPacket × State
unfolding build_transfer_full_path get_current_server_address issue_reply
    init_transfer_ticket_reply_packet
handle_transfer_prepare server draws ctx type arg state =
    elim (build_transfer_full_path full_path_len ctx.current_path arg) [
      | none ↦ (ticket_refused (utf8_codes "传输预请求失败：文件名不合法"), state)
      | some full_path ↦ elim (get_current_server_address server.config) [
        | none ↦ (ticket_refused (utf8_codes "传输预请求失败：读取当前服务器地址失败"), state)
        | some (ip, port) ↦
            issue_reply server draws (utf8_codes "传输票据申请成功") (utf8_codes "传输预请求失败：签发票据失败")
              (record {
                user_id = ctx.user_id;
                cmd_type = pos (cmd_code type);
                full_path = full_path;
                range_start = pos 0;
                range_end = negsuc 0;
                source_ip = ip;
                source_port = port;
              })
              state
      ]
    ]
