-- ===== src/Session/Dispatch.antt =====
-- src/server/core/session.c: dispatch_control_command and handle_request.
use wind_cloud_v.Shared.{Bool, not, ◌&&◌, ◌||◌, List, [], ◌∷◌, if◌then◌else◌}
use wind_cloud_v.Shared.Int.{ℤ, pos, negsuc, eqb_ℤ}
use wind_cloud_v.Shared.Text.{Bytes, truncated}
use wind_cloud_v.VirtualPath.{root}
use wind_cloud_v.Protocol.{
  CmdType, cmd_code, login, register, gets, puts, gets_range, cmd_data_len, c_string, CommandPacket,
}
use wind_cloud_v.Users.{handle_login, handle_register}
use wind_cloud_v.Vfs.Entities.{ClientContext}
use wind_cloud_v.Vfs.Commands.{FileCommand, dispatch_file_command}
use wind_cloud_v.Vfs.Commands.{FileCommand, pwd, ls, cd, touch, rm, mkdir, rmdir}
use wind_cloud_v.Session.{
  Server, Draws, State, SessionReply, login_first, bad_command, auth, registration, file_reply,
  plan, ticket,
}
use wind_cloud_v.Session.Requests.{
  handle_multi_gets_plan, handle_gets_range_ticket_prepare, handle_transfer_prepare,
}

-- What a command code asks for.
pub data Request : Type 0 where
  enter enroll make_plan range_ticket puts_ticket unknown : Request
  file_command : FileCommand → Request

-- get_packet_cmd_type and the cases of the switch; `arg` is what the file commands take.
unfoldable pub requested : ℤ → Bytes → Request
requested code arg =
    if eqb_ℤ code (pos (cmd_code login))
    then enter
    else if eqb_ℤ code (pos (cmd_code register))
    then enroll
    else if eqb_ℤ code (pos (cmd_code CmdType.pwd))
    then file_command pwd
    else if eqb_ℤ code (pos (cmd_code CmdType.cd))
    then file_command (cd arg)
    else if eqb_ℤ code (pos (cmd_code CmdType.ls))
    then file_command ls
    else if eqb_ℤ code (pos (cmd_code CmdType.touch))
    then file_command (touch arg)
    else if eqb_ℤ code (pos (cmd_code CmdType.rm))
    then file_command (rm arg)
    else if eqb_ℤ code (pos (cmd_code CmdType.mkdir))
    then file_command (mkdir arg)
    else if eqb_ℤ code (pos (cmd_code CmdType.rmdir))
    then file_command (rmdir arg)
    else if eqb_ℤ code (pos (cmd_code gets))
    then make_plan
    else if eqb_ℤ code (pos (cmd_code gets_range))
    then range_ticket
    else if eqb_ℤ code (pos (cmd_code puts))
    then puts_ticket
    else unknown

-- The user id of a session that nobody is logged in to.
abbrev pub no_user_id : ℤ
no_user_id = negsuc 0

-- What a login leaves of the session: its user, and the root where nobody was logged in before.
unfoldable pub enter_session : ClientContext → ℤ → ClientContext
enter_session ctx user =
    if eqb_ℤ ctx.user_id no_user_id && not (eqb_ℤ user no_user_id)
    then record { user_id = user; current_path = root; current_dir_id = 0 }
    else record ctx { user_id = user }

unfoldable pub perform :
    Server → Draws → ClientContext → Bytes → Request → State → SessionReply × ClientContext × State
unfolding handle_login handle_register enter_session dispatch_file_command handle_multi_gets_plan
    handle_gets_range_ticket_prepare handle_transfer_prepare
perform server draws ctx arg enter state =
    let r = handle_login server.backend server.sha256 server.login_jwt draws.now arg state.db in
    (auth r.0, enter_session ctx r.1, record state { db = r.2 })
perform server draws ctx arg enroll state =
    let r = handle_register server.backend server.sha256 draws.random draws.fallback arg state.db in
    (registration r.0, ctx, record state { db = r.2 })
perform server draws ctx arg (file_command command) state =
    let r = dispatch_file_command server.backend ctx command state.db in
    (file_reply r.0, r.1, record state { db = r.2 })
perform server draws ctx arg make_plan state =
    let r = handle_multi_gets_plan server.backend server.config ctx arg state.db in
    (plan r.0, ctx, record state { db = r.1 })
perform server draws ctx arg range_ticket state =
    let r = handle_gets_range_ticket_prepare server draws ctx arg state in (ticket r.0, ctx, r.1)
perform server draws ctx arg puts_ticket state =
    let r = handle_transfer_prepare server draws ctx puts arg state in (ticket r.0, ctx, r.1)
perform server draws ctx arg unknown state = (bad_command, ctx, state)

abbrev pub is_open_command : ℤ → Bool
is_open_command code = eqb_ℤ code (pos (cmd_code login)) || eqb_ℤ code (pos (cmd_code register))

unfoldable pub dispatch_control_command :
    Server → Draws → ClientContext → CommandPacket → State → SessionReply × ClientContext × State
unfolding requested perform c_string
dispatch_control_command server draws ctx p state =
    let arg = truncated cmd_data_len (c_string p.text) in
    if eqb_ℤ ctx.user_id no_user_id && not (is_open_command p.cmd_type)
    then (login_first, ctx, state)
    else perform server draws ctx arg (requested p.cmd_type arg) state

abbrev pub new_session : ClientContext
new_session = record { user_id = no_user_id; current_path = root; current_dir_id = 0 }

-- The loop over the packets that arrive until the connection ends.
unfoldable pub serve_packets :
    Server
    → ClientContext
    → List (Draws × CommandPacket)
    → State
    → List SessionReply × ClientContext × State
unfolding dispatch_control_command
serve_packets server ctx [] state = ([], ctx, state)
serve_packets server ctx ((draws, p) ∷ packets) state =
    let r = dispatch_control_command server draws ctx p state in
    let rest = serve_packets server r.1 packets r.2 in (r.0 ∷ rest.0, rest.1, rest.2)

unfoldable pub handle_request :
    Server → List (Draws × CommandPacket) → State → List SessionReply × State
unfolding serve_packets
handle_request server packets state =
    let r = serve_packets server new_session packets state in (r.0, r.2)
