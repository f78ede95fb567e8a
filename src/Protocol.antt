-- ===== src/Protocol.antt =====
-- include/protocol.h and src/common/protocol.c: command codes, packets, and what is checked on arrival.
-- A `char name[n]` is the list of its n bytes; `memset` to zero and `strncpy` of n - 1 bytes is
-- `fill`. A received packet is what recv_full has left in the structure, `none` where it failed.
-- Protocol.Stream has send_full and recv_full.
pub mod Stream
pub mod Laws
mod Tests
use wind_cloud_v.Shared.{
  ℕ, zero, suc, ◌+◌, ◌-◌, ◌≡◌, Bool, true, false, not, ◌||◌, List, [], ◌∷◌, ◌++◌, map, Option, none,
  some, ltb, leb, ◌==◌, if◌then◌else◌, length, set, take, replicate,
}
use wind_cloud_v.Shared.Int.{ℤ, pos, negsuc, ltb_ℤ}
use wind_cloud_v.Shared.Text.{Bytes, codes, str_eq}

pub data CmdType : Type 0 where
  invalid pwd cd ls gets puts touch rm mkdir rmdir reply login register gets_range : CmdType

abbrev pub cmd_code : CmdType → ℕ
cmd_code invalid = 0
cmd_code pwd = 1
cmd_code cd = 2
cmd_code ls = 3
cmd_code gets = 4
cmd_code puts = 5
cmd_code touch = 6
cmd_code rm = 7
cmd_code mkdir = 8
cmd_code rmdir = 9
cmd_code reply = 10
cmd_code login = 11
cmd_code register = 12
cmd_code gets_range = 13

pub data ConnRole : Type 0 where
  role_invalid ctrl transfer : ConnRole

abbrev pub role_code : ConnRole → ℕ
role_code role_invalid = 0
role_code ctrl = 1
role_code transfer = 2

unfoldable pub get_cmd_type : Bytes → CmdType
unfolding str_eq
get_cmd_type cmd_str =
    if str_eq cmd_str (codes "pwd")
    then pwd
    else if str_eq cmd_str (codes "cd")
    then cd
    else if str_eq cmd_str (codes "ls")
    then ls
    else if str_eq cmd_str (codes "gets")
    then gets
    else if str_eq cmd_str (codes "puts")
    then puts
    else if str_eq cmd_str (codes "touch")
    then touch
    else if str_eq cmd_str (codes "rm")
    then rm
    else if str_eq cmd_str (codes "mkdir")
    then mkdir
    else if str_eq cmd_str (codes "rmdir")
    then rmdir
    else if str_eq cmd_str (codes "login")
    then login
    else if str_eq cmd_str (codes "register")
    then register
    else invalid

abbrev pub cmd_data_len : ℕ
cmd_data_len = 256

abbrev pub file_name_len : ℕ
file_name_len = 256

abbrev pub hash_len : ℕ
hash_len = 65

abbrev pub token_len : ℕ
token_len = 1024

abbrev pub transfer_ticket_len : ℕ
transfer_ticket_len = 1024

abbrev pub max_source_server_count : ℕ
max_source_server_count = 8

-- The C string in an array: the bytes before the first NUL.
unfoldable pub c_string : Bytes → Bytes
c_string [] = []
c_string (zero ∷ cs) = []
c_string (suc c ∷ cs) = suc c ∷ c_string cs

-- An array of n zero bytes into which `strncpy` has put at most n - 1 bytes of a C string.
unfoldable pub fill : ℕ → Bytes → Bytes
fill n s = take (n - 1) s ++ replicate (n - length (take (n - 1) s)) 0

abbrev pub fill_optional : ℕ → Option Bytes → Bytes
fill_optional n none = replicate n 0
fill_optional n (some s) = fill n s

-- `buf[n - 1] = '\0'`
unfoldable pub terminate : ℕ → Bytes → Bytes
terminate n cs = set cs (n - 1) 0

pub record CommandPacket : Type 0 where
  pub cmd_type : ℤ
  pub data_len : ℤ
  pub text : Bytes

pub record FilePacket : Type 0 where
  pub cmd_type : ℤ
  pub data_len : ℤ
  pub file_size : ℤ
  pub offset : ℤ
  pub file_name : Bytes
  pub hash : Bytes

pub record ConnInitPacket : Type 0 where
  pub role : ℤ

pub record TransferAuthPacket : Type 0 where
  pub ticket : Bytes

pub record AuthReplyPacket : Type 0 where
  pub success : ℤ
  pub user_id : ℤ
  pub message : Bytes
  pub token : Bytes

pub record TransferTicketReplyPacket : Type 0 where
  pub success : ℤ
  pub message : Bytes
  pub ticket : Bytes

pub record SourceServer : Type 0 where
  pub ip : Bytes
  pub port : Bytes

pub record MultiGetsPlanPacket : Type 0 where
  pub success : ℤ
  pub file_size : ℤ
  pub file_name : Bytes
  pub file_hash : Bytes
  pub source_count : ℤ
  pub sources : List SourceServer
  pub message : Bytes

-- strlen of the array, or the zero that `memset` has left where no text was given.
abbrev filled_len : ℕ → Option Bytes → ℤ
filled_len n none = pos 0
filled_len n (some s) = pos (length (c_string (fill n s)))

unfoldable pub init_command_packet : CmdType → Option Bytes → CommandPacket
unfolding fill
init_command_packet type text = record {
  cmd_type = pos (cmd_code type);
  data_len = filled_len cmd_data_len text;
  text = fill_optional cmd_data_len text;
}

unfoldable pub init_file_packet : CmdType → Option Bytes → ℤ → ℤ → Option Bytes → FilePacket
unfolding fill
init_file_packet type file_name file_size offset hash = record {
  cmd_type = pos (cmd_code type);
  data_len = filled_len file_name_len file_name;
  file_size = file_size;
  offset = offset;
  file_name = fill_optional file_name_len file_name;
  hash = fill_optional hash_len hash;
}

unfoldable pub init_conn_init_packet : ConnRole → ConnInitPacket
init_conn_init_packet role = record { role = pos (role_code role) }

unfoldable pub init_transfer_auth_packet : Option Bytes → TransferAuthPacket
unfolding fill
init_transfer_auth_packet ticket = record { ticket = fill_optional transfer_ticket_len ticket }

unfoldable pub init_auth_reply_packet : ℤ → ℤ → Option Bytes → Option Bytes → AuthReplyPacket
unfolding fill
init_auth_reply_packet success user_id message token = record {
  success = success;
  user_id = user_id;
  message = fill_optional cmd_data_len message;
  token = fill_optional token_len token;
}

unfoldable pub init_transfer_ticket_reply_packet :
    ℤ → Option Bytes → Option Bytes → TransferTicketReplyPacket
unfolding fill
init_transfer_ticket_reply_packet success message ticket = record {
  success = success;
  message = fill_optional cmd_data_len message;
  ticket = fill_optional transfer_ticket_len ticket;
}

abbrev no_source : SourceServer
no_source = record { ip = replicate 64 0; port = replicate 16 0 }

unfoldable pub init_multi_gets_plan_packet :
    ℤ → Option Bytes → ℤ → Option Bytes → ℤ → Option Bytes → MultiGetsPlanPacket
unfolding fill
init_multi_gets_plan_packet success file_name file_size file_hash source_count message = record {
  success = success;
  file_size = file_size;
  file_name = fill_optional file_name_len file_name;
  file_hash = fill_optional hash_len file_hash;
  source_count = source_count;
  sources = replicate max_source_server_count no_source;
  message = fill_optional cmd_data_len message;
}

-- `data_len < 0 || data_len >= limit`
abbrev out_of_range : ℕ → ℤ → Bool
out_of_range limit n = ltb_ℤ n (pos 0) || not (ltb_ℤ n (pos limit))

unfoldable pub recv_command_packet : Option CommandPacket → Option CommandPacket
unfolding terminate
recv_command_packet none = none
recv_command_packet (some p) =
    if out_of_range cmd_data_len p.data_len
    then none
    else some (record p { text = terminate cmd_data_len p.text })

unfoldable pub recv_file_packet : Option FilePacket → Option FilePacket
unfolding terminate
recv_file_packet none = none
recv_file_packet (some p) =
    if out_of_range file_name_len p.data_len
    then none
    else some (record p { file_name = terminate file_name_len p.file_name })

unfoldable pub recv_transfer_auth_packet : Option TransferAuthPacket → Option TransferAuthPacket
unfolding terminate
recv_transfer_auth_packet none = none
recv_transfer_auth_packet (some p) =
    some (record p { ticket = terminate transfer_ticket_len p.ticket })

unfoldable pub recv_auth_reply_packet : Option AuthReplyPacket → Option AuthReplyPacket
unfolding terminate
recv_auth_reply_packet none = none
recv_auth_reply_packet (some p) =
    some
      (record p { message = terminate cmd_data_len p.message; token = terminate token_len p.token })

unfoldable pub recv_transfer_ticket_reply_packet :
    Option TransferTicketReplyPacket → Option TransferTicketReplyPacket
unfolding terminate
recv_transfer_ticket_reply_packet none = none
recv_transfer_ticket_reply_packet (some p) = some (record p {
  message = terminate cmd_data_len p.message;
  ticket = terminate transfer_ticket_len p.ticket;
})

abbrev terminate_source : SourceServer → SourceServer
terminate_source s = record { ip = terminate 64 s.ip; port = terminate 16 s.port }

unfoldable pub recv_multi_gets_plan_packet : Option MultiGetsPlanPacket → Option MultiGetsPlanPacket
unfolding terminate
recv_multi_gets_plan_packet none = none
recv_multi_gets_plan_packet (some p) =
    if ltb_ℤ p.source_count (pos 0) || ltb_ℤ (pos max_source_server_count) p.source_count
    then none
    else some (record p {
      file_name = terminate file_name_len p.file_name;
      file_hash = terminate hash_len p.file_hash;
      message = terminate cmd_data_len p.message;
      sources = map terminate_source p.sources;
    })
