-- ===== src/RangeRequest.antt =====
-- The request for the ticket of one part of a file: build_gets_range_ticket_request of
-- src/client/client_command_handle.c, and parse_gets_range_ticket_request and
-- is_requested_source_allowed of src/server/core/session.c.
pub mod Laws
mod Tests
use wind_cloud_v.Shared.{
  ℕ, zero, suc, Bool, true, false, ◌&&◌, ◌||◌, List, [], ◌∷◌, ◌++◌, Option, none, some, ◌==◌,
  if◌then◌else◌,
}
use wind_cloud_v.Shared.Int.{ℤ, pos, ltb_ℤ}
use wind_cloud_v.Shared.Decimal.{print_ℤ, atoll}
use wind_cloud_v.Shared.Text.{Bytes, str_eq, is_empty, snprintf, ◌>>=◌}
use wind_cloud_v.Protocol.{SourceServer, c_string, cmd_data_len, file_name_len}

abbrev pub bar : ℕ
bar = b'|'

pub record RangeRequest : Type 0 where
  pub file_name : Bytes
  pub range_start : ℤ
  pub range_end : ℤ
  pub source_ip : Bytes
  pub source_port : Bytes

-- The client's buffer has the size of a command's text.
unfoldable pub build_gets_range_ticket_request : RangeRequest → Option Bytes
build_gets_range_ticket_request r = snprintf cmd_data_len (
    r.file_name
    ++ bar
      ∷ (print_ℤ r.range_start
          ++ bar ∷ (print_ℤ r.range_end ++ bar ∷ (r.source_ip ++ bar ∷ r.source_port))))

-- The text without the separators in front.
unfoldable pub skip : ℕ → Bytes → Bytes
skip c [] = []
skip c (x ∷ xs) = let rest = skip c xs in if x == c then rest else x ∷ xs

-- The text up to the first separator, and the text after it.
unfoldable pub break_at : ℕ → Bytes → Bytes × Bytes
break_at c [] = ([], [])
break_at c (x ∷ xs) = let rest = break_at c xs in if x == c then ([], xs) else (x ∷ rest.0, rest.1)

-- `strtok_r`: a token and what is left, or `none` for NULL.
unfoldable pub strtok_r : ℕ → Bytes → Option (Bytes × Bytes)
unfolding skip break_at
strtok_r c s = if is_empty (skip c s) then none else some (break_at c (skip c s))

-- The sizes are those of the caller's buffers.
unfoldable pub parse_gets_range_ticket_request : Bytes → Option RangeRequest
unfolding strtok_r
parse_gets_range_ticket_request request_str = do
  buf ← snprintf cmd_data_len request_str
  first ← strtok_r bar buf
  name ← snprintf file_name_len first.0
  second ← strtok_r bar first.1
  third ← strtok_r bar second.1
  fourth ← strtok_r bar third.1
  ip ← snprintf 64 fourth.0
  fifth ← strtok_r bar fourth.1
  port ← snprintf 16 fifth.0
  if ltb_ℤ (atoll second.0) (pos 0) || ltb_ℤ (atoll third.0) (atoll second.0)
      then none
      else some (record {
        file_name = name;
        range_start = atoll second.0;
        range_end = atoll third.0;
        source_ip = ip;
        source_port = port;
      })

-- The loop over the first `source_count` sources.
unfoldable pub is_requested_source_allowed : ℕ → List SourceServer → Bytes → Bytes → Bool
is_requested_source_allowed zero sources ip port = false
is_requested_source_allowed (suc n) [] ip port = false
is_requested_source_allowed (suc n) (s ∷ sources) ip port =
    str_eq (c_string s.ip) ip && str_eq (c_string s.port) port
    || is_requested_source_allowed n sources ip port
