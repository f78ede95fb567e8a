-- ===== src/VirtualPath.antt =====
-- Virtual paths: src/server/file/path_utils.c, the path helpers of src/server/file/file_cmds.c,
-- src/server/file/file_transfer.c and src/server/core/session.c, and update_client_path_after_cd of
-- src/client/client_command_handle.c. A path is a C string; NULL arguments do not occur in the callers.
pub mod Laws
mod Tests
use wind_cloud_v.Shared.{
  ℕ, ◌+◌, Bool, false, not, ◌&&◌, ◌||◌, [], ◌∷◌, ◌++◌, Option, none, some, ltb, leb, ◌==◌,
  if◌then◌else◌, length,
}
use wind_cloud_v.Shared.Text.{
  Bytes, codes, str_eq, is_empty, has_byte, contains, split_last, strcpy, snprintf, truncated,
}

abbrev pub slash : ℕ
slash = b'/'

abbrev pub root : Bytes
root = slash ∷ []

abbrev pub max_vfs_name_len : ℕ
max_vfs_name_len = 30

abbrev pub cmd_data_len : ℕ
cmd_data_len = 256

abbrev pub full_path_len : ℕ
full_path_len = 512

abbrev pub current_path_len : ℕ
current_path_len = 256

-- `s[0] == '/'`
abbrev pub is_absolute : Bytes → Bool
is_absolute [] = false
is_absolute (c ∷ _) = c == slash

unfoldable pub check_arg_path : Bytes → Bool
check_arg_path arg = not (is_empty arg) && not (contains (codes "..") arg) && not (is_absolute arg)

-- The text that the two `sprintf` formats give.
unfoldable pub join_path : Bytes → Bytes → Bytes
join_path path arg = if str_eq path root then slash ∷ arg else path ++ slash ∷ arg

-- Every caller passes a buffer of 256 bytes.
unfoldable pub build_abs_path : Bytes → Bytes → Option Bytes
unfolding join_path
build_abs_path current_path arg =
    if is_absolute arg then strcpy 256 arg else strcpy 256 (join_path current_path arg)

-- What `strrchr` and the test for the first byte make of a path other than "/".
unfoldable pub cut_last : Bytes → Bytes
cut_last path = elim (split_last slash path) [
  | none ↦ path
  | some (before, _) ↦ if is_empty before then root else before
]

unfoldable pub get_parent_path : Bytes → Bytes
unfolding cut_last
get_parent_path path = if str_eq path root then root else cut_last path

-- The target that handle_cd computes for an argument other than `.`, in its buffer of 256 bytes.
unfoldable pub cd_target : Bytes → Bytes → Option Bytes
unfolding get_parent_path build_abs_path
cd_target current_path arg =
    if str_eq arg (codes "..")
    then strcpy 256 (get_parent_path current_path)
    else build_abs_path current_path arg

unfoldable pub extract_file_name : Bytes → Bytes
extract_file_name path = elim (split_last slash path) [ none ↦ path | some (_, after) ↦ after ]

unfoldable pub is_valid_vfs_name : Bytes → Bool
is_valid_vfs_name name = not (length name == 0) && not (ltb max_vfs_name_len (length name))

-- `none` is the result -1.
unfoldable pub build_full_virtual_path : ℕ → Bytes → Bytes → Option Bytes
unfolding check_arg_path join_path
build_full_virtual_path size current_path arg =
    if not (check_arg_path arg)
    then none
    else if has_byte slash arg
    then none
    else snprintf size (join_path current_path arg)

unfoldable pub build_transfer_full_path : ℕ → Bytes → Bytes → Option Bytes
unfolding check_arg_path join_path
build_transfer_full_path size current_path arg =
    if not (check_arg_path arg) || has_byte slash arg
    then none
    else snprintf size (join_path current_path arg)

-- The parent path and the last name, after `strrchr` has found the last slash.
unfoldable pub split_at_slash : ℕ → ℕ → Bytes × Bytes → Option (Bytes × Bytes)
split_at_slash parent_size file_size (before, after) =
    if is_empty after
    then none
    else if is_empty (truncated file_size after)
    then none
    else if is_empty before
    then some (truncated parent_size root, truncated file_size after)
    else if ltb parent_size (length before + 1)
    then none
    else some (before, truncated file_size after)

unfoldable pub split_full_path : ℕ → ℕ → Bytes → Option (Bytes × Bytes)
unfolding split_at_slash
split_full_path parent_size file_size path =
    if not (is_absolute path) then none else elim (split_last slash path) [
      | none ↦ none
      | some halves ↦ split_at_slash parent_size file_size halves
    ]

-- get_server_base_dir: the two `access` calls answer for "../test" and "./test".
unfoldable pub get_server_base_dir : Bool → Bool → Bytes
get_server_base_dir has_parent_test has_own_test =
    if has_parent_test
    then codes "../test"
    else if has_own_test
    then codes "./test"
    else codes "../test"

unfoldable pub get_current_real_path : Bytes → ℕ → Bytes → Option Bytes
get_current_real_path base_dir size current_path = snprintf size (base_dir ++ current_path)

unfoldable pub get_real_path : Bytes → ℕ → Bytes → Bytes → Option Bytes
unfolding check_arg_path
get_real_path base_dir size path arg =
    if not (check_arg_path arg)
    then none
    else if str_eq path root
    then snprintf size (base_dir ++ slash ∷ arg)
    else snprintf size (base_dir ++ (path ++ slash ∷ arg))

-- The `strcpy` into the caller's buffer follows the length test; `new_path` has 512 bytes.
unfoldable pub update_current_path : ℕ → Bytes → Bytes → Option Bytes
unfolding join_path
update_current_path size current_path arg =
    if leb size (length (join_path current_path arg))
    then none
    else some (truncated 512 (join_path current_path arg))

-- update_client_path_after_cd, on the path that the client state holds.
unfoldable pub next_client_path : Bytes → Bytes → Bytes
unfolding cut_last join_path
next_client_path current_path arg =
    if str_eq arg (codes "..")
    then cut_last (truncated 512 current_path)
    else if is_absolute arg
    then truncated 512 arg
    else truncated 512 (join_path current_path arg)

unfoldable pub update_client_path_after_cd : Bytes → Bytes → Bytes
unfolding next_client_path
update_client_path_after_cd current_path arg =
    if str_eq arg (codes ".")
    then current_path
    else if str_eq arg (codes "..") && str_eq current_path root
    then current_path
    else if leb current_path_len (length (next_client_path current_path arg))
    then current_path
    else next_client_path current_path arg
