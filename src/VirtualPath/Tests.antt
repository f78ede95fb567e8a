-- ===== src/VirtualPath/Tests.antt =====
-- Paths at work.
use wind_cloud_v.Shared.{◌≡◌, refl, ◌≢◌, false, [], some, arith}
use wind_cloud_v.Shared.Text.{
  Bytes, codes, has_byte, str_eq, contains, starts_with, snprintf, strcpy, split_last,
}
use wind_cloud_v.VirtualPath.{
  full_path_len, current_path_len, check_arg_path, join_path, build_abs_path, get_parent_path,
  cut_last, cd_target, extract_file_name, build_transfer_full_path, split_full_path,
  update_client_path_after_cd,
}
use wind_cloud_v.VirtualPath.Laws.{
  get_parent_path-build_abs_path, split_full_path-build_transfer_full_path,
  update_client_path_after_cd-cd_target,
}

abbrev doc : Bytes
doc = codes "/doc"

built : build_abs_path doc (codes "a") ≡ some (codes "/doc/a")
unfolding build_abs_path join_path str_eq strcpy
built = refl

no_slash : has_byte b'/' (codes "a") ≡ false
unfolding has_byte
no_slash = refl

not_empty : codes "a" ≢ []
not_empty = λ e. cc

get_parent_path-build_abs_path_example :
    (get_parent_path (codes "/doc/a") ≡ doc) × (extract_file_name (codes "/doc/a") ≡ codes "a")
get_parent_path-build_abs_path_example =
    get_parent_path-build_abs_path doc (codes "a") (codes "/doc/a") refl no_slash not_empty built

transferred : build_transfer_full_path full_path_len doc (codes "a") ≡ some (codes "/doc/a")
unfolding build_transfer_full_path check_arg_path contains starts_with has_byte join_path str_eq
    snprintf
transferred = refl

split_full_path-build_transfer_full_path_example :
    split_full_path current_path_len 256 (codes "/doc/a") ≡ some (doc, codes "a")
split_full_path-build_transfer_full_path_example =
    split_full_path-build_transfer_full_path doc (codes "a") (codes "/doc/a") refl (omega arith)
      (omega arith) transferred

up : cd_target (codes "/doc/a") (codes "..") ≡ some doc
unfolding cd_target get_parent_path cut_last split_last str_eq strcpy
up = refl

not_here : str_eq (codes "..") (codes ".") ≡ false
unfolding str_eq
not_here = refl

update_client_path_after_cd-cd_target_example :
    update_client_path_after_cd (codes "/doc/a") (codes "..") ≡ doc
update_client_path_after_cd-cd_target_example =
    update_client_path_after_cd-cd_target (codes "/doc/a") (codes "..") doc (omega arith) not_here
      up
