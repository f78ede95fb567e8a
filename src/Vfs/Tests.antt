-- ===== src/Vfs/Tests.antt =====
-- Two users who share a stored file: the theorems on the virtual file system at work.
use wind_cloud_v.Shared.{none, ◌≡◌, refl, true, [], ◌∷◌, some}
use wind_cloud_v.Shared.Int.{pos}
use wind_cloud_v.Shared.Text.{codes, str_eq, has_byte, strcpy}
use wind_cloud_v.VirtualPath.{build_abs_path, join_path}
use wind_cloud_v.Vfs.{
  dao_get_node_by_path, select_node, find_node, is_node, is_literal, dao_get_file_info_by_path,
  dao_delete_node, delete_rows,
}
use wind_cloud_v.Vfs.Creation.{IsMade, handle_mkdir-IsMade}
use wind_cloud_v.Vfs.{Db, PathRow, children, dao_is_dir_empty, dao_create_node, insert_node}
use wind_cloud_v.Vfs.Commands.{dir_made, handle_mkdir, make_at, make_node, create_dir_node}
use wind_cloud_v.VirtualPath.{extract_file_name, is_valid_vfs_name}
use wind_cloud_v.Shared.Text.{split_last}
use wind_cloud_v.FileTable.{
  find_file, sub_count, dao_file_get_info_by_id, dao_file_sub_ref_count, dao_file_get_ref_count,
}
use wind_cloud_v.Samples.{stored_hash, backend, shared_file, db, db-IsTidy, first_user}
use wind_cloud_v.Vfs.Entities.{write_name, release_file_entity_if_unused, release_counted}
use wind_cloud_v.Vfs.Commands.{
  dir_removed, remove_dir_at, remove_dir_found, delete_empty_dir, removed, rm,
  dispatch_file_command, handle_rm, handle_rmdir, remove_file_at, remove_found, remove_entity,
  delete_file_node,
}
use wind_cloud_v.Vfs.Owner.{is_plain, argument, dispatch_file_command-rows_of}
use wind_cloud_v.Vfs.Isolation.{rows_of}
use wind_cloud_v.Vfs.Refcount.{IsTidy}
use wind_cloud_v.Vfs.Runs.{dispatch_file_command-IsTidy}
use wind_cloud_v.Vfs.Removal.{KeepsShared, handle_rm-KeepsShared}

plain : (is_plain (b'/' ∷ []) ≡ true) × (is_plain (codes "a") ≡ true)
unfolding is_plain has_byte
plain = (refl, refl)

argument_plain : is_plain (argument (rm (codes "a"))) ≡ true
unfolding is_plain has_byte argument
argument_plain = refl

dispatch_file_command-IsTidy_example :
    (is_plain (dispatch_file_command backend first_user (rm (codes "a")) db).1.current_path ≡ true)
    × IsTidy (dispatch_file_command backend first_user (rm (codes "a")) db).2
dispatch_file_command-IsTidy_example =
    dispatch_file_command-IsTidy backend first_user (rm (codes "a")) db (λ k. refl) plain.0
      argument_plain db-IsTidy

dispatch_file_command-rows_of_example :
    rows_of (pos 2) (dispatch_file_command backend first_user (rm (codes "a")) db).2.paths
    ≡ rows_of (pos 2) db.paths
dispatch_file_command-rows_of_example =
    dispatch_file_command-rows_of backend (pos 2) first_user (rm (codes "a")) db refl plain.0
      argument_plain

handle_rm-KeepsShared_example : KeepsShared db (handle_rm backend first_user (codes "a") db).1
handle_rm-KeepsShared_example = handle_rm-KeepsShared backend first_user (codes "a") db

-- A directory without a child beside the two files.
abbrev empty_dir : PathRow
empty_dir = record {
  id = 3;
  user_id = pos 1;
  path = codes "/c";
  file_id = none;
  parent_id = 0;
  file_name = codes "c";
  node_type = 1;
}

abbrev db_with_dir : Db
db_with_dir = record db { paths = empty_dir ∷ db.paths }

-- It is the directory that goes.
rmdir_removes :
    ((handle_rmdir backend first_user (codes "c") db_with_dir).0 ≡ dir_removed)
    × ((handle_rmdir backend first_user (codes "c") db_with_dir).1.paths ≡ db.paths)
unfolding handle_rmdir build_abs_path join_path strcpy str_eq remove_dir_at remove_dir_found
    delete_empty_dir dao_is_dir_empty children dao_get_node_by_path select_node find_node is_node
    is_literal has_byte dao_delete_node delete_rows
rmdir_removes = (refl, refl)

-- The first user's rm takes the node away and leaves the stored file, with a count of 1.
rm_leaves :
    (handle_rm backend first_user (codes "a") db).0 ≡ removed
    × ((handle_rm backend first_user (codes "a") db).1.paths ≡ shared_file 2 2 (codes "b") ∷ [])
    × ((handle_rm backend first_user (codes "a") db).1.store (stored_hash) ≡ some (codes "abc"))
unfolding handle_rm build_abs_path join_path strcpy str_eq remove_file_at remove_found remove_entity
    delete_file_node dao_get_node_by_path select_node find_node is_node is_literal has_byte
    dao_get_file_info_by_path dao_delete_node delete_rows release_file_entity_if_unused
    dao_file_get_info_by_id find_file dao_file_sub_ref_count sub_count release_counted
    dao_file_get_ref_count write_name
rm_leaves = (refl, refl, refl)

dir_path : build_abs_path (b'/' ∷ []) (codes "c") ≡ some (codes "/c")
unfolding build_abs_path join_path strcpy str_eq
dir_path = refl

plain_name : is_plain (codes "c") ≡ true
unfolding is_plain has_byte
plain_name = refl

dir_reply : (handle_mkdir backend first_user (codes "c") db).0 ≡ dir_made
unfolding handle_mkdir make_at make_node build_abs_path join_path strcpy str_eq extract_file_name
    split_last is_valid_vfs_name dao_get_node_by_path select_node find_node is_node is_literal
    has_byte create_dir_node dao_create_node insert_node
dir_reply = refl

handle_mkdir-IsMade_example :
    IsMade backend first_user
      (codes "/c")
      (extract_file_name (codes "/c"))
      (handle_mkdir backend first_user (codes "c") db).1
handle_mkdir-IsMade_example =
    handle_mkdir-IsMade backend first_user (codes "c") (codes "/c") db plain.0 plain_name dir_path
      dir_reply
