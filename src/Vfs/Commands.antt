-- ===== src/Vfs/Commands.antt =====
-- src/server/file/file_cmds.c: the commands on the virtual file system.
use wind_cloud_v.Shared.{Option, ℕ, Bool, true, false, not, none, some, ◌==◌, if◌then◌else◌}
use wind_cloud_v.Shared.Text.{Bytes, codes, str_eq, is_empty, strcpy}
use wind_cloud_v.VirtualPath.{build_abs_path, cd_target, extract_file_name, is_valid_vfs_name}
use wind_cloud_v.Vfs.{
  Backend, Db, dao_get_node_by_path, dao_get_file_info_by_path, dao_list_dir, dao_is_dir_empty,
  dao_create_node, dao_delete_node,
}
use wind_cloud_v.Vfs.Entities.{ClientContext, release_file_entity_if_unused, create_empty_file_node}

-- The texts that the handlers send; `overflow` stands for a copy past the end of a buffer, where
-- the C code has no defined behaviour.
pub data Reply : Type 0 where
  text : Bytes → Reply
  list_failed dir_empty missing_argument entered no_dir not_a_dir : Reply
  bad_name exists_already dir_made dir_failed file_made file_failed : Reply
  no_file use_rmdir no_entity removed remove_failed : Reply
  use_rm dir_unchecked dir_not_empty dir_removed dir_remove_failed : Reply
  overflow : Reply

unfoldable pub handle_pwd : ClientContext → Reply
handle_pwd ctx = text ctx.current_path

-- The buffer has 4096 bytes.
unfoldable pub handle_ls : Backend → ClientContext → Db → Reply × Db
unfolding dao_list_dir
handle_ls b ctx db =
    let r = dao_list_dir b ctx.user_id ctx.current_dir_id db in
    (
      elim r.0 [
        | none ↦ list_failed
        | some list ↦
            if is_empty list
            then dir_empty
            else elim (strcpy 4096 list) [ none ↦ overflow | some out ↦ text out ]
      ],
      r.1,
    )

-- The lookup of handle_cd, and the change of the session.
unfoldable pub enter_dir : Backend → ClientContext → Bytes → Db → Reply × ClientContext × Db
unfolding dao_get_node_by_path
enter_dir b ctx target db =
    let r = dao_get_node_by_path b ctx.user_id target db in
    elim r.0 [
      | none ↦ (no_dir, ctx, r.1)
      | some (node, type) ↦
          if not (type == 1)
          then (not_a_dir, ctx, r.1)
          else (entered, record ctx { current_path = target; current_dir_id = node }, r.1)
    ]

unfoldable pub handle_cd : Backend → ClientContext → Bytes → Db → Reply × ClientContext × Db
unfolding cd_target enter_dir
handle_cd b ctx arg db =
    if is_empty arg
    then (missing_argument, ctx, db)
    else if str_eq arg (codes ".")
    then (entered, ctx, db)
    else elim (cd_target ctx.current_path arg) [
      | none ↦ (overflow, ctx, db)
      | some target ↦ enter_dir b ctx target db
    ]

-- mkdir and touch: what `make` does once the name is valid and the path is free.
unfoldable pub make_node :
    (ClientContext → Bytes → Bytes → Db → Bool × Db)
    → Reply
    → Reply
    → Backend
    → ClientContext
    → Bytes
    → Bytes
    → Db
    → Reply × Db
unfolding dao_get_node_by_path is_valid_vfs_name
make_node make made failed b ctx target name db =
    if not (is_valid_vfs_name name)
    then (bad_name, db)
    else let r = dao_get_node_by_path b ctx.user_id target db in
      elim r.0 [
        | some _ ↦ (exists_already, r.1)
        | none ↦ let m = make ctx target name r.1 in (if m.0 then made else failed, m.1)
      ]

-- The last name goes into a buffer of 64 bytes before it is tested.
unfoldable pub make_at :
    (ClientContext → Bytes → Bytes → Db → Bool × Db)
    → Reply
    → Reply
    → Backend
    → ClientContext
    → Bytes
    → Db
    → Reply × Db
unfolding build_abs_path extract_file_name make_node
make_at make made failed b ctx arg db =
    if is_empty arg then (missing_argument, db) else elim (build_abs_path ctx.current_path arg) [
      | none ↦ (overflow, db)
      | some target ↦ elim (strcpy 64 (extract_file_name target)) [
        | none ↦ (overflow, db)
        | some name ↦ make_node make made failed b ctx target name db
      ]
    ]

unfoldable pub create_dir_node : Backend → ClientContext → Bytes → Bytes → Db → Bool × Db
unfolding dao_create_node
create_dir_node b ctx target name db =
    dao_create_node b ctx.user_id target ctx.current_dir_id name 1 db

unfoldable pub handle_mkdir : Backend → ClientContext → Bytes → Db → Reply × Db
unfolding make_at create_dir_node
handle_mkdir b ctx arg db = make_at (create_dir_node b) dir_made dir_failed b ctx arg db

unfoldable pub handle_touch : Backend → ClientContext → Bytes → Db → Reply × Db
unfolding make_at create_empty_file_node
handle_touch b ctx arg db = make_at (create_empty_file_node b) file_made file_failed b ctx arg db

-- The deletion of rm: the node, and then the file if no node is left.
unfoldable pub delete_file_node : Backend → ClientContext → ℕ → ℕ → Db → Reply × Db
unfolding dao_delete_node release_file_entity_if_unused
delete_file_node b ctx node file db =
    let r = dao_delete_node b ctx.user_id node db in
    if r.0
    then (let s = release_file_entity_if_unused b file r.1 in
        (if s.0 then removed else remove_failed, s.1))
    else (remove_failed, r.1)

-- What follows the lookup of the file's record.
unfoldable pub remove_entity : Backend → ClientContext → ℕ → Option (ℕ × ℕ) × Db → Reply × Db
unfolding delete_file_node
remove_entity b ctx node (none, db) = (no_entity, db)
remove_entity b ctx node (some (_, file), db) = delete_file_node b ctx node file db

-- What follows the lookup of the node.
unfoldable pub remove_found : Backend → ClientContext → Bytes → Option (ℕ × ℕ) × Db → Reply × Db
unfolding dao_get_file_info_by_path remove_entity
remove_found b ctx target (none, db) = (no_file, db)
remove_found b ctx target (some (node, type), db) =
    if type == 1
    then (use_rmdir, db)
    else remove_entity b ctx node (dao_get_file_info_by_path b ctx.user_id target db)

unfoldable pub remove_file_at : Backend → ClientContext → Bytes → Db → Reply × Db
unfolding dao_get_node_by_path remove_found
remove_file_at b ctx target db =
    remove_found b ctx target (dao_get_node_by_path b ctx.user_id target db)

unfoldable pub handle_rm : Backend → ClientContext → Bytes → Db → Reply × Db
unfolding build_abs_path remove_file_at
handle_rm b ctx arg db =
    if is_empty arg then (missing_argument, db) else elim (build_abs_path ctx.current_path arg) [
      | none ↦ (overflow, db)
      | some target ↦ remove_file_at b ctx target db
    ]

-- What follows the test for an empty directory.
unfoldable pub delete_empty_dir : Backend → ClientContext → ℕ → Option Bool × Db → Reply × Db
unfolding dao_delete_node
delete_empty_dir b ctx node (none, db) = (dir_unchecked, db)
delete_empty_dir b ctx node (some false, db) = (dir_not_empty, db)
delete_empty_dir b ctx node (some true, db) =
    let s = dao_delete_node b ctx.user_id node db in
    (if s.0 then dir_removed else dir_remove_failed, s.1)

-- What follows the lookup of the node.
unfoldable pub remove_dir_found : Backend → ClientContext → Option (ℕ × ℕ) × Db → Reply × Db
unfolding dao_is_dir_empty delete_empty_dir
remove_dir_found b ctx (none, db) = (no_dir, db)
remove_dir_found b ctx (some (node, type), db) =
    if type == 0
    then (use_rm, db)
    else delete_empty_dir b ctx node (dao_is_dir_empty b ctx.user_id node db)

unfoldable pub remove_dir_at : Backend → ClientContext → Bytes → Db → Reply × Db
unfolding dao_get_node_by_path remove_dir_found
remove_dir_at b ctx target db =
    remove_dir_found b ctx (dao_get_node_by_path b ctx.user_id target db)

unfoldable pub handle_rmdir : Backend → ClientContext → Bytes → Db → Reply × Db
unfolding build_abs_path remove_dir_at
handle_rmdir b ctx arg db =
    if is_empty arg then (missing_argument, db) else elim (build_abs_path ctx.current_path arg) [
      | none ↦ (overflow, db)
      | some target ↦ remove_dir_at b ctx target db
    ]

-- The commands of the control connection that file_cmds.c answers.
pub data FileCommand : Type 0 where
  pwd ls : FileCommand
  cd touch rm mkdir rmdir : Bytes → FileCommand

-- The cases of dispatch_control_command for them.
unfoldable pub dispatch_file_command :
    Backend → ClientContext → FileCommand → Db → Reply × ClientContext × Db
unfolding handle_pwd handle_ls handle_cd handle_touch handle_rm handle_mkdir handle_rmdir
dispatch_file_command b ctx pwd db = (handle_pwd ctx, ctx, db)
dispatch_file_command b ctx ls db = let r = handle_ls b ctx db in (r.0, ctx, r.1)
dispatch_file_command b ctx (cd arg) db = handle_cd b ctx arg db
dispatch_file_command b ctx (touch arg) db = let r = handle_touch b ctx arg db in (r.0, ctx, r.1)
dispatch_file_command b ctx (rm arg) db = let r = handle_rm b ctx arg db in (r.0, ctx, r.1)
dispatch_file_command b ctx (mkdir arg) db = let r = handle_mkdir b ctx arg db in (r.0, ctx, r.1)
dispatch_file_command b ctx (rmdir arg) db = let r = handle_rmdir b ctx arg db in (r.0, ctx, r.1)
