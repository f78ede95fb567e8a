-- ===== src/Vfs/Entities.antt =====
-- src/server/file/file_cmds.c: the records behind the files of the virtual file system, their release
-- and the shared empty file.
use wind_cloud_v.Shared.{ℕ, Bool, true, false, [], Option, none, some, ltb, if◌then◌else◌}
use wind_cloud_v.Shared.Int.{ℤ, pos}
use wind_cloud_v.Shared.Text.{Bytes, codes, str_eq}
use wind_cloud_v.Vfs.{Backend, Db, Store, tick, dao_create_file_node}
use wind_cloud_v.FileTable.{
  dao_file_find_by_sha256, dao_file_insert, dao_file_add_ref_count, dao_file_sub_ref_count,
  dao_file_get_ref_count, dao_file_delete, dao_file_get_info_by_id,
  dao_file_source_delete_by_file_id,
}

pub record ClientContext : Type 0 where
  pub user_id : ℤ
  pub current_path : Bytes
  pub current_dir_id : ℕ

abbrev pub empty_file_sha256 : Bytes
empty_file_sha256 = codes "e3b0c44298fc1c149afbf4c8996fb92427ae41e4649b934ca495991b7852b855"

unfoldable pub remove_name : Bytes → Store → Store
remove_name name store s = if str_eq s name then none else store s

unfoldable pub write_name : Bytes → Bytes → Store → Store
write_name name content store s = if str_eq s name then some content else store s

-- `open` with O_CREAT keeps a file that is there.
unfoldable pub create_name : Bytes → Store → Store
unfolding write_name
create_name name store = elim (store name) [ none ↦ write_name name [] store | some _ ↦ store ]

-- A failed build of the path and a failed unlink leave the file, and both are passed over.
unfoldable pub unlink_stored : Backend → Bytes → Db → Db
unfolding remove_name
unlink_stored b hash db =
    if b.fails db.calls then tick db else record (tick db) { store = remove_name hash db.store }

-- The part of release_file_entity_if_unused for a count of 0.
unfoldable pub reclaim_file : Backend → ℕ → Bytes → Db → Bool × Db
unfolding unlink_stored dao_file_source_delete_by_file_id dao_file_delete
reclaim_file b file hash db =
    dao_file_delete b file (dao_file_source_delete_by_file_id b file (unlink_stored b hash db)).1

unfoldable pub release_counted : Backend → ℕ → Bytes → Db → Bool × Db
unfolding dao_file_get_ref_count reclaim_file
release_counted b file hash db =
    let r = dao_file_get_ref_count b file db in
    elim r.0 [
      | none ↦ (false, r.1)
      | some count ↦ if ltb 0 count then (true, r.1) else reclaim_file b file hash r.1
    ]

unfoldable pub release_file_entity_if_unused : Backend → ℕ → Db → Bool × Db
unfolding dao_file_get_info_by_id dao_file_sub_ref_count release_counted
release_file_entity_if_unused b file db =
    let r = dao_file_get_info_by_id b file db in
    elim r.0 [
      | none ↦ (false, r.1)
      | some (hash, _) ↦
          let s = dao_file_sub_ref_count b file r.1 in
          if s.0 then release_counted b file hash s.1 else (false, s.1)
    ]

unfoldable pub ensure_empty_store_file_exists : Backend → Db → Bool × Db
unfolding create_name
ensure_empty_store_file_exists b db =
    if b.fails db.calls
    then (false, tick db)
    else (true, record (tick db) { store = create_name empty_file_sha256 db.store })

-- A node for a file that has a record: the node first, then the count.
unfoldable pub link_file : Backend → ClientContext → Bytes → Bytes → ℕ → Db → Bool × Db
unfolding dao_create_file_node dao_file_add_ref_count
link_file b ctx target name file db =
    let r = dao_create_file_node b ctx.user_id target ctx.current_dir_id name file db in
    if r.0 then dao_file_add_ref_count b file r.1 else (false, r.1)

-- A node for a file whose record was made just now with count 1.
unfoldable pub link_new_file : Backend → ClientContext → Bytes → Bytes → ℕ → Db → Bool × Db
unfolding dao_create_file_node dao_file_delete
link_new_file b ctx target name file db =
    let r = dao_create_file_node b ctx.user_id target ctx.current_dir_id name file db in
    if r.0 then (true, r.1) else (false, (dao_file_delete b file r.1).1)

-- What follows the second lookup of the record.
unfoldable pub link_found :
    Backend → ClientContext → Bytes → Bytes → Option (ℕ × ℤ) × Db → Bool × Db
unfolding link_file
link_found b ctx target name (none, db) = (false, db)
link_found b ctx target name (some (file, _), db) = link_file b ctx target name file db

-- No record of the empty file was found: what follows the insert of one.
unfoldable pub use_inserted : Backend → ClientContext → Bytes → Bytes → Option ℕ × Db → Bool × Db
unfolding link_new_file link_found dao_file_find_by_sha256
use_inserted b ctx target name (some file, db) = link_new_file b ctx target name file db
use_inserted b ctx target name (none, db) =
    link_found b ctx target name (dao_file_find_by_sha256 b empty_file_sha256 db)

unfoldable pub insert_empty_file : Backend → ClientContext → Bytes → Bytes → Db → Bool × Db
unfolding dao_file_insert use_inserted
insert_empty_file b ctx target name db =
    use_inserted b ctx target name (dao_file_insert b empty_file_sha256 (pos 0) db)

-- What follows the first lookup of the record.
unfoldable pub link_or_insert :
    Backend → ClientContext → Bytes → Bytes → Option (ℕ × ℤ) × Db → Bool × Db
unfolding link_file insert_empty_file
link_or_insert b ctx target name (some (file, _), db) = link_file b ctx target name file db
link_or_insert b ctx target name (none, db) = insert_empty_file b ctx target name db

unfoldable pub create_empty_file_node : Backend → ClientContext → Bytes → Bytes → Db → Bool × Db
unfolding ensure_empty_store_file_exists dao_file_find_by_sha256 link_or_insert
create_empty_file_node b ctx target name db =
    let e = ensure_empty_store_file_exists b db in
    if e.0
    then link_or_insert b ctx target name (dao_file_find_by_sha256 b empty_file_sha256 e.1)
    else (false, e.1)
