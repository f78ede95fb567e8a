-- ===== src/Vfs/Isolation.antt =====
-- What a command can change in the rows of `paths`.
use wind_cloud_v.Shared.{
  ℕ, ◌≡◌, refl, ap, ◌∙◌, true, false, List, [], ◌∷◌, ◌++◌, Option, none, some, arith, if◌then◌else◌,
}
use wind_cloud_v.Shared.Int.{ℤ, eqb_ℤ, pos}
use wind_cloud_v.Shared.Text.{Bytes}
use wind_cloud_v.Vfs.{
  Backend, Db, PathRow, tick, is_literal, delete_rows, insert_node, path_ids, dao_create_node,
  dao_create_file_node,
}
use wind_cloud_v.FileTable.{
  dao_file_find_by_sha256, dao_file_insert, dao_file_add_ref_count, dao_file_sub_ref_count,
  dao_file_get_ref_count, dao_file_delete, dao_file_get_info_by_id,
  dao_file_source_delete_by_file_id,
}
use wind_cloud_v.Vfs.Entities.{
  ClientContext, unlink_stored, reclaim_file, release_counted, release_file_entity_if_unused,
  empty_file_sha256, ensure_empty_store_file_exists, link_file, link_new_file, link_found,
  use_inserted, insert_empty_file, link_or_insert, create_empty_file_node,
}

-- The rows of one user.
unfoldable pub rows_of : ℤ → List PathRow → List PathRow
rows_of user [] = []
rows_of user (row ∷ rows) =
    if eqb_ℤ row.user_id user then row ∷ rows_of user rows else rows_of user rows

rows_of-append :
    (user : ℤ) (rows : List PathRow) (row : PathRow)
    → eqb_ℤ row.user_id user ≡ false
    → rows_of user (rows ++ (row ∷ [])) ≡ rows_of user rows
unfolding rows_of
rows_of-append user [] row h = ground arith
rows_of-append user (r ∷ rows) row h = ground (arith, rows_of-append user rows row h)

pub rows_of-delete_rows :
    (user other : ℤ) (node : ℕ) (rows : List PathRow)
    → eqb_ℤ user other ≡ false
    → rows_of other (delete_rows user node rows) ≡ rows_of other rows
unfolding rows_of delete_rows
rows_of-delete_rows user other node [] h = refl
rows_of-delete_rows user other node (r ∷ rows) h =
    ground (arith, rows_of-delete_rows user other node rows h)

reclaim_file-paths :
    (b : Backend) (file : ℕ) (hash : Bytes) (db : Db)
    → (reclaim_file b file hash db).1.paths ≡ db.paths
unfolding reclaim_file unlink_stored dao_file_source_delete_by_file_id dao_file_delete
reclaim_file-paths b file hash db = ground arith

release_counted-paths :
    (b : Backend) (file : ℕ) (hash : Bytes) (db : Db)
    → (release_counted b file hash db).1.paths ≡ db.paths
unfolding release_counted dao_file_get_ref_count
release_counted-paths b file hash db = ground (arith, reclaim_file-paths b file hash (tick db))

pub release-paths :
    (b : Backend) (file : ℕ) (db : Db)
    → (release_file_entity_if_unused b file db).1.paths ≡ db.paths
unfolding release_file_entity_if_unused dao_file_get_info_by_id dao_file_sub_ref_count
release-paths b file db = ground (arith, release_counted-paths b file)

-- A command of another user, with texts that print as plain literals.
module _ (b : Backend) (other : ℤ) (ctx : ClientContext) (target name : Bytes)
    (h : eqb_ℤ ctx.user_id other ≡ false) (path_ok : is_literal 255 target ≡ true)
    (name_ok : is_literal 30 name ≡ true) where
  pub dao_create_node-rows_of :
      (parent type : ℕ) (db : Db)
      → rows_of other (dao_create_node b ctx.user_id target parent name type db).1.paths
        ≡ rows_of other db.paths
  unfolding dao_create_node insert_node
  dao_create_node-rows_of parent type db =
      let row : PathRow = record {
        id = b.next_id db.calls (path_ids db.paths);
        user_id = ctx.user_id;
        path = target;
        file_id = none;
        parent_id = parent;
        file_name = name;
        node_type = type;
      } in
      ground (arith, rows_of-append other db.paths row h, path_ok, name_ok)

  dao_create_file_node-rows_of :
      (parent file : ℕ) (db : Db)
      → rows_of other (dao_create_file_node b ctx.user_id target parent name file db).1.paths
        ≡ rows_of other db.paths
  unfolding dao_create_file_node insert_node
  dao_create_file_node-rows_of parent file db =
      let row : PathRow = record {
        id = b.next_id db.calls (path_ids db.paths);
        user_id = ctx.user_id;
        path = target;
        file_id = some file;
        parent_id = parent;
        file_name = name;
        node_type = 0;
      } in
      ground (arith, rows_of-append other db.paths row h, path_ok, name_ok)

  link_file-rows_of :
      (file : ℕ) (db : Db)
      → rows_of other (link_file b ctx target name file db).1.paths ≡ rows_of other db.paths
  unfolding link_file dao_file_add_ref_count
  link_file-rows_of file db =
      ground (arith, dao_create_file_node-rows_of ctx.current_dir_id file db)

  link_new_file-rows_of :
      (file : ℕ) (db : Db)
      → rows_of other (link_new_file b ctx target name file db).1.paths ≡ rows_of other db.paths
  unfolding link_new_file dao_file_delete
  link_new_file-rows_of file db =
      ground (arith, dao_create_file_node-rows_of ctx.current_dir_id file db)

  dao_file_insert-paths :
      (hash : Bytes) (size : ℤ) (db : Db) → (dao_file_insert b hash size db).1.paths ≡ db.paths
  unfolding dao_file_insert dao_file_find_by_sha256
  dao_file_insert-paths hash size db = ground arith

  dao_file_find-paths :
      (hash : Bytes) (db : Db) → (dao_file_find_by_sha256 b hash db).1.paths ≡ db.paths
  unfolding dao_file_find_by_sha256
  dao_file_find-paths hash db = refl

  link_found-rows_of :
      (r : Option (ℕ × ℤ) × Db)
      → rows_of other (link_found b ctx target name r).1.paths ≡ rows_of other r.1.paths
  unfolding link_found
  link_found-rows_of (some (file, _), db) = link_file-rows_of file db
  link_found-rows_of (none, db) = refl

  use_inserted-rows_of :
      (r : Option ℕ × Db)
      → rows_of other (use_inserted b ctx target name r).1.paths ≡ rows_of other r.1.paths
  unfolding use_inserted
  use_inserted-rows_of (some file, db) = link_new_file-rows_of file db
  use_inserted-rows_of (none, db) =
      link_found-rows_of (dao_file_find_by_sha256 b empty_file_sha256 db)
      ∙ ap (rows_of other) (dao_file_find-paths empty_file_sha256 db)

  insert_empty_file-rows_of :
      (db : Db)
      → rows_of other (insert_empty_file b ctx target name db).1.paths ≡ rows_of other db.paths
  unfolding insert_empty_file
  insert_empty_file-rows_of db =
      use_inserted-rows_of (dao_file_insert b empty_file_sha256 (pos 0) db)
      ∙ ap (rows_of other) (dao_file_insert-paths empty_file_sha256 (pos 0) db)

  link_or_insert-rows_of :
      (r : Option (ℕ × ℤ) × Db)
      → rows_of other (link_or_insert b ctx target name r).1.paths ≡ rows_of other r.1.paths
  unfolding link_or_insert
  link_or_insert-rows_of (some (file, _), db) = link_file-rows_of file db
  link_or_insert-rows_of (none, db) = insert_empty_file-rows_of db

  pub create_empty_file_node-rows_of :
      (db : Db)
      → rows_of other (create_empty_file_node b ctx target name db).1.paths ≡ rows_of other db.paths
  unfolding create_empty_file_node ensure_empty_store_file_exists
  create_empty_file_node-rows_of db =
      let e = ensure_empty_store_file_exists b db in
      ground (
        arith,
        link_or_insert-rows_of (dao_file_find_by_sha256 b empty_file_sha256 e.1),
        dao_file_find-paths empty_file_sha256 e.1,
      )
