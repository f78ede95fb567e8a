-- ===== src/Upload/Links.antt =====
-- finish_upload_db_work: what it leaves alone, and the reference counts.
use wind_cloud_v.Shared.{ℕ, ◌≡◌, refl, ◌∙◌, Bool, true, false, Option, none, some, arith}
use wind_cloud_v.Shared.Int.{ℤ}
use wind_cloud_v.Shared.Text.{Bytes}
use wind_cloud_v.Identity.{Config}
use wind_cloud_v.Vfs.{Backend, Db, dao_create_file_node, insert_node, dao_get_node_by_path}
use wind_cloud_v.Vfs.Entities.{ClientContext}
use wind_cloud_v.FileTable.{
  dao_file_find_by_sha256, dao_file_insert, dao_file_add_ref_count, dao_file_source_upsert,
}
use wind_cloud_v.Upload.{
  create_user_file_link, add_own_source, link_recorded, link_uploaded, finish_upload_db_work,
  check_store_file_ready,
}

module _ (b : Backend) (config : Config) (ctx : ClientContext) (full_path name : Bytes) where
  pub create_user_file_link-store :
      (file : ℕ) (need_add_ref : Bool) (db : Db)
      → (create_user_file_link b ctx full_path name file need_add_ref db).1.store ≡ db.store
  unfolding create_user_file_link dao_create_file_node insert_node dao_file_add_ref_count
  create_user_file_link-store file need_add_ref db = ground arith

  add_own_source-store :
      (file : ℕ) (r : Bool × Db) → (add_own_source b config file r).1.store ≡ r.1.store
  unfolding add_own_source dao_file_source_upsert
  add_own_source-store file (true, db) = ground arith
  add_own_source-store file (false, db) = refl

  link_recorded-store :
      (r : Option (ℕ × ℤ) × Db) → (link_recorded b config ctx full_path name r).1.store ≡ r.1.store
  unfolding link_recorded
  link_recorded-store (none, db) = refl
  link_recorded-store (some (file, _), db) =
      add_own_source-store file (create_user_file_link b ctx full_path name file true db)
      ∙ create_user_file_link-store file true db

  dao_file_insert-store :
      (hash : Bytes) (size : ℤ) (db : Db) → (dao_file_insert b hash size db).1.store ≡ db.store
  unfolding dao_file_insert dao_file_find_by_sha256
  dao_file_insert-store hash size db = ground arith

  link_uploaded-store :
      (hash : Bytes) (r : Option ℕ × Db)
      → (link_uploaded b config ctx full_path name hash r).1.store ≡ r.1.store
  unfolding link_uploaded dao_file_find_by_sha256
  link_uploaded-store hash (some file, db) =
      add_own_source-store file (create_user_file_link b ctx full_path name file false db)
      ∙ create_user_file_link-store file false db
  link_uploaded-store hash (none, db) = link_recorded-store (dao_file_find_by_sha256 b hash db)

  pub finish_upload_db_work-store :
      (hash : Bytes) (size : ℤ) (db : Db)
      → (finish_upload_db_work b config ctx full_path name hash size db).1.store ≡ db.store
  unfolding finish_upload_db_work
  finish_upload_db_work-store hash size db =
      link_uploaded-store hash (dao_file_insert b hash size db) ∙ dao_file_insert-store hash size db

module _ (b : Backend) where
  pub check_store_file_ready-store :
      (hash : Bytes) (expected : ℤ) (db : Db)
      → (check_store_file_ready b hash expected db).2.store ≡ db.store
  unfolding check_store_file_ready
  check_store_file_ready-store hash expected db = ground arith

  pub dao_get_node_by_path-store :
      (user : ℤ) (path : Bytes) (db : Db) → (dao_get_node_by_path b user path db).1.store ≡ db.store
  unfolding dao_get_node_by_path
  dao_get_node_by_path-store user path db = ground arith

  pub dao_get_node_by_path-files :
      (user : ℤ) (path : Bytes) (db : Db) → (dao_get_node_by_path b user path db).1.files ≡ db.files
  unfolding dao_get_node_by_path
  dao_get_node_by_path-files user path db = ground arith
