-- ===== src/Upload/Finish.antt =====
-- finish_upload_db_work for a new file on a free path: the path then stands for the stored content.
use wind_cloud_v.Shared.{
  ℕ, ◌<◌, ◌≡◌, refl, ap, ◌∙◌, true, false, List, [], ◌∷◌, ◌++◌, none, some, arith, ◌==◌,
}
use wind_cloud_v.Shared.Int.{ℤ}
use wind_cloud_v.Shared.Text.{Bytes, is_empty}
use wind_cloud_v.Identity.{Config, get_current_server_address}
use wind_cloud_v.Vfs.{Backend, Db, FileRow, tick, has_id, is_literal, is_hash, is_node, find_node}
use wind_cloud_v.Vfs.Entities.{ClientContext}
use wind_cloud_v.Vfs.Creation.{find_node-append}
use wind_cloud_v.Vfs.Tidy.{new_file, with_new_file, dao_file_insert-new}
use wind_cloud_v.FileTable.{find_hash, find_file, dao_file_source_upsert, upsert_source}
use wind_cloud_v.FileTable.Laws.{file_ids}
use wind_cloud_v.Upload.{
  create_user_file_link, add_own_source, link_uploaded, finish_upload_db_work,
}
use wind_cloud_v.Upload.Tidy.{new_node, dao_create_file_node-free}
use wind_cloud_v.Download.Whole.{IsAt}

find_file-append :
    (rows : List FileRow) (row : FileRow)
    → has_id row.id (file_ids rows) ≡ false
    → find_file row.id (rows ++ (row ∷ [])) ≡ some row
unfolding find_file has_id
find_file-append [] row h = ground arith
find_file-append (r ∷ rows) row h = ground (arith, find_file-append rows row)

module _ (b : Backend) (works : (k : ℕ) → b.fails k ≡ false) (config : Config) (ip port : Bytes)
    (address : get_current_server_address config ≡ some (ip, port)) (has_ip : is_empty ip ≡ false)
    (has_port : is_empty port ≡ false) where
  add_own_source-eq :
      (file : ℕ) (db : Db)
      → 0 < file
      → add_own_source b config file (true, db)
        ≡ (true, record (tick db) { file_sources = upsert_source file ip port db.file_sources })
  unfolding add_own_source dao_file_source_upsert
  add_own_source-eq file db p =
      let there : (file == 0) ≡ false = ground arith in
      rw (add_own_source, address, there, has_ip, has_port, works db.calls) refl

  module _ (ctx : ClientContext) (target name : Bytes) (path_ok : is_literal 255 target ≡ true)
      (name_ok : is_literal 30 name ≡ true) (hash : Bytes) (valid : is_hash hash ≡ true) (size : ℤ)
      (db : Db) (free : find_node b ctx.user_id target db.paths ≡ none)
      (unknown : find_hash hash db.files ≡ none) where
    recorded_file : FileRow
    recorded_file = new_file b hash size db

    linked_db : Db
    linked_db = record (tick (with_new_file b hash size db)) {
      paths =
          db.paths
          ++ (new_node b ctx target name recorded_file.id (with_new_file b hash size db) ∷ []);
    }

    create_user_file_link-made :
        create_user_file_link b ctx target name recorded_file.id false
          (with_new_file b hash size db)
        ≡ (true, linked_db)
    unfolding create_user_file_link linked_db with_new_file
    create_user_file_link-made =
        rw
          (
            create_user_file_link,
            dao_create_file_node-free b works ctx target name path_ok name_ok recorded_file.id
                (with_new_file b hash size db) free,
          )
          refl

    pub finished_db : Db
    finished_db = record (tick linked_db) {
      file_sources = upsert_source recorded_file.id ip port linked_db.file_sources;
    }

    pub finish_upload_db_work-eq :
        finish_upload_db_work b config ctx target name hash size db ≡ (true, finished_db)
    unfolding finish_upload_db_work link_uploaded recorded_file finished_db new_file
    finish_upload_db_work-eq =
        ap (link_uploaded b config ctx target name hash)
          (dao_file_insert-new b works hash valid size db unknown)
        ∙ ap (add_own_source b config recorded_file.id) create_user_file_link-made
        ∙ add_own_source-eq recorded_file.id linked_db
            (b.next_id-positive db.calls (file_ids db.files))

    pub finished-IsAt :
        (f : Bytes) → db.store hash ≡ some f → IsAt b ctx.user_id target finished_db f
    unfolding finished_db linked_db with_new_file recorded_file new_file new_node is_node
    finished-IsAt f stored = record {
      row = new_node b ctx target name recorded_file.id (with_new_file b hash size db);
      file = recorded_file.id;
      entity = recorded_file;
      found =
          find_node-append b ctx.user_id target db.paths
            (new_node b ctx target name recorded_file.id (with_new_file b hash size db)) free
            (ground (arith, b.collates-refl target));
      refers = refl;
      recorded =
          find_file-append db.files recorded_file (b.next_id-fresh db.calls (file_ids db.files));
      stored = stored;
    }
