-- ===== src/Upload/Tidy.antt =====
-- handle_puts on the tidy tables of Vfs.Refcount.
use wind_cloud_v.Shared.{
  ℕ, ◌≡◌, refl, inl, inr, true, false, Bool, [], ◌∷◌, ◌++◌, none, some, arith, Option-cases,
}
use wind_cloud_v.Shared.Int.{ℤ}
use wind_cloud_v.Shared.Text.{Bytes}
use wind_cloud_v.Identity.{Config}
use wind_cloud_v.Vfs.{
  Backend, Db, PathRow, tick, is_literal, is_hash, find_node, insert_node, dao_create_file_node,
  path_ids,
}
use wind_cloud_v.Vfs.Entities.{ClientContext, link_file, link_new_file}
use wind_cloud_v.Vfs.Counts.{references}
use wind_cloud_v.Vfs.Refcount.{IsTidy, expected}
use wind_cloud_v.Vfs.Tidy.{
  new_file, with_new_file, dao_file_insert-new, dao_file_insert-old, dao_file_find-eq,
  link_row-IsTidy, link_new_file-IsTidy,
}
use wind_cloud_v.FileTable.{find_hash, dao_file_source_upsert}
use wind_cloud_v.FileTable.Laws.{file_ids, recorded_fresh, recorded-append}
use wind_cloud_v.Upload.{
  create_user_file_link, add_own_source, link_recorded, link_uploaded, finish_upload_db_work,
}

pub same-IsTidy :
    {db db' : Db} → db'.paths ≡ db.paths → db'.files ≡ db.files → IsTidy db → IsTidy db'
same-IsTidy p f t = record { counted = λ i. rw (p, f) (t.counted i); kept = rw p t.kept }

module _ (b : Backend) (config : Config) (file : ℕ) where
  add_own_source-paths : (r : Bool × Db) → (add_own_source b config file r).1.paths ≡ r.1.paths
  unfolding add_own_source dao_file_source_upsert
  add_own_source-paths (true, db) = ground arith
  add_own_source-paths (false, db) = refl

  add_own_source-files : (r : Bool × Db) → (add_own_source b config file r).1.files ≡ r.1.files
  unfolding add_own_source dao_file_source_upsert
  add_own_source-files (true, db) = ground arith
  add_own_source-files (false, db) = refl

  add_own_source-IsTidy : (r : Bool × Db) → IsTidy r.1 → IsTidy (add_own_source b config file r).1
  add_own_source-IsTidy r t = same-IsTidy (add_own_source-paths r) (add_own_source-files r) t

-- A node on a free path.
unfoldable pub new_node : Backend → ClientContext → Bytes → Bytes → ℕ → Db → PathRow
new_node b ctx target name file db = record {
  id = b.next_id db.calls (path_ids db.paths);
  user_id = ctx.user_id;
  path = target;
  file_id = some file;
  parent_id = ctx.current_dir_id;
  file_name = name;
  node_type = 0;
}

module _ (b : Backend) (works : (k : ℕ) → b.fails k ≡ false) (ctx : ClientContext)
    (target name : Bytes) (path_ok : is_literal 255 target ≡ true)
    (name_ok : is_literal 30 name ≡ true) where
  pub dao_create_file_node-free :
      (file : ℕ) (db : Db)
      → find_node b ctx.user_id target db.paths ≡ none
      → dao_create_file_node b ctx.user_id target ctx.current_dir_id name file db
        ≡ (true, record (tick db) { paths = db.paths ++ (new_node b ctx target name file db ∷ []) })
  unfolding dao_create_file_node insert_node new_node
  dao_create_file_node-free file db free = rw (works db.calls, path_ok, name_ok, free) refl

  pub create_user_file_link-counted :
      (file : ℕ) (db : Db)
      → create_user_file_link b ctx target name file true db ≡ link_file b ctx target name file db
  unfolding create_user_file_link link_file
  create_user_file_link-counted file db = ground arith

  create_user_file_link-new :
      (file : ℕ) (db : Db)
      → find_node b ctx.user_id target db.paths ≡ none
      → create_user_file_link b ctx target name file false db
        ≡ link_new_file b ctx target name file db
  unfolding create_user_file_link link_new_file
  create_user_file_link-new file db free = rw (dao_create_file_node-free file db free) refl

  module _ (config : Config) (hash : Bytes) (valid : is_hash hash ≡ true) (size : ℤ) where
    pub finish_upload_db_work-IsTidy :
        (db : Db)
        → find_node b ctx.user_id target db.paths ≡ none
        → IsTidy db
        → IsTidy (finish_upload_db_work b config ctx target name hash size db).1
    unfolding finish_upload_db_work link_uploaded link_recorded with_new_file new_file expected
    finish_upload_db_work-IsTidy db free t = elim (Option-cases (find_hash hash db.files)) [
      | inl e ↦
          let file = b.next_id db.calls (file_ids db.files) in
          let absent =
            recorded_fresh file db.files (b.next_id-fresh db.calls (file_ids db.files)) in
          let unused : references file db.paths ≡ 0 = ground (arith, absent, t.counted file) in
          rw
            (
              dao_file_insert-new b works hash valid size db e,
              create_user_file_link-new file (with_new_file b hash size db) free,
            )
            (add_own_source-IsTidy b config file
              (link_new_file b ctx target name file (with_new_file b hash size db))
              (link_new_file-IsTidy b works ctx target name path_ok name_ok file
                (with_new_file b hash size db)
                (λ i. ground (
                  arith,
                  unused,
                  t.counted i,
                  recorded-append i db.files (new_file b hash size db) absent,
                ))
                unused t.kept))
      | inr (row, e) ↦
          rw
            (
              dao_file_insert-old b works hash valid size db row e,
              dao_file_find-eq b works hash valid (tick db) e,
              create_user_file_link-counted row.id (tick (tick db)),
            )
            (add_own_source-IsTidy b config row.id
              (link_file b ctx target name row.id (tick (tick db)))
              (link_row-IsTidy b works ctx target name path_ok name_ok hash (tick (tick db)) e
                (record { counted = t.counted; kept = t.kept })))
    ]
