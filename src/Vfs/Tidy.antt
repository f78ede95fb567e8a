-- ===== src/Vfs/Tidy.antt =====
-- New nodes, and the shared empty file of touch, on the tidy tables of Vfs.Refcount.
use wind_cloud_v.Shared.{
  ℕ, ◌+◌, ◌<◌, ◌≡◌, refl, ap, ◌∙◌, ◌⊎◌, inl, inr, true, false, [], ◌∷◌, ◌++◌, Option, none, some,
  arith, ◌==◌, if◌then◌else◌, Bool-cases, Option-cases,
}
use wind_cloud_v.Shared.Int.{ℤ, pos}
use wind_cloud_v.Shared.Text.{Bytes}
use wind_cloud_v.Vfs.{
  Backend, Db, PathRow, FileRow, tick, find_node, insert_node, path_ids, is_literal,
  dao_create_node, dao_create_file_node, is_hash, all_hex,
}
use wind_cloud_v.FileTable.{
  insert_file, select_file, find_hash, dao_file_find_by_sha256, dao_file_insert,
  dao_file_add_ref_count, dao_file_delete,
}
use wind_cloud_v.FileTable.Laws.{
  recorded, recorded-add_count, recorded-delete_file, recorded_fresh, recorded-append,
  recorded-find_hash, find_hash-append, file_ids,
}
use wind_cloud_v.Vfs.Entities.{
  ClientContext, empty_file_sha256, link_file, link_new_file, link_found, use_inserted,
  insert_empty_file, link_or_insert, create_name, ensure_empty_store_file_exists,
  create_empty_file_node,
}
use wind_cloud_v.Vfs.Counts.{
  points, references, references-append, IsWellKept, IsWellKept-append, is_shaped,
}
use wind_cloud_v.Vfs.Refcount.{IsTidy, expected}

insert_node-cases :
    (b : Backend) (row : PathRow) (db : Db)
    → is_literal 255 row.path ≡ true
    → is_literal 30 row.file_name ≡ true
    → (insert_node b row db ≡ (false, tick db))
      ⊎ (insert_node b row db ≡ (true, record (tick db) { paths = db.paths ++ (row ∷ []) }))
unfolding insert_node
insert_node-cases b row db p n = elim (Bool-cases (b.fails db.calls)) [
  | inl f ↦ inl (ground arith)
  | inr w ↦ elim (Option-cases (find_node b row.user_id row.path db.paths)) [
    | inl e ↦ inr (ground arith)
    | inr (r, e) ↦ inl (ground arith)
  ]
]

expected-some : (n m : ℕ) → some m ≡ expected n → (0 < n) × (m ≡ n)
unfolding expected
expected-some n m e = ground arith

-- The record of a file that is new.
module _ (b : Backend) where
  unfoldable pub new_file : Bytes → ℤ → Db → FileRow
  new_file hash size db = record {
    id = b.next_id db.calls (file_ids db.files);
    sha256sum = hash;
    size = size;
    count = 1;
  }

  unfoldable pub with_new_file : Bytes → ℤ → Db → Db
  unfolding new_file
  with_new_file hash size db = record (tick (tick db)) {
    files = db.files ++ (new_file hash size db ∷ []);
  }

empty_is_hash : is_hash empty_file_sha256 ≡ true
unfolding is_hash all_hex
empty_is_hash = refl

module _ (b : Backend) (works : (k : ℕ) → b.fails k ≡ false) (hash : Bytes)
    (valid : is_hash hash ≡ true) where
  pub dao_file_insert-new :
      (size : ℤ) (db : Db)
      → find_hash hash db.files ≡ none
      → dao_file_insert b hash size db
        ≡ (some (new_file b hash size db).id, with_new_file b hash size db)
  unfolding dao_file_insert insert_file select_file dao_file_find_by_sha256 with_new_file new_file
  dao_file_insert-new size db e =
      rw
        (
          works db.calls,
          valid,
          e,
          works (db.calls + 1),
          find_hash-append hash db.files (new_file b hash size db) refl e,
        )
        refl

  pub dao_file_insert-old :
      (size : ℤ) (db : Db) (row : FileRow)
      → find_hash hash db.files ≡ some row
      → dao_file_insert b hash size db ≡ (none, tick db)
  unfolding dao_file_insert insert_file
  dao_file_insert-old size db row e = rw (works db.calls, valid, e) refl

  pub dao_file_find-eq :
      (db : Db) {o : Option FileRow}
      → find_hash hash db.files ≡ o
      → dao_file_find_by_sha256 b hash db
        ≡ (elim o [ none ↦ none | some row ↦ some (row.id, row.size) ], tick db)
  unfolding dao_file_find_by_sha256 select_file
  dao_file_find-eq db e = rw (works db.calls, valid, e) refl

module _ (b : Backend) (works : (k : ℕ) → b.fails k ≡ false) (ctx : ClientContext)
    (target name : Bytes) (path_ok : is_literal 255 target ≡ true)
    (name_ok : is_literal 30 name ≡ true) where
  new_row : ℕ → Option ℕ → ℕ → Db → PathRow
  new_row parent file type db = record {
    id = b.next_id db.calls (path_ids db.paths);
    user_id = ctx.user_id;
    path = target;
    file_id = file;
    parent_id = parent;
    file_name = name;
    node_type = type;
  }

  new_row-IsWellKept :
      (parent : ℕ) (file : Option ℕ) (type : ℕ) (db : Db)
      → is_shaped (new_row parent file type db) ≡ true
      → IsWellKept db.paths
      → IsWellKept (db.paths ++ (new_row parent file type db ∷ []))
  unfolding new_row
  new_row-IsWellKept parent file type db s k =
      IsWellKept-append (new_row parent file type db) k
        (b.next_id-fresh db.calls (path_ids db.paths))
        (b.next_id-positive db.calls (path_ids db.paths)) s

  pub dao_create_node-IsTidy :
      (db : Db)
      → IsTidy db
      → IsTidy (dao_create_node b ctx.user_id target ctx.current_dir_id name 1 db).1
  unfolding dao_create_node new_row is_shaped points
  dao_create_node-IsTidy db t =
      let row = new_row ctx.current_dir_id none 1 db in
      elim (insert_node-cases b row db path_ok name_ok) [
        | inl e ↦ rw e (record { counted = t.counted; kept = t.kept })
        | inr e ↦ rw e (record {
          counted =
              λ i. t.counted i ∙ ap expected (omega (arith, references-append i db.paths row));
          kept = new_row-IsWellKept ctx.current_dir_id none 1 db refl t.kept;
        })
      ]

  pub link_file-IsTidy :
      (file n : ℕ) (db : Db)
      → recorded file db.files ≡ some n
      → IsTidy db
      → IsTidy (link_file b ctx target name file db).1
  unfolding link_file dao_create_file_node dao_file_add_ref_count new_row is_shaped points expected
  link_file-IsTidy file n db f t =
      let row = new_row ctx.current_dir_id (some file) 0 db in
      elim (insert_node-cases b row db path_ok name_ok) [
        | inl e ↦ rw e (record { counted = t.counted; kept = t.kept })
        | inr e ↦
            rw (e, works (db.calls + 1))
              (record {
                counted = λ i. ground (
                  arith,
                  f,
                  t.counted i,
                  recorded-add_count file i db.files,
                  references-append i db.paths row,
                );
                kept = new_row-IsWellKept ctx.current_dir_id (some file) 0 db refl t.kept;
              })
      ]

  -- A record made just now with count 1, whose node is yet to come.
  pub link_new_file-IsTidy :
      (file : ℕ) (db : Db)
      → ((i : ℕ)
          → recorded i db.files ≡ expected (references i db.paths + (if file == i then 1 else 0)))
      → references file db.paths ≡ 0
      → IsWellKept db.paths
      → IsTidy (link_new_file b ctx target name file db).1
  unfolding link_new_file dao_create_file_node dao_file_delete new_row is_shaped points expected
  link_new_file-IsTidy file db h z k =
      let row = new_row ctx.current_dir_id (some file) 0 db in
      elim (insert_node-cases b row db path_ok name_ok) [
        | inl e ↦
            rw (e, works (db.calls + 1))
              (record {
                counted = λ i. ground (arith, z, h i, recorded-delete_file file i db.files);
                kept = k;
              })
        | inr e ↦ rw e (record {
          counted = λ i. ground (arith, h i, references-append i db.paths row);
          kept = new_row-IsWellKept ctx.current_dir_id (some file) 0 db refl k;
        })
      ]

  pub link_row-IsTidy :
      (hash : Bytes) (db : Db) {row : FileRow}
      → find_hash hash db.files ≡ some row
      → IsTidy db
      → IsTidy (link_file b ctx target name row.id db).1
  link_row-IsTidy hash db {row} e t =
      let (n, r) = recorded-find_hash hash db.files e in link_file-IsTidy row.id n db r t

  insert_empty_file-IsTidy :
      (db : Db) → IsTidy db → IsTidy (insert_empty_file b ctx target name db).1
  unfolding insert_empty_file use_inserted link_found with_new_file new_file expected
  insert_empty_file-IsTidy db t = elim (Option-cases (find_hash empty_file_sha256 db.files)) [
    | inl e ↦
        let file = b.next_id db.calls (file_ids db.files) in
        let absent = recorded_fresh file db.files (b.next_id-fresh db.calls (file_ids db.files)) in
        let unused : references file db.paths ≡ 0 = ground (arith, absent, t.counted file) in
        rw (dao_file_insert-new b works empty_file_sha256 empty_is_hash (pos 0) db e) (
          link_new_file-IsTidy file (with_new_file b empty_file_sha256 (pos 0) db)
            (λ i. ground (
              arith,
              unused,
              t.counted i,
              recorded-append i db.files (new_file b empty_file_sha256 (pos 0) db) absent,
            ))
            unused t.kept)
    | inr (row, e) ↦
        rw
          (
            dao_file_insert-old b works empty_file_sha256 empty_is_hash (pos 0) db row e,
            dao_file_find-eq b works empty_file_sha256 empty_is_hash (tick db) e,
          )
          (link_row-IsTidy empty_file_sha256 (tick (tick db)) e
            (record { counted = t.counted; kept = t.kept }))
  ]

  link_or_insert-IsTidy :
      (db : Db)
      → IsTidy db
      → IsTidy (link_or_insert b ctx target name (dao_file_find_by_sha256 b empty_file_sha256 db)).1
  unfolding link_or_insert
  link_or_insert-IsTidy db t = elim (Option-cases (find_hash empty_file_sha256 db.files)) [
    | inl e ↦
        rw (dao_file_find-eq b works empty_file_sha256 empty_is_hash db e)
          (insert_empty_file-IsTidy (tick db) (record { counted = t.counted; kept = t.kept }))
    | inr (row, e) ↦ rw (dao_file_find-eq b works empty_file_sha256 empty_is_hash db e) (
        link_row-IsTidy empty_file_sha256 (tick db) e
          (record { counted = t.counted; kept = t.kept }))
  ]

  ensure_empty-eq :
      (db : Db)
      → ensure_empty_store_file_exists b db
        ≡ (true, record (tick db) { store = create_name empty_file_sha256 db.store })
  unfolding ensure_empty_store_file_exists
  ensure_empty-eq db = rw (works db.calls) refl

  pub create_empty_file_node-IsTidy :
      (db : Db) → IsTidy db → IsTidy (create_empty_file_node b ctx target name db).1
  unfolding create_empty_file_node
  create_empty_file_node-IsTidy db t = rw (ensure_empty-eq db) (
      link_or_insert-IsTidy (record (tick db) { store = create_name empty_file_sha256 db.store })
        (record { counted = t.counted; kept = t.kept }))
