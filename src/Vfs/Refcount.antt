-- ===== src/Vfs/Refcount.antt =====
-- Reference counts and the release of a stored file.
use wind_cloud_v.Shared.{
  ℕ, ◌+◌, ◌≡◌, inl, inr, false, Option, none, some, arith, ltb, ◌==◌, if◌then◌else◌, Option-cases,
}
use wind_cloud_v.Shared.Text.{Bytes}
use wind_cloud_v.Vfs.{Backend, Db, PathRow, tick, find_node, delete_rows, dao_delete_node}
use wind_cloud_v.FileTable.{
  find_file, sub_count, delete_file, dao_file_sub_ref_count, dao_file_get_ref_count,
  dao_file_delete, dao_file_get_info_by_id, dao_file_source_delete_by_file_id,
}
use wind_cloud_v.FileTable.Laws.{recorded, recorded-sub_count, recorded-delete_file}
use wind_cloud_v.Vfs.Entities.{
  ClientContext, unlink_stored, reclaim_file, release_counted, release_file_entity_if_unused,
}
use wind_cloud_v.Vfs.Isolation.{release-paths}
use wind_cloud_v.Vfs.Commands.{delete_file_node}
use wind_cloud_v.Vfs.Counts.{
  IsWellKept, IsWellKept-delete_rows, points, references, references-delete_rows,
}

-- No row for a file with no reference.
unfoldable pub expected : ℕ → Option ℕ
expected n = if n == 0 then none else some n

abbrev pub IsCounted : Db → Type 0
IsCounted db = (i : ℕ) → recorded i db.files ≡ expected (references i db.paths)

pub record IsTidy (db : Db) : Type 0 where
  pub counted : IsCounted db
  pub kept : IsWellKept db.paths

module _ (b : Backend) (works : (k : ℕ) → b.fails k ≡ false) where
  reclaim_file-files :
      (file : ℕ) (hash : Bytes) (db : Db)
      → (reclaim_file b file hash db).1.files ≡ delete_file file db.files
  unfolding reclaim_file unlink_stored dao_file_source_delete_by_file_id dao_file_delete
  reclaim_file-files file hash db =
      ground (arith, works db.calls, works (db.calls + 1), works (db.calls + 1 + 1))

  release_counted-files :
      (file : ℕ) (hash : Bytes) (db : Db)
      → (release_counted b file hash db).1.files ≡ elim (recorded file db.files) [
        | none ↦ db.files
        | some n ↦ if ltb 0 n then db.files else delete_file file db.files
      ]
  unfolding release_counted dao_file_get_ref_count recorded
  release_counted-files file hash db =
      ground (arith, works db.calls, reclaim_file-files file hash (tick db))

  release-files :
      (file : ℕ) (db : Db)
      → (release_file_entity_if_unused b file db).1.files ≡ elim (recorded file db.files) [
        | none ↦ db.files
        | some n ↦
            if ltb 1 n then sub_count file db.files else delete_file file (sub_count file db.files)
      ]
  unfolding release_file_entity_if_unused dao_file_get_info_by_id dao_file_sub_ref_count recorded
  release-files file db = elim (Option-cases (find_file file db.files)) [
    | inl e ↦ ground (arith, works db.calls)
    | inr (row, e) ↦ ground (
      arith,
      works db.calls,
      works (db.calls + 1),
      recorded-sub_count file file db.files,
      release_counted-files file row.sha256sum
          (record (tick (tick db)) { files = sub_count file db.files }),
    )
  ]

  -- After the deletion of a node of `file`.
  release-IsCounted :
      (file : ℕ) (db : Db)
      → ((i : ℕ)
          → recorded i db.files ≡ expected (references i db.paths + (if file == i then 1 else 0)))
      → IsCounted (release_file_entity_if_unused b file db).1
  unfolding expected
  release-IsCounted file db h i =
      rw (release-files file db, release-paths b file db)
        (ground (
          arith,
          h file,
          h i,
          recorded-sub_count file i db.files,
          recorded-delete_file file i (sub_count file db.files),
        ))

  -- Deleting the file node that a path finds, with the record if no other node refers to it.
  pub delete_file_node-IsTidy :
      (ctx : ClientContext) (target : Bytes) (file : ℕ) (db : Db) (row : PathRow)
      → IsTidy db
      → find_node b ctx.user_id target db.paths ≡ some row
      → row.file_id ≡ some file
      → IsTidy (delete_file_node b ctx row.id file db).1
  unfolding delete_file_node dao_delete_node points expected
  delete_file_node-IsTidy ctx target file db row t e f =
      let db' : Db = record (tick db) { paths = delete_rows ctx.user_id row.id db.paths } in
      let counted = release-IsCounted file db' (λ i. ground (
        arith,
        t.counted i,
        pointed i,
        references-delete_rows b ctx.user_id target i db.paths e (t.kept.keyed row.id),
      )) in
      rw (works db.calls) (record {
        counted = counted;
        kept = rw (release-paths b file db') (IsWellKept-delete_rows ctx.user_id row.id t.kept);
      })
    where
      pointed : (i : ℕ) → points i row ≡ (if file == i then 1 else 0)
      pointed i = ground arith
