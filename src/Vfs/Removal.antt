-- ===== src/Vfs/Removal.antt =====
-- What rmdir and rm remove, whichever of the server's calls fail.
use wind_cloud_v.Shared.{
  ℕ, ◌+◌, ◌≤◌, ◌≡◌, refl, ◌⊎◌, inl, inr, ◌||◌, List, [], ◌∷◌, Option, none, some, arith, ◌==◌,
  Bool-cases, Option-cases,
}
use wind_cloud_v.Shared.Int.{ℤ}
use wind_cloud_v.Shared.Text.{Bytes}
use wind_cloud_v.Shared.Text.{str_eq}
use mathlib.Core.Path.{subst}
use wind_cloud_v.VirtualPath.{root, build_abs_path}
use wind_cloud_v.Vfs.{
  Backend, Db, PathRow, FileRow, tick, delete_rows, dao_get_node_by_path, dao_get_file_info_by_path,
  dao_delete_node,
}
use wind_cloud_v.FileTable.{
  find_file, sub_count, dao_file_sub_ref_count, dao_file_get_ref_count, dao_file_delete,
  dao_file_get_info_by_id, dao_file_source_delete_by_file_id,
}
use wind_cloud_v.FileTable.Laws.{recorded, recorded-sub_count}
use wind_cloud_v.Vfs.Entities.{
  ClientContext, remove_name, unlink_stored, reclaim_file, release_counted,
  release_file_entity_if_unused,
}
use wind_cloud_v.Vfs.Commands.{
  Reply, dir_removed, handle_rm, remove_file_at, remove_found, remove_entity, delete_file_node,
}

abbrev IsNode : ℤ → ℕ → PathRow → Type 0
IsNode user node row = (row.user_id ≡ user) × (row.id ≡ node)

-- The rows of this user with this id are gone, and all others are left, in order.
unfoldable pub Lacks : ℤ → ℕ → List PathRow → List PathRow → Type 0
Lacks user node [] rest = rest ≡ []
Lacks user node (row ∷ rows) rest =
    (IsNode user node row × Lacks user node rows rest)
    ⊎ (¬ IsNode user node row
        × ((left : List PathRow) × (rest ≡ row ∷ left) × Lacks user node rows left))

unfoldable pub NoChild : ℤ → ℕ → List PathRow → Type 0
NoChild user node [] = Unit {0}
NoChild user node (row ∷ rows) =
    ¬ ((row.user_id ≡ user) × (row.parent_id ≡ node)) × NoChild user node rows

-- Nothing was removed from `paths`, or exactly one node that P is true of, which had no child.
unfoldable pub RemovesEmpty : (ℕ → Type 0) → ClientContext → Db → Reply × Db → Type 0
unfolding Lacks NoChild
RemovesEmpty P ctx db r =
    (r.1.files ≡ db.files)
    × ((r.1.paths ≡ db.paths)
        ⊎ ((node : ℕ) × P node
            × NoChild ctx.user_id node db.paths
            × Lacks ctx.user_id node db.paths r.1.paths
            × (r.0 ≡ dir_removed)))

-- The lookup of the argument's path gives this node, which is no file.
abbrev pub IsDirAt : Backend → ClientContext → Bytes → Db → ℕ → Type 0
IsDirAt b ctx arg db node =
    (target : Bytes) × (type : ℕ) × (build_abs_path ctx.current_path arg ≡ some target)
    × ((dao_get_node_by_path b ctx.user_id target db).0 ≡ some (node, type))
    × ¬ (type ≡ 0)

module _ (b : Backend) (ctx : ClientContext) where
  -- The lookup of a node changes nothing but the number of calls.
  looked_up :
      (target : Bytes) (db : Db)
      → (dao_get_node_by_path b ctx.user_id target db).1 ≡ db
        ⊎ ((dao_get_node_by_path b ctx.user_id target db).1 ≡ tick db)
  unfolding dao_get_node_by_path
  looked_up target db = elim (Bool-cases (str_eq target root)) [
    | inl e ↦ rw e (inl refl)
    | inr e ↦ rw e (inr refl)
  ]

-- No stored file went, or the one that did belongs to a record with a count of at most 1.
pub KeepsShared : Db → Db → Type 0
KeepsShared db db' =
    (db'.store ≡ db.store)
    ⊎ ((file : ℕ) × (row : FileRow) × (find_file file db.files ≡ some row)
        × (row.count ≤ 1)
        × (db'.store ≡ remove_name row.sha256sum db.store))

module _ (b : Backend) (ctx : ClientContext) where
  reclaim_file-store :
      (file : ℕ) (hash : Bytes) (db : Db)
      → ((reclaim_file b file hash db).1.store ≡ db.store)
        ⊎ ((reclaim_file b file hash db).1.store ≡ remove_name hash db.store)
  unfolding reclaim_file unlink_stored dao_file_source_delete_by_file_id dao_file_delete
  reclaim_file-store file hash db = ground arith

  release_counted-store :
      (file : ℕ) (hash : Bytes) (db : Db)
      → ((release_counted b file hash db).1.store ≡ db.store)
        ⊎ ((recorded file db.files ≡ some 0)
            × ((release_counted b file hash db).1.store ≡ remove_name hash db.store))
  unfolding release_counted dao_file_get_ref_count recorded
  release_counted-store file hash db = ground (arith, reclaim_file-store file hash (tick db))

  release-KeepsShared :
      (file : ℕ) (db : Db) → KeepsShared db (release_file_entity_if_unused b file db).1
  unfolding release_file_entity_if_unused dao_file_get_info_by_id dao_file_sub_ref_count recorded
      KeepsShared
  release-KeepsShared file db = elim (Option-cases (find_file file db.files)) [
    | inl e ↦ inl (ground arith)
    | inr (row, e) ↦
        elim (release_counted-store file row.sha256sum
          (record (tick (tick db)) { files = sub_count file db.files })) [
            | inl s ↦ inl (ground arith)
            | inr (z, s) ↦ elim (Bool-cases (b.fails db.calls || b.fails (db.calls + 1))) [
              | inl f ↦ inl (ground arith)
              | inr w ↦ inr (
                file,
                row,
                e,
                ground (arith, recorded-sub_count file file db.files),
                ground arith,
              )
            ]
          ]
  ]

  delete_file_node-KeepsShared :
      (node file : ℕ) (db : Db) → KeepsShared db (delete_file_node b ctx node file db).1
  unfolding delete_file_node dao_delete_node KeepsShared
  delete_file_node-KeepsShared node file db = elim (Bool-cases (b.fails db.calls)) [
    | inl f ↦ rw f (inl refl)
    | inr w ↦ rw w (
        release-KeepsShared file
          (record (tick db) { paths = delete_rows ctx.user_id node db.paths }))
  ]

  remove_entity-KeepsShared :
      (node : ℕ) (o : Option (ℕ × ℕ)) (db : Db)
      → KeepsShared db (remove_entity b ctx node (o, db)).1
  unfolding remove_entity KeepsShared
  remove_entity-KeepsShared node none db = inl refl
  remove_entity-KeepsShared node (some (_, file)) db = delete_file_node-KeepsShared node file db

  remove_found-KeepsShared :
      (target : Bytes) (o : Option (ℕ × ℕ)) (db : Db)
      → KeepsShared db (remove_found b ctx target (o, db)).1
  unfolding remove_found dao_get_file_info_by_path KeepsShared
  remove_found-KeepsShared target none db = inl refl
  remove_found-KeepsShared target (some (node, type)) db = elim (Bool-cases (type == 1)) [
    | inl e ↦ rw e (inl refl)
    | inr e ↦
        let r = dao_get_file_info_by_path b ctx.user_id target db in
        rw e (remove_entity-KeepsShared node r.0 r.1)
  ]

  remove_file_at-KeepsShared :
      (target : Bytes) (db : Db) → KeepsShared db (remove_file_at b ctx target db).1
  unfolding remove_file_at KeepsShared
  remove_file_at-KeepsShared target db =
      let r = dao_get_node_by_path b ctx.user_id target db in
      let found : KeepsShared r.1 (remove_found b ctx target r).1 =
        remove_found-KeepsShared target r.0 r.1 in
      elim (looked_up b ctx target db) [
        | inl e ↦ subst (λ d. KeepsShared d (remove_found b ctx target r).1) e found
        | inr e ↦ subst (λ d. KeepsShared d (remove_found b ctx target r).1) e found
      ]

-- Whatever fails, and whatever the argument is, rm removes no stored file, or the one of a record
-- whose count is at most 1: a file that other nodes share stays.
pub handle_rm-KeepsShared :
    (b : Backend) (ctx : ClientContext) (arg : Bytes) (db : Db)
    → KeepsShared db (handle_rm b ctx arg db).1
unfolding handle_rm KeepsShared
handle_rm-KeepsShared b ctx [] db = inl refl
handle_rm-KeepsShared b ctx (c ∷ arg) db =
    elim (Option-cases (build_abs_path ctx.current_path (c ∷ arg))) [
      | inl n ↦ rw n (inl refl)
      | inr (target, e) ↦ rw e (remove_file_at-KeepsShared b ctx target db)
    ]
