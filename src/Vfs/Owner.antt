-- ===== src/Vfs/Owner.antt =====
-- The commands of src/server/file/file_cmds.c and the rows of other users.
use wind_cloud_v.Shared.{
  ℕ, ◌≡◌, refl, ap, inl, inr, Bool, true, false, not, ◌&&◌, ◌||◌, [], ◌∷◌, ◌++◌, Option, none, some,
  arith, Bool-cases, Option-cases,
}
use wind_cloud_v.Shared.Int.{ℤ, eqb_ℤ}
use wind_cloud_v.Shared.Text.{Bytes, has_byte, strcpy, split_last, split_last_sound}
use wind_cloud_v.VirtualPath.{
  slash, build_abs_path, cd_target, join_path, extract_file_name, is_valid_vfs_name,
}
use wind_cloud_v.Vfs.{
  Backend, Db, tick, is_literal, dao_get_node_by_path, dao_get_file_info_by_path, dao_list_dir,
  dao_is_dir_empty, dao_delete_node,
}
use wind_cloud_v.Vfs.Entities.{ClientContext, create_empty_file_node}
use wind_cloud_v.Vfs.Commands.{
  Reply, dir_made, dir_failed, file_made, file_failed, FileCommand, pwd, ls, cd, touch, rm, mkdir,
  rmdir, dispatch_file_command, enter_dir, handle_cd, handle_ls, handle_touch, handle_mkdir,
  handle_rm, handle_rmdir, make_node, make_at, create_dir_node, delete_file_node, remove_file_at,
  remove_found, remove_entity, delete_empty_dir, remove_dir_at, remove_dir_found,
}
use wind_cloud_v.Vfs.Isolation.{
  rows_of, rows_of-delete_rows, release-paths, dao_create_node-rows_of,
  create_empty_file_node-rows_of,
}

-- No quote and no backslash.
unfoldable pub is_plain : Bytes → Bool
is_plain s = not (has_byte 39 s) && not (has_byte 92 s)

pub has_byte-append : (c : ℕ) (s t : Bytes) → has_byte c (s ++ t) ≡ (has_byte c s || has_byte c t)
unfolding has_byte
has_byte-append c [] t = refl
has_byte-append c (x ∷ s) t = ground (arith, has_byte-append c s t)

pub is_plain-join_path :
    (path arg : Bytes)
    → is_plain path ≡ true
    → is_plain arg ≡ true
    → is_plain (join_path path arg) ≡ true
unfolding is_plain join_path has_byte
is_plain-join_path path arg p a =
    ground (arith, has_byte-append 39 path (slash ∷ arg), has_byte-append 92 path (slash ∷ arg))

-- The path that a command names prints as a plain literal.
pub is_literal-build_abs_path :
    (path arg : Bytes) {target : Bytes}
    → is_plain path ≡ true
    → is_plain arg ≡ true
    → build_abs_path path arg ≡ some target
    → (is_literal 255 target ≡ true) × (is_plain target ≡ true)
unfolding build_abs_path is_literal is_plain strcpy
is_literal-build_abs_path path arg {target} p a e = ground (arith, is_plain-join_path path arg p a)

pub is_literal-extract_file_name :
    (target : Bytes) {name : Bytes}
    → is_plain target ≡ true
    → strcpy 64 (extract_file_name target) ≡ some name
    → is_valid_vfs_name name ≡ true
    → is_literal 30 name ≡ true
unfolding is_literal is_plain extract_file_name is_valid_vfs_name strcpy has_byte
is_literal-extract_file_name target {name} p e v = elim (Option-cases (split_last slash target)) [
  | inl n ↦ ground arith
  | inr (r, q) ↦
      let whole = (split_last_sound slash target q).0 in
      ground (
        arith,
        ap (has_byte 39) whole,
        ap (has_byte 92) whole,
        has_byte-append 39 r.0 (slash ∷ r.1),
        has_byte-append 92 r.0 (slash ∷ r.1),
      )
]

make_node-rows_of :
    (other : ℤ) (make : ClientContext → Bytes → Bytes → Db → Bool × Db) (made failed : Reply)
    (b : Backend) (ctx : ClientContext) (target name : Bytes) (db : Db)
    → ((d : Db)
        → is_valid_vfs_name name ≡ true
        → rows_of other (make ctx target name d).1.paths ≡ rows_of other d.paths)
    → rows_of other (make_node make made failed b ctx target name db).1.paths
      ≡ rows_of other db.paths
unfolding make_node dao_get_node_by_path
make_node-rows_of other make made failed b ctx target name db keeps =
    elim (Bool-cases (is_valid_vfs_name name)) [
      | inl v ↦ ground (arith, keeps db v, keeps (tick db) v)
      | inr n ↦ ground arith
    ]

module _ (b : Backend) (other : ℤ) (ctx : ClientContext) (h : eqb_ℤ ctx.user_id other ≡ false)
    (plain : is_plain ctx.current_path ≡ true) where
  make_at-rows_of :
      (make : ClientContext → Bytes → Bytes → Db → Bool × Db) (made failed : Reply) (arg : Bytes)
      (db : Db)
      → is_plain arg ≡ true
      → ((target name : Bytes)
          → is_literal 255 target ≡ true
          → is_literal 30 name ≡ true
          → (d : Db) → rows_of other (make ctx target name d).1.paths ≡ rows_of other d.paths)
      → rows_of other (make_at make made failed b ctx arg db).1.paths ≡ rows_of other db.paths
  unfolding make_at
  make_at-rows_of make made failed arg db a keeps =
      elim (Option-cases (build_abs_path ctx.current_path arg)) [
        | inl n ↦ ground arith
        | inr (target, e) ↦ elim (Option-cases (strcpy 64 (extract_file_name target))) [
          | inl n ↦ ground arith
          | inr (name, f) ↦
              let (lit, pl) = is_literal-build_abs_path ctx.current_path arg plain a e in
              ground (
                arith,
                make_node-rows_of other make made failed b ctx target name db
                    (λ d v. keeps target name lit (is_literal-extract_file_name target pl f v) d),
              )
        ]
      ]

  delete_file_node-rows_of :
      (node file : ℕ) (db : Db)
      → rows_of other (delete_file_node b ctx node file db).1.paths ≡ rows_of other db.paths
  unfolding delete_file_node dao_delete_node
  delete_file_node-rows_of node file db = ground (
    arith,
    rows_of-delete_rows ctx.user_id other node db.paths h,
    release-paths b file (dao_delete_node b ctx.user_id node db).1,
  )

  remove_entity-rows_of :
      (node : ℕ) (r : Option (ℕ × ℕ) × Db)
      → rows_of other (remove_entity b ctx node r).1.paths ≡ rows_of other r.1.paths
  unfolding remove_entity
  remove_entity-rows_of node (none, db) = refl
  remove_entity-rows_of node (some (_, file), db) = delete_file_node-rows_of node file db

  remove_found-rows_of :
      (target : Bytes) (r : Option (ℕ × ℕ) × Db)
      → rows_of other (remove_found b ctx target r).1.paths ≡ rows_of other r.1.paths
  unfolding remove_found dao_get_file_info_by_path
  remove_found-rows_of target (none, db) = refl
  remove_found-rows_of target (some (node, type), db) =
      ground (arith, remove_entity-rows_of node (dao_get_file_info_by_path b ctx.user_id target db))

  delete_empty_dir-rows_of :
      (node : ℕ) (r : Option Bool × Db)
      → rows_of other (delete_empty_dir b ctx node r).1.paths ≡ rows_of other r.1.paths
  unfolding delete_empty_dir dao_delete_node
  delete_empty_dir-rows_of node (none, db) = refl
  delete_empty_dir-rows_of node (some false, db) = refl
  delete_empty_dir-rows_of node (some true, db) =
      ground (arith, rows_of-delete_rows ctx.user_id other node db.paths h)

  remove_dir_found-rows_of :
      (r : Option (ℕ × ℕ) × Db)
      → rows_of other (remove_dir_found b ctx r).1.paths ≡ rows_of other r.1.paths
  unfolding remove_dir_found dao_is_dir_empty
  remove_dir_found-rows_of (none, db) = refl
  remove_dir_found-rows_of (some (node, type), db) =
      ground (arith, delete_empty_dir-rows_of node (dao_is_dir_empty b ctx.user_id node db))

  dao_get_node-paths :
      (target : Bytes) (db : Db) → (dao_get_node_by_path b ctx.user_id target db).1.paths ≡ db.paths
  unfolding dao_get_node_by_path
  dao_get_node-paths target db = ground arith

  handle_rm-rows_of :
      (arg : Bytes) (db : Db)
      → rows_of other (handle_rm b ctx arg db).1.paths ≡ rows_of other db.paths
  unfolding handle_rm remove_file_at
  handle_rm-rows_of arg db = elim (Option-cases (build_abs_path ctx.current_path arg)) [
    | inl n ↦ ground arith
    | inr (target, e) ↦ ground (
      arith,
      remove_found-rows_of target (dao_get_node_by_path b ctx.user_id target db),
      dao_get_node-paths target db,
    )
  ]

  handle_rmdir-rows_of :
      (arg : Bytes) (db : Db)
      → rows_of other (handle_rmdir b ctx arg db).1.paths ≡ rows_of other db.paths
  unfolding handle_rmdir remove_dir_at
  handle_rmdir-rows_of arg db = elim (Option-cases (build_abs_path ctx.current_path arg)) [
    | inl n ↦ ground arith
    | inr (target, e) ↦ ground (
      arith,
      remove_dir_found-rows_of (dao_get_node_by_path b ctx.user_id target db),
      dao_get_node-paths target db,
    )
  ]

  handle_cd-paths : (arg : Bytes) (db : Db) → (handle_cd b ctx arg db).2.paths ≡ db.paths
  unfolding handle_cd enter_dir
  handle_cd-paths arg db = elim (Option-cases (cd_target ctx.current_path arg)) [
    | inl n ↦ ground arith
    | inr (target, e) ↦ ground (arith, dao_get_node-paths target db)
  ]

-- The argument of a command.
unfoldable pub argument : FileCommand → Bytes
argument pwd = []
argument ls = []
argument (cd arg) = arg
argument (touch arg) = arg
argument (rm arg) = arg
argument (mkdir arg) = arg
argument (rmdir arg) = arg

-- Whatever a user asks for, and whichever of the server's calls fail, the rows of every other user
-- stay as they are, provided that the user's path and the argument hold no quote and no backslash
-- (the statements are printed with no escape).
pub dispatch_file_command-rows_of :
    (b : Backend) (other : ℤ) (ctx : ClientContext) (command : FileCommand) (db : Db)
    → eqb_ℤ ctx.user_id other ≡ false
    → is_plain ctx.current_path ≡ true
    → is_plain (argument command) ≡ true
    → rows_of other (dispatch_file_command b ctx command db).2.paths ≡ rows_of other db.paths
unfolding dispatch_file_command argument handle_ls dao_list_dir handle_touch handle_mkdir
    create_dir_node
dispatch_file_command-rows_of b other ctx pwd db h p a = refl
dispatch_file_command-rows_of b other ctx ls db h p a = refl
dispatch_file_command-rows_of b other ctx (cd arg) db h p a =
    ap (rows_of other) (handle_cd-paths b other ctx h p arg db)
dispatch_file_command-rows_of b other ctx (touch arg) db h p a =
    make_at-rows_of b other ctx h p (create_empty_file_node b) file_made file_failed arg db a
      (λ target name l m d. create_empty_file_node-rows_of b other ctx target name h l m d)
dispatch_file_command-rows_of b other ctx (rm arg) db h p a =
    handle_rm-rows_of b other ctx h p arg db
dispatch_file_command-rows_of b other ctx (mkdir arg) db h p a =
    make_at-rows_of b other ctx h p (create_dir_node b) dir_made dir_failed arg db a
      (λ target name l m d.
        dao_create_node-rows_of b other ctx target name h l m ctx.current_dir_id 1 d)
dispatch_file_command-rows_of b other ctx (rmdir arg) db h p a =
    handle_rmdir-rows_of b other ctx h p arg db
