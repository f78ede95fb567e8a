-- ===== src/Vfs/Preserved.antt =====
-- rm, rmdir, mkdir and touch on the tidy tables of Vfs.Refcount.
use wind_cloud_v.Shared.{
  ℕ, ◌≡◌, refl, sym, ap, ◌∙◌, inl, inr, Bool, true, false, not, [], ◌∷◌, Option, none, some, arith,
  ◌==◌, if◌then◌else◌, Bool-cases, Option-cases,
}
use wind_cloud_v.Shared.Int.{ℤ}
use wind_cloud_v.Shared.Text.{Bytes, str_eq, strcpy}
use wind_cloud_v.VirtualPath.{root, build_abs_path, extract_file_name, is_valid_vfs_name}
use wind_cloud_v.Vfs.{
  Backend, Db, PathRow, tick, children, find_node, select_node, is_literal, delete_rows,
  dao_get_node_by_path, dao_get_file_info_by_path, dao_delete_node, dao_is_dir_empty,
}
use wind_cloud_v.Vfs.Entities.{ClientContext}
use wind_cloud_v.Vfs.Commands.{
  Reply, overflow, make_node, make_at, remove_file_at, remove_found, remove_entity,
  delete_empty_dir, remove_dir_at, remove_dir_found,
}
use wind_cloud_v.Vfs.Owner.{is_plain, is_literal-build_abs_path, is_literal-extract_file_name}
use wind_cloud_v.Vfs.Counts.{
  IsWellKept-delete_rows, points-find_node, delete_rows_root, references, references-delete_rows,
}
use wind_cloud_v.Vfs.Refcount.{IsTidy, expected, delete_file_node-IsTidy}

pub ticked : {db : Db} → IsTidy db → IsTidy (tick db)
ticked t = record { counted = t.counted; kept = t.kept }

pub get_node-IsTidy :
    (b : Backend) (user : ℤ) (path : Bytes) (db : Db)
    → IsTidy db
    → IsTidy (dao_get_node_by_path b user path db).1
unfolding dao_get_node_by_path
get_node-IsTidy b user path db t = elim (Bool-cases (str_eq path root)) [
  | inl e ↦ rw e t
  | inr e ↦ rw e (ticked t)
]

module _ (b : Backend) (ctx : ClientContext) (plain : is_plain ctx.current_path ≡ true) where
  make_node-IsTidy :
      (make : ClientContext → Bytes → Bytes → Db → Bool × Db) (made failed : Reply)
      (target name : Bytes) (db : Db)
      → (is_valid_vfs_name name ≡ true → (d : Db) → IsTidy d → IsTidy (make ctx target name d).1)
      → IsTidy db
      → IsTidy (make_node make made failed b ctx target name db).1
  unfolding make_node
  make_node-IsTidy make made failed target name db keeps t =
      let t' = get_node-IsTidy b ctx.user_id target db t in
      elim (Bool-cases (is_valid_vfs_name name)) [
        | inr v ↦ rw v t
        | inl v ↦ elim (Option-cases (dao_get_node_by_path b ctx.user_id target db).0) [
          | inl e ↦ rw (v, e) (keeps v (dao_get_node_by_path b ctx.user_id target db).1 t')
          | inr (r, e) ↦ rw (v, e) t'
        ]
      ]

  pub make_at-IsTidy :
      (make : ClientContext → Bytes → Bytes → Db → Bool × Db) (made failed : Reply) (arg : Bytes)
      (db : Db)
      → is_plain arg ≡ true
      → ((target name : Bytes)
          → is_literal 255 target ≡ true
          → is_literal 30 name ≡ true
          → (d : Db) → IsTidy d
          → IsTidy (make ctx target name d).1)
      → IsTidy db
      → IsTidy (make_at make made failed b ctx arg db).1
  unfolding make_at
  make_at-IsTidy make made failed [] db a keeps t = t
  make_at-IsTidy make made failed (c ∷ arg) db a keeps t =
      elim (Option-cases (build_abs_path ctx.current_path (c ∷ arg))) [
        | inl n ↦ rw n t
        | inr (target, e) ↦ elim (Option-cases (strcpy 64 (extract_file_name target))) [
          | inl n ↦ rw (e, n) t
          | inr (name, f) ↦
              let (lit, pl) = is_literal-build_abs_path ctx.current_path (c ∷ arg) plain a e in
              rw (e, f)
                (make_node-IsTidy make made failed target name db
                  (λ v. keeps target name lit (is_literal-extract_file_name target pl f v)) t)
        ]
      ]

  module _ (works : (k : ℕ) → b.fails k ≡ false) where
    get_node-eq :
        (target : Bytes) (db : Db) {o : Option PathRow}
        → is_literal 255 target ≡ true
        → str_eq target root ≡ false
        → find_node b ctx.user_id target db.paths ≡ o
        → dao_get_node_by_path b ctx.user_id target db
          ≡ (elim o [ none ↦ none | some row ↦ some (row.id, row.node_type) ], tick db)
    unfolding dao_get_node_by_path select_node
    get_node-eq target db l r e = rw (r, works db.calls, l, e) refl

    get_node-root :
        (target : Bytes) (db : Db)
        → str_eq target root ≡ true
        → dao_get_node_by_path b ctx.user_id target db ≡ (some (0, 1), db)
    unfolding dao_get_node_by_path
    get_node-root target db r = rw r refl

    -- A file node that a path finds is one that refers to a record.
    file_info-eq :
        (target : Bytes) (db : Db) {row : PathRow}
        → is_literal 255 target ≡ true
        → find_node b ctx.user_id target db.paths ≡ some row
        → dao_get_file_info_by_path b ctx.user_id target db ≡ (
          if not (row.node_type == 0)
              then none
              else elim row.file_id [ none ↦ none | some file ↦ some (row.id, file) ],
          tick db,
        )
    unfolding dao_get_file_info_by_path select_node
    file_info-eq target db l e = rw (works db.calls, l, e) refl

    remove_entity-IsTidy :
        (target : Bytes) (db : Db) (row : PathRow)
        → is_literal 255 target ≡ true
        → find_node b ctx.user_id target db.paths ≡ some row
        → IsTidy db
        → IsTidy (remove_entity b ctx row.id (dao_get_file_info_by_path b ctx.user_id target db)).1
    unfolding remove_entity
    remove_entity-IsTidy target db row l e t = elim (Bool-cases (row.node_type == 0)) [
      | inr n ↦ rw (file_info-eq target db l e, n) (ticked t)
      | inl z ↦ elim (Option-cases row.file_id) [
        | inl f ↦ rw (file_info-eq target db l e, z, f) (ticked t)
        | inr (file, f) ↦
            rw (file_info-eq target db l e, z, f)
              (delete_file_node-IsTidy b works ctx target file (tick db) row (ticked t) e f)
      ]
    ]

    pub remove_file_at-IsTidy :
        (target : Bytes) (db : Db)
        → is_literal 255 target ≡ true
        → IsTidy db
        → IsTidy (remove_file_at b ctx target db).1
    unfolding remove_file_at remove_found
    remove_file_at-IsTidy target db l t = elim (Bool-cases (str_eq target root)) [
      | inl r ↦ rw (get_node-root target db r) t
      | inr r ↦ elim (Option-cases (find_node b ctx.user_id target db.paths)) [
        | inl e ↦ rw (get_node-eq target db l r e) (ticked t)
        | inr (row, e) ↦ elim (Bool-cases (row.node_type == 1)) [
          | inl d ↦ rw (get_node-eq target db l r e, d) (ticked t)
          | inr n ↦
              rw (get_node-eq target db l r e, n)
                (remove_entity-IsTidy target (tick db) row l e (ticked t))
        ]
      ]
    ]

    dir_empty-eq :
        (node : ℕ) (db : Db)
        → dao_is_dir_empty b ctx.user_id node db ≡ (
          some (elim (children ctx.user_id node db.paths) [ [] ↦ true | _ ∷ _ ↦ false ]),
          tick db,
        )
    unfolding dao_is_dir_empty
    dir_empty-eq node db = rw (works db.calls) refl

    -- The deletion of a node that refers to no record.
    delete_empty_dir-IsTidy :
        (node : ℕ) (empty : Option Bool) (db : Db)
        → ((i : ℕ) → references i (delete_rows ctx.user_id node db.paths) ≡ references i db.paths)
        → IsTidy db
        → IsTidy (delete_empty_dir b ctx node (empty, db)).1
    unfolding delete_empty_dir dao_delete_node
    delete_empty_dir-IsTidy node none db same t = t
    delete_empty_dir-IsTidy node (some false) db same t = t
    delete_empty_dir-IsTidy node (some true) db same t = rw (works db.calls) (record {
      counted = λ i. t.counted i ∙ ap expected (sym (same i));
      kept = IsWellKept-delete_rows ctx.user_id node t.kept;
    })

    pub remove_dir_at-IsTidy :
        (target : Bytes) (db : Db)
        → is_literal 255 target ≡ true
        → IsTidy db
        → IsTidy (remove_dir_at b ctx target db).1
    unfolding remove_dir_at remove_dir_found
    remove_dir_at-IsTidy target db l t = elim (Bool-cases (str_eq target root)) [
      | inl r ↦
          rw (get_node-root target db r, dir_empty-eq 0 db)
            (delete_empty_dir-IsTidy 0
              (some (elim (children ctx.user_id 0 db.paths) [ [] ↦ true | _ ∷ _ ↦ false ]))
              (tick db) (λ i. ap (references i) (delete_rows_root ctx.user_id t.kept)) (ticked t))
      | inr r ↦ elim (Option-cases (find_node b ctx.user_id target db.paths)) [
        | inl e ↦ rw (get_node-eq target db l r e) (ticked t)
        | inr (row, e) ↦ elim (Bool-cases (row.node_type == 0)) [
          | inl d ↦ rw (get_node-eq target db l r e, d) (ticked t)
          | inr n ↦
              rw (get_node-eq target db l r e, n, dir_empty-eq row.id (tick db))
                (delete_empty_dir-IsTidy row.id
                  (some (elim (children ctx.user_id row.id db.paths) [ [] ↦ true | _ ∷ _ ↦ false ]))
                  (tick (tick db))
                  (λ i. omega (
                    arith,
                    references-delete_rows b ctx.user_id target i db.paths e (t.kept.keyed row.id),
                    points-find_node b ctx.user_id target i db.paths t.kept.shaped e n,
                  ))
                  (ticked (ticked t)))
        ]
      ]
    ]

    pub at_path :
        (arg : Bytes) (db : Db) (go : Bytes → Db → Reply × Db)
        → is_plain arg ≡ true
        → ((target : Bytes) → is_literal 255 target ≡ true → IsTidy (go target db).1)
        → IsTidy db
        → IsTidy
            (elim (build_abs_path ctx.current_path arg) as (λ _. Reply × Db) [
              | none ↦ (overflow, db)
              | some target ↦ go target db
            ]).1
    at_path arg db go a keeps t = elim (Option-cases (build_abs_path ctx.current_path arg)) [
      | inl n ↦ rw n t
      | inr (target, e) ↦
          rw e (keeps target (is_literal-build_abs_path ctx.current_path arg plain a e).0)
    ]
