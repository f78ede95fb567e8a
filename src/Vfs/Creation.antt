-- ===== src/Vfs/Creation.antt =====
-- What mkdir adds to `paths`.
use wind_cloud_v.Shared.{
  ◌≡◌, refl, ap, ◌∙◌, inl, inr, true, List, [], ◌∷◌, ◌++◌, none, some, arith, Bool-cases,
  Option-cases,
}
use wind_cloud_v.Shared.Int.{ℤ}
use wind_cloud_v.Shared.Text.{Bytes, strcpy, strcpy-eq-some}
use wind_cloud_v.VirtualPath.{build_abs_path, extract_file_name, is_valid_vfs_name}
use wind_cloud_v.Vfs.{
  Backend, Db, PathRow, is_literal, is_node, find_node, insert_node, path_ids, dao_create_node,
  dao_get_node_by_path,
}
use wind_cloud_v.Vfs.Entities.{ClientContext}
use wind_cloud_v.Vfs.Commands.{
  dir_made, dir_failed, make_node, make_at, create_dir_node, handle_mkdir,
}
use wind_cloud_v.Vfs.Owner.{is_plain, is_literal-build_abs_path, is_literal-extract_file_name}

pub find_node-append :
    (b : Backend) (user : ℤ) (path : Bytes) (rows : List PathRow) (row : PathRow)
    → find_node b user path rows ≡ none
    → is_node b user path row ≡ true
    → find_node b user path (rows ++ (row ∷ [])) ≡ some row
unfolding find_node
find_node-append b user path [] row e h = ground arith
find_node-append b user path (r ∷ rows) row e h =
    ground (arith, find_node-append b user path rows row)

pub insert_node-found :
    (b : Backend) (row : PathRow) (db : Db)
    → is_literal 255 row.path ≡ true
    → is_literal 30 row.file_name ≡ true
    → (insert_node b row db).0 ≡ true
    → find_node b row.user_id row.path (insert_node b row db).1.paths ≡ some row
unfolding insert_node is_node
insert_node-found b row db p n made =
    elim (Option-cases (find_node b row.user_id row.path db.paths)) [
      | inl e ↦ ground (
        arith,
        b.collates-refl row.path,
        find_node-append b row.user_id row.path db.paths row e
            (ground (arith, b.collates-refl row.path)),
      )
      | inr (r, e) ↦ ground arith
    ]

-- The directory that a path finds: what mkdir was to make.
pub record IsMade (b : Backend) (ctx : ClientContext) (target name : Bytes) (db : Db) : Type 0 where
  pub row : PathRow
  pub found : find_node b ctx.user_id target db.paths ≡ some row
  pub directory : row.node_type ≡ 1
  pub under : row.parent_id ≡ ctx.current_dir_id
  pub named : row.file_name ≡ name

create_dir_node-IsMade :
    (b : Backend) (ctx : ClientContext) (target name : Bytes) (db : Db)
    → is_literal 255 target ≡ true
    → is_literal 30 name ≡ true
    → (create_dir_node b ctx target name db).0 ≡ true
    → IsMade b ctx target name (create_dir_node b ctx target name db).1
unfolding create_dir_node dao_create_node
create_dir_node-IsMade b ctx target name db p n made =
    let row : PathRow = record {
      id = b.next_id db.calls (path_ids db.paths);
      user_id = ctx.user_id;
      path = target;
      file_id = none;
      parent_id = ctx.current_dir_id;
      file_name = name;
      node_type = 1;
    } in
    record {
      row = row;
      found = insert_node-found b row db p n made;
      directory = refl;
      under = refl;
      named = refl;
    }

make_node-IsMade :
    (b : Backend) (ctx : ClientContext) (target name : Bytes) (db : Db)
    → is_literal 255 target ≡ true
    → (is_valid_vfs_name name ≡ true → is_literal 30 name ≡ true)
    → (make_node (create_dir_node b) dir_made dir_failed b ctx target name db).0 ≡ dir_made
    → IsMade b ctx target name
        (make_node (create_dir_node b) dir_made dir_failed b ctx target name db).1
unfolding make_node
make_node-IsMade b ctx target name db p n h =
    let d = (dao_get_node_by_path b ctx.user_id target db).1 in
    elim (Bool-cases (is_valid_vfs_name name)) [
      | inr v ↦ absurd (ground (arith, rw v at h))
      | inl v ↦ elim (Option-cases (dao_get_node_by_path b ctx.user_id target db).0) [
        | inr (r, e) ↦ absurd (ground (arith, rw (v, e) at h))
        | inl e ↦ elim (Bool-cases (create_dir_node b ctx target name d).0) [
          | inl made ↦ rw (v, e) (create_dir_node-IsMade b ctx target name d p (n v) made)
          | inr fails ↦ absurd (ground (arith, rw (v, e, fails) at h))
        ]
      ]
    ]

-- When mkdir reports success, the path that it was given is found in the tables: a directory under
-- the session's current one, with the last name of the path, provided that the session's path and
-- the argument hold no quote and no backslash.
pub handle_mkdir-IsMade :
    (b : Backend) (ctx : ClientContext) (arg target : Bytes) (db : Db)
    → is_plain ctx.current_path ≡ true
    → is_plain arg ≡ true
    → build_abs_path ctx.current_path arg ≡ some target
    → (handle_mkdir b ctx arg db).0 ≡ dir_made
    → IsMade b ctx target (extract_file_name target) (handle_mkdir b ctx arg db).1
unfolding handle_mkdir make_at
handle_mkdir-IsMade b ctx [] target db p a e h = absurd (ground arith)
handle_mkdir-IsMade b ctx (c ∷ arg) target db p a e h =
    let name = extract_file_name target in
    let (lit, pl) = is_literal-build_abs_path ctx.current_path (c ∷ arg) p a e in
    elim (Option-cases (strcpy 64 name)) [
      | inl f ↦ absurd (ground (arith, rw (e, f) at h))
      | inr (copy, f) ↦
          let same = (strcpy-eq-some 64 name f).0 in
          let f' : strcpy 64 name ≡ some name = f ∙ ap some same in
          rw (e, f')
            (make_node-IsMade b ctx target name db lit (is_literal-extract_file_name target pl f')
              (rw (e, f') at h))
    ]
