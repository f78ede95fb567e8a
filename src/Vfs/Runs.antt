-- ===== src/Vfs/Runs.antt =====
-- The dispatch of the file commands on the tidy tables of Vfs.Refcount.
use wind_cloud_v.Shared.{
  ℕ, ◌≡◌, ap, inl, inr, true, false, [], ◌∷◌, some, arith, ◌==◌, Bool-cases, Option-cases,
}
use wind_cloud_v.Shared.Text.{Bytes, codes, str_eq, strcpy, has_byte, split_last, split_last_sound}
use wind_cloud_v.VirtualPath.{slash, get_parent_path, cut_last, cd_target}
use wind_cloud_v.Vfs.{Backend, Db, dao_get_node_by_path, dao_list_dir}
use wind_cloud_v.Vfs.Entities.{ClientContext, create_empty_file_node}
use wind_cloud_v.Vfs.Commands.{
  dir_made, dir_failed, file_made, file_failed, FileCommand, pwd, ls, cd, touch, rm, mkdir, rmdir,
  dispatch_file_command, enter_dir, handle_cd, handle_ls, handle_touch, handle_mkdir, handle_rm,
  handle_rmdir, create_dir_node, remove_file_at, remove_dir_at,
}
use wind_cloud_v.Vfs.Owner.{is_plain, argument, has_byte-append, is_literal-build_abs_path}
use wind_cloud_v.Vfs.Refcount.{IsTidy}
use wind_cloud_v.Vfs.Tidy.{dao_create_node-IsTidy, create_empty_file_node-IsTidy}
use wind_cloud_v.Vfs.Preserved.{
  ticked, get_node-IsTidy, make_at-IsTidy, remove_file_at-IsTidy, remove_dir_at-IsTidy, at_path,
}

is_plain-cut_last : (path : Bytes) → is_plain path ≡ true → is_plain (cut_last path) ≡ true
unfolding is_plain cut_last has_byte
is_plain-cut_last path p = elim (Option-cases (split_last slash path)) [
  | inl e ↦ ground arith
  | inr (r, e) ↦
      let whole = (split_last_sound slash path e).0 in
      ground (
        arith,
        ap (has_byte 39) whole,
        ap (has_byte 92) whole,
        has_byte-append 39 r.0 (slash ∷ r.1),
        has_byte-append 92 r.0 (slash ∷ r.1),
      )
]

is_plain-cd_target :
    (path arg : Bytes) {target : Bytes}
    → is_plain path ≡ true
    → is_plain arg ≡ true
    → cd_target path arg ≡ some target
    → is_plain target ≡ true
unfolding cd_target get_parent_path strcpy is_plain has_byte
is_plain-cd_target path arg {target} p a e = elim (Bool-cases (str_eq arg (codes ".."))) [
  | inl u ↦ ground (arith, is_plain-cut_last path p)
  | inr d ↦ (is_literal-build_abs_path path arg {target = target} p a (ground arith)).1
]

-- What cd leaves of the session and of the tables.
enter_dir-kept :
    (b : Backend) (ctx : ClientContext) (target : Bytes) (db : Db)
    → is_plain ctx.current_path ≡ true
    → is_plain target ≡ true
    → IsTidy db
    → (is_plain (enter_dir b ctx target db).1.current_path ≡ true)
      × IsTidy (enter_dir b ctx target db).2
unfolding enter_dir
enter_dir-kept b ctx target db p q t =
    let t' = get_node-IsTidy b ctx.user_id target db t in
    elim (Option-cases (dao_get_node_by_path b ctx.user_id target db).0) [
      | inl n ↦ rw (n, enter_dir) (p, t')
      | inr ((node, type), f) ↦ elim (Bool-cases (type == 1)) [
        | inl d ↦ rw (f, d, enter_dir) (q, t')
        | inr d ↦ rw (f, d, enter_dir) (p, t')
      ]
    ]

handle_cd-kept :
    (b : Backend) (ctx : ClientContext) (arg : Bytes) (db : Db)
    → is_plain ctx.current_path ≡ true
    → is_plain arg ≡ true
    → IsTidy db
    → (is_plain (handle_cd b ctx arg db).1.current_path ≡ true) × IsTidy (handle_cd b ctx arg db).2
unfolding handle_cd
handle_cd-kept b ctx [] db p a t = (p, t)
handle_cd-kept b ctx (c ∷ arg) db p a t = elim (Bool-cases (str_eq (c ∷ arg) (codes "."))) [
  | inl s ↦ rw s (p, t)
  | inr s ↦ elim (Option-cases (cd_target ctx.current_path (c ∷ arg))) [
    | inl n ↦ rw (s, n) (p, t)
    | inr (target, e) ↦
        rw (s, e)
          (enter_dir-kept b ctx target db p (is_plain-cd_target ctx.current_path (c ∷ arg) p a e) t)
  ]
]

-- While no statement fails, every command keeps the tables tidy: each record of `files` counts
-- exactly the nodes of `paths` that refer to it, no record stands for a file that no node refers
-- to, and every node that refers to a file has its record; and the session's path goes on having
-- no quote and no backslash. (The path and the argument have none, and the tables were tidy.)
pub dispatch_file_command-IsTidy :
    (b : Backend) (ctx : ClientContext) (command : FileCommand) (db : Db)
    → ((k : ℕ) → b.fails k ≡ false)
    → is_plain ctx.current_path ≡ true
    → is_plain (argument command) ≡ true
    → IsTidy db
    → (is_plain (dispatch_file_command b ctx command db).1.current_path ≡ true)
      × IsTidy (dispatch_file_command b ctx command db).2
unfolding dispatch_file_command argument handle_ls dao_list_dir handle_touch handle_mkdir handle_rm
    handle_rmdir create_dir_node
dispatch_file_command-IsTidy b ctx pwd db w p a t = (p, t)
dispatch_file_command-IsTidy b ctx ls db w p a t = (p, ticked t)
dispatch_file_command-IsTidy b ctx (cd arg) db w p a t = handle_cd-kept b ctx arg db p a t
dispatch_file_command-IsTidy b ctx (touch arg) db w p a t = (
  p,
  make_at-IsTidy b ctx p (create_empty_file_node b) file_made file_failed arg db a
      (λ target name l m. create_empty_file_node-IsTidy b w ctx target name l m) t,
)
dispatch_file_command-IsTidy b ctx (mkdir arg) db w p a t = (
  p,
  make_at-IsTidy b ctx p (create_dir_node b) dir_made dir_failed arg db a
      (λ target name l m. dao_create_node-IsTidy b w ctx target name l m) t,
)
dispatch_file_command-IsTidy b ctx (rm []) db w p a t = (p, t)
dispatch_file_command-IsTidy b ctx (rm (c ∷ arg)) db w p a t = (
  p,
  at_path b ctx p w (c ∷ arg) db (remove_file_at b ctx) a
      (λ target l. remove_file_at-IsTidy b ctx p w target db l t) t,
)
dispatch_file_command-IsTidy b ctx (rmdir []) db w p a t = (p, t)
dispatch_file_command-IsTidy b ctx (rmdir (c ∷ arg)) db w p a t = (
  p,
  at_path b ctx p w (c ∷ arg) db (remove_dir_at b ctx) a
      (λ target l. remove_dir_at-IsTidy b ctx p w target db l t) t,
)
