-- ===== src/Upload/Whole.antt =====
-- handle_puts as a whole: an upload that is broken off and resumed, and the other stored files.
use wind_cloud_v.Shared.{
  sym, ◌∙◌, arith, ℕ, ◌≤◌, ◌≡◌, refl, ap, inl, inr, true, false, [], ◌∷◌, Option, none, some,
  length, take, drop, Bool-cases, Option-cases,
}
use wind_cloud_v.Shared.Int.{ℤ, pos}
use wind_cloud_v.Shared.Text.{Bytes, is_empty, take_all}
use wind_cloud_v.VirtualPath.{
  full_path_len, build_full_virtual_path, extract_file_name, is_valid_vfs_name,
}
use wind_cloud_v.Protocol.{FilePacket, c_string, init_file_packet}
use wind_cloud_v.Identity.{Config}
use wind_cloud_v.Vfs.{Backend, Db, FileRow, is_hash, dao_get_node_by_path}
use wind_cloud_v.Vfs.Entities.{ClientContext}
use wind_cloud_v.FileTable.{find_hash, dao_file_find_by_sha256}
use wind_cloud_v.Upload.{
  message, info_failed, Upload, UploadLink, StoreCheck, unreadable, incomplete, ready,
  check_store_file_ready, create_user_file_link,
}
use wind_cloud_v.Upload.Receive.{content_of}
use wind_cloud_v.Upload.Links.{
  create_user_file_link-store, check_store_file_ready-store, dao_get_node_by_path-store,
  dao_get_node_by_path-files,
}
use wind_cloud_v.Upload.Handler.{
  link_existing, upload_checked, upload_content, upload_new, upload_at, upload_packet, handle_puts,
}
use mathlib.Core.Path.{subst}
use wind_cloud_v.Vfs.Tidy.{dao_file_find-eq}
use wind_cloud_v.Upload.Settled.{length-prefix, HoldsPrefix, IsReliable, says_completed, IsUpheld}
use wind_cloud_v.Upload.Resume.{open_upload-IsUpheld}

pub handle_puts-eq :
    (b : Backend) (config : Config) (link : UploadLink) (ctx : ClientContext) (arg : Bytes)
    (db : Db) (p : FilePacket)
    → link.file_packet ≡ some p
    → handle_puts b config link ctx arg db ≡ upload_packet b config link ctx arg p db
unfolding handle_puts
handle_puts-eq b config link ctx arg db p q =
    ap
      (λ o. elim o [
        | none ↦ (message info_failed ∷ [], db)
        | some p ↦ upload_packet b config link ctx arg p db
      ])
      q

module _ (b : Backend) (works : (k : ℕ) → b.fails k ≡ false) (config : Config) (link : UploadLink)
    (reliable : IsReliable link) (ctx : ClientContext) (arg : Bytes) (f : Bytes) where
  module _ (u : Upload) (valid : is_hash u.hash ≡ true) (size : u.size ≡ pos (length f)) (n m : ℕ)
      (h : n ≤ length f) (i : link.incoming ≡ take m (drop n f)) where
    link_existing-IsUpheld :
        (file : ℕ) (db : Db)
        → content_of u.stored db ≡ f
        → IsUpheld u.stored f (link_existing b ctx arg u file db)
    unfolding link_existing says_completed
    link_existing-IsUpheld file db e =
        let kept = create_user_file_link-store b config ctx u.full_path u.name file true db in
        let r = create_user_file_link b ctx u.full_path u.name file true db in
        let held : content_of u.stored r.1 ≡ f = rw (content_of, kept) e in
        let all : HoldsPrefix u.stored f r.1 =
          (length f, omega arith, held ∙ sym (take_all (length f) f (omega arith))) in
        elim (Bool-cases r.0) [ inl y ↦ rw y (all, inr held) | inr y ↦ rw y (all, inr held) ]

    -- Where the stored file has the size of the record, it is all there.
    checked-IsUpheld :
        (file : ℕ) (r : StoreCheck × ℕ × Db)
        → content_of u.stored r.2 ≡ take n f
        → (r.0 ≡ ready → content_of u.stored r.2 ≡ f)
        → IsUpheld u.stored f (upload_checked b config link ctx arg u file r)
    unfolding upload_checked says_completed
    checked-IsUpheld file (unreadable, _, db) e all = ((n, h, e), inl refl)
    checked-IsUpheld file (ready, _, db) e all = link_existing-IsUpheld file db (all refl)
    checked-IsUpheld file (incomplete, _, db) e all =
        open_upload-IsUpheld b works config link reliable ctx arg f u size n m h i db e

    ready-size :
        (expected : ℕ) (db : Db)
        → (check_store_file_ready b u.stored (pos expected) db).0 ≡ ready
        → length (content_of u.stored db) ≡ expected
    unfolding check_store_file_ready
    ready-size expected db r = ground (arith, r)

    upload_content-IsUpheld :
        (r : Option (ℕ × ℤ) × Db)
        → content_of u.stored r.1 ≡ take n f
        → ((file : ℕ) (expected : ℤ) → r.0 ≡ some (file, expected) → expected ≡ pos (length f))
        → IsUpheld u.stored f (upload_content b config link ctx arg u r)
    unfolding upload_content
    upload_content-IsUpheld (none, db) e honest =
        open_upload-IsUpheld b works config link reliable ctx arg f u size n m h i db e
    upload_content-IsUpheld (some (file, expected), db) e honest =
        let r = check_store_file_ready b u.stored expected db in
        let kept = check_store_file_ready-store b u.stored expected db in
        checked-IsUpheld file r (rw (content_of, kept) e) (λ y.
          (let full : length (content_of u.stored db) ≡ length f = ready-size (length f) db (
              subst (λ z. (check_store_file_ready b u.stored z db).0 ≡ ready)
                (honest file expected refl) y) in
            let end : n ≡ length f =
              sym (length-prefix n f h) ∙ sym (ap (length {A = ℕ}) e) ∙ full in
            rw (content_of, kept) (e ∙ rw end (take_all (length f) f (omega arith)))))

    -- The records of this hash have the size of `f`.
    abbrev IsHonest : Db → Type 0
    IsHonest db = (row : FileRow) → find_hash u.hash db.files ≡ some row → row.size ≡ pos (length f)

    found-size :
        (db : Db)
        → IsHonest db
        → (file : ℕ) (expected : ℤ)
        → (dao_file_find_by_sha256 b u.hash db).0 ≡ some (file, expected)
        → expected ≡ pos (length f)
    found-size db honest file expected y = elim (Option-cases (find_hash u.hash db.files)) [
      | inl e ↦
          absurd (ground (arith, ap (λ r. r.0) (dao_file_find-eq b works u.hash valid db e), y))
      | inr (row, e) ↦
          ground
            (arith, ap (λ r. r.0) (dao_file_find-eq b works u.hash valid db e), y, honest row e)
    ]

    upload_new-IsUpheld :
        (r : Option (ℕ × ℕ) × Db)
        → content_of u.stored r.1 ≡ take n f
        → IsHonest r.1
        → IsUpheld u.stored f (upload_new b config link ctx arg u r)
    unfolding upload_new dao_file_find_by_sha256 says_completed init_file_packet c_string
    upload_new-IsUpheld (some node, db) e honest = ((n, h, e), inl refl)
    upload_new-IsUpheld (none, db) e honest = elim (Bool-cases (is_empty u.hash)) [
      | inl y ↦ rw y ((n, h, e), inl refl)
      | inr y ↦
          rw y
            (upload_content-IsUpheld (dao_file_find_by_sha256 b u.hash db) e (found-size db honest))
    ]

    upload_at-IsUpheld :
        (db : Db)
        → content_of u.stored db ≡ take n f
        → IsHonest db
        → IsUpheld u.stored f (upload_at b config link ctx arg u db)
    unfolding upload_at says_completed
    upload_at-IsUpheld db e honest = elim (Bool-cases (is_valid_vfs_name u.name)) [
      | inl y ↦ rw y (
          upload_new-IsUpheld (dao_get_node_by_path b ctx.user_id u.full_path db)
            (rw (content_of, dao_get_node_by_path-store b ctx.user_id u.full_path db) e)
            (λ row x. honest row (
              ap (find_hash u.hash) (sym (dao_get_node_by_path-files b ctx.user_id u.full_path db))
              ∙ x)))
      | inr y ↦ rw y ((n, h, e), inl refl)
    ]

  upload_packet-IsUpheld :
      (db : Db) (p : FilePacket) (n m : ℕ)
      → is_hash (c_string p.hash) ≡ true
      → ((row : FileRow)
          → find_hash (c_string p.hash) db.files ≡ some row
          → row.size ≡ pos (length f))
      → p.file_size ≡ pos (length f)
      → n ≤ length f
      → content_of (b.resolve (c_string p.hash)) db ≡ take n f
      → link.incoming ≡ take m (drop n f)
      → IsUpheld (b.resolve (c_string p.hash)) f (upload_packet b config link ctx arg p db)
  unfolding upload_packet says_completed
  upload_packet-IsUpheld db p n m valid honest size h e i =
      elim (Option-cases (build_full_virtual_path full_path_len ctx.current_path arg)) [
        | inl y ↦ rw (upload_packet, y) ((n, h, e), inl refl)
        | inr (full_path, y) ↦
            rw (upload_packet, y)
              (upload_at-IsUpheld
                (record {
                  full_path = full_path;
                  name = extract_file_name full_path;
                  hash = c_string p.hash;
                  stored = b.resolve (c_string p.hash);
                  size = p.file_size;
                })
                valid size n m h i db e honest)
      ]

  -- A client uploads `f` under its hash, and goes on where the stored file ends. While the server's
  -- calls succeed, every request leaves a prefix of `f` in that file, wherever the connection breaks
  -- off, and the client is told that the upload is complete, by the message or by the packet with the hash,
  -- only when all of `f` is stored. (The hash is 64 digits in lower case, and a record of it has the size
  -- of `f`.)
  pub handle_puts-IsUpheld :
      (db : Db) (p : FilePacket) (n m : ℕ)
      → link.file_packet ≡ some p
      → is_hash (c_string p.hash) ≡ true
      → ((row : FileRow)
          → find_hash (c_string p.hash) db.files ≡ some row
          → row.size ≡ pos (length f))
      → p.file_size ≡ pos (length f)
      → n ≤ length f
      → content_of (c_string p.hash) db ≡ take n f
      → link.incoming ≡ take m (drop n f)
      → IsUpheld (c_string p.hash) f (handle_puts b config link ctx arg db)
  handle_puts-IsUpheld db p n m q valid honest size h e i =
      let same = b.resolve-hash (c_string p.hash) valid in
      rw (handle_puts-eq b config link ctx arg db p q) (
        subst (λ z. IsUpheld z f (upload_packet b config link ctx arg p db)) same
          (upload_packet-IsUpheld db p n m valid honest size h (rw same e) i))
