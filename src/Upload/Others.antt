-- ===== src/Upload/Others.antt =====
-- handle_puts touches no stored file but the one under the client's hash.
use wind_cloud_v.Shared.{
  ℕ, ◌+◌, ◌-◌, ◌≡◌, refl, ap, ◌∙◌, inl, inr, true, false, Option, none, some, arith, length,
  if◌then◌else◌, ltb, ◌==◌, Bool-cases, Option-cases,
}
use wind_cloud_v.Shared.Int.{ℤ, pos, pos_part, ltb_ℤ}
use wind_cloud_v.Shared.Text.{Bytes, str_eq, is_empty}
use wind_cloud_v.VirtualPath.{
  full_path_len, build_full_virtual_path, extract_file_name, is_valid_vfs_name,
}
use wind_cloud_v.Protocol.{FilePacket, c_string}
use wind_cloud_v.Protocol.Stream.{Outcome, done, failed, stuck}
use wind_cloud_v.Identity.{Config}
use wind_cloud_v.Vfs.{Backend, Db, Store, tick, dao_get_node_by_path}
use wind_cloud_v.Vfs.Entities.{ClientContext, write_name, create_name}
use wind_cloud_v.FileTable.{dao_file_find_by_sha256}
use wind_cloud_v.Upload.{
  Upload, UploadLink, check_store_file_ready, unreadable, incomplete, ready, StoreCheck,
  large_file_mmap_threshold,
}
use wind_cloud_v.Upload.Receive.{
  content_of, put_content, resize, receive_content, file_sink, map_sink,
}
use wind_cloud_v.Upload.Links.{
  create_user_file_link-store, dao_get_node_by_path-store, check_store_file_ready-store,
  finish_upload_db_work-store,
}
use wind_cloud_v.Upload.Handler.{
  truncate_stored, record_upload, settle_upload, receive_upload, extend_upload, resume_upload,
  measure_upload, open_upload, link_existing, upload_checked, upload_content, upload_new, upload_at,
  upload_packet, handle_puts,
}
use wind_cloud_v.Upload.Whole.{handle_puts-eq}

module _ (b : Backend) (config : Config) (link : UploadLink) (ctx : ClientContext) (arg : Bytes)
    (other : Bytes) (u : Upload) (h : str_eq other u.stored ≡ false) where
  put_content-other :
      (content : Bytes) (db : Db) → (put_content u.stored content db).store other ≡ db.store other
  unfolding put_content write_name
  put_content-other content db = rw h refl

  truncate_stored-other :
      (n : ℕ) (db : Db) → (truncate_stored b u.stored n db).store other ≡ db.store other
  unfolding truncate_stored
  truncate_stored-other n db =
      ground (arith, put_content-other (resize n (content_of u.stored db)) (tick db))

  record_upload-other : (db : Db) → (record_upload b config ctx u db).1.store other ≡ db.store other
  unfolding record_upload
  record_upload-other db =
      ap (λ s. s other)
        (finish_upload_db_work-store b config ctx u.full_path u.name u.hash u.size db)

  settle_upload-other :
      (local remaining : ℕ) (r : Outcome × ℕ × Bytes) (db : Db)
      → (settle_upload b config ctx u local remaining r db).1.store other ≡ db.store other
  unfolding settle_upload
  settle_upload-other local remaining (done, count, content) db =
      elim (Bool-cases (ltb count remaining)) [
        | inl y ↦
            rw (settle_upload, y)
              (truncate_stored-other (local + count) (put_content u.stored content db)
                ∙ put_content-other content db)
        | inr y ↦
            rw (settle_upload, y)
              (record_upload-other (put_content u.stored content db) ∙ put_content-other content db)
      ]
  settle_upload-other local remaining (failed, count, content) db = put_content-other content db
  settle_upload-other local remaining (stuck, count, content) db = put_content-other content db

  receive_upload-other :
      (file_len local : ℕ) (db : Db)
      → (receive_upload b config link ctx u file_len local db).1.store other ≡ db.store other
  unfolding receive_upload
  receive_upload-other file_len local db = elim (Bool-cases (b.fails db.calls)) [
    | inl y ↦ rw (receive_upload, y) refl
    | inr y ↦
        rw (receive_upload, y)
          (settle_upload-other local (file_len - local)
            (receive_content
              (if ltb large_file_mmap_threshold file_len then map_sink else file_sink link.writes)
              link.recvs local (file_len - local) (content_of u.stored db) link.incoming)
            (tick db))
  ]

  extend_upload-other :
      (file_len local : ℕ) (db : Db)
      → (extend_upload b config link ctx u file_len local db).1.store other ≡ db.store other
  unfolding extend_upload
  extend_upload-other file_len local db =
      let db' = put_content u.stored (resize file_len (content_of u.stored db)) (tick db) in
      elim (Bool-cases (b.fails db.calls)) [
        | inl y ↦ rw (extend_upload, y) refl
        | inr y ↦ elim (Bool-cases (file_len == 0)) [
          | inl z ↦
              rw (extend_upload, y, z)
                (record_upload-other db'
                  ∙ put_content-other (resize file_len (content_of u.stored db)) (tick db))
          | inr z ↦
              rw (extend_upload, y, z)
                (receive_upload-other file_len local db'
                  ∙ put_content-other (resize file_len (content_of u.stored db)) (tick db))
        ]
      ]

  resume_upload-other :
      (local : ℕ) (db : Db)
      → (resume_upload b config link ctx arg u local db).1.store other ≡ db.store other
  unfolding resume_upload
  resume_upload-other local db = elim (Bool-cases link.sends_packet) [
    | inr y ↦ rw (resume_upload, y) refl
    | inl y ↦ elim (Bool-cases (ltb_ℤ (pos local) u.size)) [
      | inl z ↦ rw (resume_upload, y, z) (extend_upload-other (pos_part u.size) local db)
      | inr z ↦ rw (resume_upload, y, z) (record_upload-other db)
    ]
  ]

  measure_upload-other :
      (db : Db) → (measure_upload b config link ctx arg u db).1.store other ≡ db.store other
  unfolding measure_upload
  measure_upload-other db =
      let local = if b.fails db.calls then 0 else length (content_of u.stored db) in
      elim (Bool-cases (ltb_ℤ u.size (pos local))) [
        | inl y ↦
            rw (measure_upload, y)
              (resume_upload-other 0 (truncate_stored b u.stored 0 (tick db))
                ∙ truncate_stored-other 0 (tick db))
        | inr y ↦ rw (measure_upload, y) (resume_upload-other local (tick db))
      ]

  create_name-other : (store : Store) → create_name u.stored store other ≡ store other
  unfolding create_name write_name
  create_name-other store = elim (Option-cases (store u.stored)) [
    | inl y ↦ rw (create_name, y, h) refl
    | inr (c, y) ↦ rw (create_name, y) refl
  ]

  open_upload-other :
      (db : Db) → (open_upload b config link ctx arg u db).1.store other ≡ db.store other
  unfolding open_upload
  open_upload-other db = elim (Bool-cases (b.fails db.calls)) [
    | inl y ↦ rw (open_upload, y) refl
    | inr y ↦ elim (Bool-cases (b.fails (db.calls + 1))) [
      | inl z ↦ rw (open_upload, y, z) refl
      | inr z ↦
          rw (open_upload, y, z)
            (measure_upload-other
                (record (tick (tick db)) { store = create_name u.stored db.store })
              ∙ create_name-other db.store)
    ]
  ]

  link_existing-other :
      (file : ℕ) (db : Db) → (link_existing b ctx arg u file db).1.store other ≡ db.store other
  unfolding link_existing
  link_existing-other file db = ground (
    arith,
    ap (λ s. s other) (create_user_file_link-store b config ctx u.full_path u.name file true db),
  )

  checked-other :
      (file : ℕ) (r : StoreCheck × ℕ × Db)
      → (upload_checked b config link ctx arg u file r).1.store other ≡ r.2.store other
  unfolding upload_checked
  checked-other file (unreadable, _, db) = refl
  checked-other file (ready, _, db) = link_existing-other file db
  checked-other file (incomplete, _, db) = open_upload-other db

  upload_content-other :
      (r : Option (ℕ × ℤ) × Db)
      → (upload_content b config link ctx arg u r).1.store other ≡ r.1.store other
  unfolding upload_content
  upload_content-other (none, db) = open_upload-other db
  upload_content-other (some (file, size), db) =
      checked-other file (check_store_file_ready b u.stored size db)
      ∙ ap (λ s. s other) (check_store_file_ready-store b u.stored size db)

  upload_new-other :
      (r : Option (ℕ × ℕ) × Db)
      → (upload_new b config link ctx arg u r).1.store other ≡ r.1.store other
  unfolding upload_new dao_file_find_by_sha256
  upload_new-other (some node, db) = refl
  upload_new-other (none, db) = elim (Bool-cases (is_empty u.hash)) [
    | inl y ↦ rw y refl
    | inr y ↦ rw y (upload_content-other (dao_file_find_by_sha256 b u.hash db))
  ]

  upload_at-other :
      (db : Db) → (upload_at b config link ctx arg u db).1.store other ≡ db.store other
  unfolding upload_at
  upload_at-other db = elim (Bool-cases (is_valid_vfs_name u.name)) [
    | inr y ↦ rw (upload_at, y) refl
    | inl y ↦
        rw (upload_at, y)
          (upload_new-other (dao_get_node_by_path b ctx.user_id u.full_path db)
            ∙ ap (λ s. s other) (dao_get_node_by_path-store b ctx.user_id u.full_path db))
  ]

-- An upload changes no stored file but the one that the path made of the client's hash stands for
-- (Backend's resolve of the text, which the server does not check), whichever calls fail and whatever
-- the client sends.
pub handle_puts-other :
    (b : Backend) (config : Config) (link : UploadLink) (ctx : ClientContext) (arg other : Bytes)
    (db : Db) (p : FilePacket)
    → link.file_packet ≡ some p
    → str_eq other (b.resolve (c_string p.hash)) ≡ false
    → (handle_puts b config link ctx arg db).1.store other ≡ db.store other
unfolding upload_packet
handle_puts-other b config link ctx arg other db p q h =
    ap (λ r. r.1.store other) (handle_puts-eq b config link ctx arg db p q)
    ∙ elim (Option-cases (build_full_virtual_path full_path_len ctx.current_path arg)) [
      | inl y ↦ rw (upload_packet, y) refl
      | inr (full_path, y) ↦
          rw (upload_packet, y)
            (upload_at-other b config link ctx arg other
              (record {
                full_path = full_path;
                name = extract_file_name full_path;
                hash = c_string p.hash;
                stored = b.resolve (c_string p.hash);
                size = p.file_size;
              })
              h db)
    ]
