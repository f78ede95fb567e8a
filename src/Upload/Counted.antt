-- ===== src/Upload/Counted.antt =====
-- The stages of handle_puts on the tidy tables of Vfs.Refcount.
use wind_cloud_v.Shared.{
  ℕ, ◌+◌, ◌-◌, ◌≡◌, refl, ◌⊎◌, inl, inr, true, false, none, some, arith, length, if◌then◌else◌, ltb,
  ◌==◌, Bool-cases, Option-cases,
}
use wind_cloud_v.Shared.Int.{ℤ, pos, pos_part, ltb_ℤ}
use wind_cloud_v.Shared.Text.{Bytes, str_eq, is_empty}
use wind_cloud_v.VirtualPath.{
  full_path_len, build_full_virtual_path, extract_file_name, is_valid_vfs_name, root,
}
use wind_cloud_v.Protocol.{FilePacket, c_string}
use wind_cloud_v.Protocol.Stream.{Outcome, done, failed, stuck}
use wind_cloud_v.Identity.{Config}
use wind_cloud_v.Vfs.{
  Backend, Db, FileRow, tick, is_literal, is_hash, find_node, select_node, dao_get_node_by_path,
}
use wind_cloud_v.Vfs.Entities.{ClientContext, create_name}
use wind_cloud_v.Vfs.Refcount.{IsTidy}
use wind_cloud_v.Vfs.Tidy.{dao_file_find-eq, link_row-IsTidy}
use wind_cloud_v.FileTable.{find_hash, dao_file_find_by_sha256}
use wind_cloud_v.Upload.{
  large_file_mmap_threshold, StoreCheck, unreadable, incomplete, ready, Upload, UploadLink,
  check_store_file_ready, create_user_file_link,
}
use wind_cloud_v.Upload.Receive.{
  content_of, put_content, resize, receive_content, file_sink, map_sink,
}
use wind_cloud_v.Upload.Tidy.{
  finish_upload_db_work-IsTidy, create_user_file_link-counted, same-IsTidy,
}
use wind_cloud_v.Upload.Handler.{
  truncate_stored, record_upload, settle_upload, receive_upload, extend_upload, resume_upload,
  measure_upload, open_upload, link_existing, upload_checked, upload_content, upload_new, upload_at,
  upload_packet, handle_puts,
}
use wind_cloud_v.Upload.Whole.{handle_puts-eq}

-- The tables are tidy and the path is free.
record IsOpen (b : Backend) (ctx : ClientContext) (u : Upload) (db : Db) : Type 0 where
  pub tidy : IsTidy db
  pub free : find_node b ctx.user_id u.full_path db.paths ≡ none

module _ (b : Backend) (works : (k : ℕ) → b.fails k ≡ false) (config : Config) (link : UploadLink)
    (ctx : ClientContext) (arg : Bytes) (u : Upload) (path_ok : is_literal 255 u.full_path ≡ true)
    (name_ok : is_literal 30 u.name ≡ true) (valid : is_hash u.hash ≡ true) where
  same :
      {db db' : Db}
      → db'.paths ≡ db.paths
      → db'.files ≡ db.files
      → IsOpen b ctx u db
      → IsOpen b ctx u db'
  same p f t = record { tidy = same-IsTidy p f t.tidy; free = rw p t.free }

  put_content-IsOpen :
      (content : Bytes) (db : Db)
      → IsOpen b ctx u db
      → IsOpen b ctx u (put_content u.stored content db)
  unfolding put_content
  put_content-IsOpen content db t = same refl refl t

  truncate_stored-IsOpen :
      (n : ℕ) (db : Db) → IsOpen b ctx u db → IsOpen b ctx u (truncate_stored b u.stored n db)
  unfolding truncate_stored put_content
  truncate_stored-IsOpen n db t = same (ground arith) (ground arith) t

  record_upload-IsTidy : (db : Db) → IsOpen b ctx u db → IsTidy (record_upload b config ctx u db).1
  unfolding record_upload
  record_upload-IsTidy db t =
      finish_upload_db_work-IsTidy b works ctx u.full_path u.name path_ok name_ok config u.hash
        valid u.size db t.free t.tidy

  settle_upload-IsTidy :
      (local remaining : ℕ) (r : Outcome × ℕ × Bytes) (db : Db)
      → IsOpen b ctx u db
      → IsTidy (settle_upload b config ctx u local remaining r db).1
  unfolding settle_upload
  settle_upload-IsTidy local remaining (done, count, content) db t =
      let t' = put_content-IsOpen content db t in
      elim (Bool-cases (ltb count remaining)) [
        | inl y ↦
            rw (settle_upload, y)
              (truncate_stored-IsOpen (local + count) (put_content u.stored content db) t').tidy
        | inr y ↦ rw (settle_upload, y) (record_upload-IsTidy (put_content u.stored content db) t')
      ]
  settle_upload-IsTidy local remaining (failed, count, content) db t =
      (put_content-IsOpen content db t).tidy
  settle_upload-IsTidy local remaining (stuck, count, content) db t =
      (put_content-IsOpen content db t).tidy

  receive_upload-IsTidy :
      (file_len local : ℕ) (db : Db)
      → IsOpen b ctx u db
      → IsTidy (receive_upload b config link ctx u file_len local db).1
  unfolding receive_upload
  receive_upload-IsTidy file_len local db t =
      rw (receive_upload, works db.calls)
        (settle_upload-IsTidy local (file_len - local)
          (receive_content
            (if ltb large_file_mmap_threshold file_len then map_sink else file_sink link.writes)
            link.recvs local (file_len - local) (content_of u.stored db) link.incoming)
          (tick db) (same refl refl t))

  extend_upload-IsTidy :
      (file_len local : ℕ) (db : Db)
      → IsOpen b ctx u db
      → IsTidy (extend_upload b config link ctx u file_len local db).1
  unfolding extend_upload
  extend_upload-IsTidy file_len local db t =
      let content = resize file_len (content_of u.stored db) in
      let t' = put_content-IsOpen content (tick db) (same refl refl t) in
      elim (Bool-cases (file_len == 0)) [
        | inl z ↦
            rw (extend_upload, works db.calls, z)
              (record_upload-IsTidy (put_content u.stored content (tick db)) t')
        | inr z ↦
            rw (extend_upload, works db.calls, z)
              (receive_upload-IsTidy file_len local (put_content u.stored content (tick db)) t')
      ]

  resume_upload-IsTidy :
      (local : ℕ) (db : Db)
      → IsOpen b ctx u db
      → IsTidy (resume_upload b config link ctx arg u local db).1
  unfolding resume_upload
  resume_upload-IsTidy local db t = elim (Bool-cases link.sends_packet) [
    | inr y ↦ rw (resume_upload, y) t.tidy
    | inl y ↦ elim (Bool-cases (ltb_ℤ (pos local) u.size)) [
      | inl z ↦ rw (resume_upload, y, z) (extend_upload-IsTidy (pos_part u.size) local db t)
      | inr z ↦ rw (resume_upload, y, z) (record_upload-IsTidy db t)
    ]
  ]

  measure_upload-IsTidy :
      (db : Db) → IsOpen b ctx u db → IsTidy (measure_upload b config link ctx arg u db).1
  unfolding measure_upload
  measure_upload-IsTidy db t =
      let local = if b.fails db.calls then 0 else length (content_of u.stored db) in
      elim (Bool-cases (ltb_ℤ u.size (pos local))) [
        | inl y ↦
            rw (measure_upload, y)
              (resume_upload-IsTidy 0 (truncate_stored b u.stored 0 (tick db))
                (truncate_stored-IsOpen 0 (tick db) (same refl refl t)))
        | inr y ↦ rw (measure_upload, y) (resume_upload-IsTidy local (tick db) (same refl refl t))
      ]

  open_upload-IsTidy :
      (db : Db) → IsOpen b ctx u db → IsTidy (open_upload b config link ctx arg u db).1
  unfolding open_upload
  open_upload-IsTidy db t =
      rw (open_upload, works db.calls, works (db.calls + 1))
        (measure_upload-IsTidy (record (tick (tick db)) { store = create_name u.stored db.store })
          (same refl refl t))

  link_existing-IsTidy :
      (hash : Bytes) (row : FileRow) (db : Db)
      → find_hash hash db.files ≡ some row
      → IsTidy db
      → IsTidy (link_existing b ctx arg u row.id db).1
  unfolding link_existing
  link_existing-IsTidy hash row db e t =
      let linked = link_row-IsTidy b works ctx u.full_path u.name path_ok name_ok hash db e t in
      let r = create_user_file_link b ctx u.full_path u.name row.id true db in
      let same_link =
        create_user_file_link-counted b works ctx u.full_path u.name path_ok name_ok row.id db in
      elim (Bool-cases r.0) [
        | inl y ↦ rw (link_existing, y, same_link) linked
        | inr y ↦ rw (link_existing, y, same_link) linked
      ]

  upload_checked-IsTidy :
      (hash : Bytes) (row : FileRow) (r : StoreCheck × ℕ × Db)
      → find_hash hash r.2.files ≡ some row
      → IsOpen b ctx u r.2
      → IsTidy (upload_checked b config link ctx arg u row.id r).1
  unfolding upload_checked
  upload_checked-IsTidy hash row (unreadable, _, db) e t = t.tidy
  upload_checked-IsTidy hash row (ready, _, db) e t = link_existing-IsTidy hash row db e t.tidy
  upload_checked-IsTidy hash row (incomplete, _, db) e t = open_upload-IsTidy db t

  check_store_file_ready-db :
      (hash : Bytes) (size : ℤ) (db : Db) → (check_store_file_ready b hash size db).2 ≡ tick db
  unfolding check_store_file_ready
  check_store_file_ready-db hash size db = ground arith

  upload_content-IsTidy :
      (db : Db)
      → IsOpen b ctx u db
      → IsTidy (upload_content b config link ctx arg u (dao_file_find_by_sha256 b u.hash db)).1
  unfolding upload_content
  upload_content-IsTidy db t = elim (Option-cases (find_hash u.hash db.files)) [
    | inl e ↦
        rw (dao_file_find-eq b works u.hash valid db e)
          (open_upload-IsTidy (tick db) (same refl refl t))
    | inr (row, e) ↦
        let r = check_store_file_ready b u.stored row.size (tick db) in
        let after = check_store_file_ready-db u.stored row.size (tick db) in
        rw (dao_file_find-eq b works u.hash valid db e)
          (upload_checked-IsTidy u.hash row r (rw after e) (rw after (same refl refl t)))
  ]

  upload_new-IsTidy :
      (db : Db) → IsOpen b ctx u db → IsTidy (upload_new b config link ctx arg u (none, db)).1
  unfolding upload_new
  upload_new-IsTidy db t = elim (Bool-cases (is_empty u.hash)) [
    | inl y ↦ rw y t.tidy
    | inr y ↦ rw y (upload_content-IsTidy db t)
  ]

  -- What the lookup of the path says.
  looked_up :
      (db : Db)
      → str_eq u.full_path root ≡ false
      → (dao_get_node_by_path b ctx.user_id u.full_path db ≡ (none, tick db))
          × (find_node b ctx.user_id u.full_path db.paths ≡ none)
        ⊎ ((node : ℕ × ℕ) × (dao_get_node_by_path b ctx.user_id u.full_path db
              ≡ (some node, tick db)))
  unfolding dao_get_node_by_path select_node
  looked_up db h = elim (Option-cases (find_node b ctx.user_id u.full_path db.paths)) [
    | inl e ↦ inl (rw (h, works db.calls, path_ok, e) refl, e)
    | inr (row, e) ↦ inr ((row.id, row.node_type), rw (h, works db.calls, path_ok, e) refl)
  ]

  upload_at-IsTidy :
      (db : Db)
      → str_eq u.full_path root ≡ false
      → IsTidy db
      → IsTidy (upload_at b config link ctx arg u db).1
  unfolding upload_at upload_new
  upload_at-IsTidy db h t =
      let t' : IsTidy (tick db) = same-IsTidy refl refl t in
      elim (Bool-cases (is_valid_vfs_name u.name)) [
        | inr y ↦ rw (upload_at, y) t
        | inl y ↦ elim (looked_up db h) [
          | inl (e, free) ↦
              rw (upload_at, y, e) (upload_new-IsTidy (tick db) (record { tidy = t'; free = free }))
          | inr (node, e) ↦ rw (upload_at, y, e) t'
        ]
      ]

pub upload_packet-eq :
    (b : Backend) (config : Config) (link : UploadLink) (ctx : ClientContext) (arg : Bytes)
    (p : FilePacket) (db : Db) {target : Bytes}
    → build_full_virtual_path full_path_len ctx.current_path arg ≡ some target
    → upload_packet b config link ctx arg p db
      ≡ upload_at b config link ctx arg
          (record {
            full_path = target;
            name = extract_file_name target;
            hash = c_string p.hash;
            stored = b.resolve (c_string p.hash);
            size = p.file_size;
          })
          db
unfolding upload_packet
upload_packet-eq b config link ctx arg p db e = rw (upload_packet, e) refl

-- An upload keeps the tables tidy while no call fails: each record of `files` counts exactly the
-- nodes that refer to it. (The path and its last name are
-- plain texts that fit their columns, and the hash is 64 digits in lower case.) It
-- holds for the node of a new file, of a file that is recorded, and of one that was found complete.
pub handle_puts-IsTidy :
    (b : Backend) (config : Config) (link : UploadLink) (ctx : ClientContext) (arg target : Bytes)
    (p : FilePacket) (db : Db)
    → ((k : ℕ) → b.fails k ≡ false)
    → link.file_packet ≡ some p
    → build_full_virtual_path full_path_len ctx.current_path arg ≡ some target
    → str_eq target root ≡ false
    → is_literal 255 target ≡ true
    → is_literal 30 (extract_file_name target) ≡ true
    → is_hash (c_string p.hash) ≡ true
    → IsTidy db
    → IsTidy (handle_puts b config link ctx arg db).1
handle_puts-IsTidy b config link ctx arg target p db works q e h path_ok name_ok valid t =
    rw (handle_puts-eq b config link ctx arg db p q, upload_packet-eq b config link ctx arg p db e)
      (upload_at-IsTidy b works config link ctx arg
        (record {
          full_path = target;
          name = extract_file_name target;
          hash = c_string p.hash;
          stored = b.resolve (c_string p.hash);
          size = p.file_size;
        })
        path_ok name_ok valid db h t)
