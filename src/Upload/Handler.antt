-- ===== src/Upload/Handler.antt =====
-- src/server/file/file_transfer.c: handle_puts, in the order of its stages, the last first.
use wind_cloud_v.Shared.{
  ℕ, ◌+◌, ◌-◌, Bool, true, not, List, [], ◌∷◌, Option, none, some, ltb, ◌==◌, if◌then◌else◌, length,
}
use wind_cloud_v.Shared.Int.{ℤ, pos, ltb_ℤ, pos_part}
use wind_cloud_v.Shared.Text.{Bytes, is_empty}
use wind_cloud_v.VirtualPath.{
  full_path_len, build_full_virtual_path, extract_file_name, is_valid_vfs_name,
}
use wind_cloud_v.Protocol.{FilePacket, puts, c_string, init_file_packet}
use wind_cloud_v.Protocol.Stream.{Outcome, done, failed, stuck}
use wind_cloud_v.Identity.{Config}
use wind_cloud_v.Vfs.{Backend, Db, tick, dao_get_node_by_path}
use wind_cloud_v.Vfs.Entities.{ClientContext, create_name}
use wind_cloud_v.FileTable.{dao_file_find_by_sha256}
use wind_cloud_v.Upload.{
  large_file_mmap_threshold, info_failed, bad_path, bad_name, exists_already, no_hash,
  unreadable_store, fast_failed, path_failed, create_failed, extend_failed, map_failed, seek_failed,
  write_failed, saved_progress, record_failed, completed, PutsReply, message, packet, unreadable,
  StoreCheck, incomplete, ready, check_store_file_ready, create_user_file_link,
  finish_upload_db_work, UploadLink, Upload,
}
use wind_cloud_v.Upload.Receive.{
  resize, file_sink, map_sink, receive_content, content_of, put_content,
}

-- An ftruncate whose result is not looked at.
unfoldable pub truncate_stored : Backend → Bytes → ℕ → Db → Db
unfolding resize put_content
truncate_stored b hash n db =
    if b.fails db.calls then tick db else put_content hash (resize n (content_of hash db)) (tick db)

abbrev pub answer : Bool × Db → List PutsReply × Db
answer r = ((message (if r.0 then completed else record_failed)) ∷ [], r.1)

unfoldable pub record_upload : Backend → Config → ClientContext → Upload → Db → List PutsReply × Db
unfolding finish_upload_db_work
record_upload b config ctx u db =
    answer (finish_upload_db_work b config ctx u.full_path u.name u.hash u.size db)

-- What follows the loop.
unfoldable pub settle_upload :
    Backend
    → Config
    → ClientContext
    → Upload
    → ℕ
    → ℕ
    → Outcome × ℕ × Bytes
    → Db
    → List PutsReply × Db
unfolding truncate_stored record_upload put_content
settle_upload b config ctx u local remaining (failed, count, content) db =
    (message write_failed ∷ [], put_content u.stored content db)
settle_upload b config ctx u local remaining (stuck, count, content) db =
    ([], put_content u.stored content db)
settle_upload b config ctx u local remaining (done, count, content) db =
    if ltb count remaining
    then (
      message saved_progress ∷ [],
      truncate_stored b u.stored (local + count) (put_content u.stored content db),
    )
    else record_upload b config ctx u (put_content u.stored content db)

-- The file has its full length, and `local` bytes of it are there: mmap or lseek, and the loop.
unfoldable pub receive_upload :
    Backend → Config → UploadLink → ClientContext → Upload → ℕ → ℕ → Db → List PutsReply × Db
unfolding receive_content settle_upload file_sink map_sink
receive_upload b config link ctx u file_len local db =
    let large = ltb large_file_mmap_threshold file_len in
    if b.fails db.calls
    then (message (if large then map_failed else seek_failed) ∷ [], tick db)
    else settle_upload b config ctx u local (file_len - local)
        (receive_content (if large then map_sink else file_sink link.writes) link.recvs local
          (file_len - local) (content_of u.stored db) link.incoming)
        (tick db)

-- Bytes are missing: the file gets its full length first.
unfoldable pub extend_upload :
    Backend → Config → UploadLink → ClientContext → Upload → ℕ → ℕ → Db → List PutsReply × Db
unfolding resize put_content record_upload receive_upload
extend_upload b config link ctx u file_len local db =
    if b.fails db.calls
    then (message extend_failed ∷ [], tick db)
    else (let db' = put_content u.stored (resize file_len (content_of u.stored db)) (tick db) in
        if file_len == 0
        then record_upload b config ctx u db'
        else receive_upload b config link ctx u file_len local db')

-- `local` bytes are stored, which the client is told in an answer to its packet.
unfoldable pub resume_upload :
    Backend → Config → UploadLink → ClientContext → Bytes → Upload → ℕ → Db → List PutsReply × Db
unfolding init_file_packet record_upload extend_upload
resume_upload b config link ctx arg u local db =
    let told = packet (init_file_packet puts (some arg) u.size (pos local) none) in
    if not link.sends_packet
    then (told ∷ [], db)
    else (let r =
          if ltb_ℤ (pos local) u.size
          then extend_upload b config link ctx u (pos_part u.size) local db
          else record_upload b config ctx u db in
        (told ∷ r.0, r.1))

-- The size on disk, which is 0 where fstat fails. A file larger than the client's starts anew.
unfoldable pub measure_upload :
    Backend → Config → UploadLink → ClientContext → Bytes → Upload → Db → List PutsReply × Db
unfolding truncate_stored resume_upload
measure_upload b config link ctx arg u db =
    let local = if b.fails db.calls then 0 else length (content_of u.stored db) in
    if ltb_ℤ u.size (pos local)
    then resume_upload b config link ctx arg u 0 (truncate_stored b u.stored 0 (tick db))
    else resume_upload b config link ctx arg u local (tick db)

-- The path of the stored file is built and the file is opened.
unfoldable pub open_upload :
    Backend → Config → UploadLink → ClientContext → Bytes → Upload → Db → List PutsReply × Db
unfolding create_name measure_upload
open_upload b config link ctx arg u db =
    if b.fails db.calls
    then (message path_failed ∷ [], tick db)
    else if b.fails (db.calls + 1)
    then (message create_failed ∷ [], tick (tick db))
    else measure_upload b config link ctx arg u
        (record (tick (tick db)) { store = create_name u.stored db.store })

-- A file with this hash is recorded and complete: a node is all that it takes.
unfoldable pub link_existing :
    Backend → ClientContext → Bytes → Upload → ℕ → Db → List PutsReply × Db
unfolding create_user_file_link init_file_packet
link_existing b ctx arg u file db =
    let r = create_user_file_link b ctx u.full_path u.name file true db in
    if r.0
    then (packet (init_file_packet puts (some arg) u.size (pos 0) (some u.hash)) ∷ [], r.1)
    else (message fast_failed ∷ [], r.1)

-- What follows the check of the stored file.
unfoldable pub upload_checked :
    Backend
    → Config
    → UploadLink
    → ClientContext
    → Bytes
    → Upload
    → ℕ
    → StoreCheck × ℕ × Db
    → List PutsReply × Db
unfolding link_existing open_upload
upload_checked b config link ctx arg u file (unreadable, _, db) =
    (message unreadable_store ∷ [], db)
upload_checked b config link ctx arg u file (ready, _, db) = link_existing b ctx arg u file db
upload_checked b config link ctx arg u file (incomplete, _, db) =
    open_upload b config link ctx arg u db

-- What follows the lookup of the hash.
unfoldable pub upload_content :
    Backend
    → Config
    → UploadLink
    → ClientContext
    → Bytes
    → Upload
    → Option (ℕ × ℤ) × Db
    → List PutsReply × Db
unfolding check_store_file_ready upload_checked open_upload
upload_content b config link ctx arg u (none, db) = open_upload b config link ctx arg u db
upload_content b config link ctx arg u (some (file, size), db) =
    upload_checked b config link ctx arg u file (check_store_file_ready b u.stored size db)

-- What follows the lookup of the path.
unfoldable pub upload_new :
    Backend
    → Config
    → UploadLink
    → ClientContext
    → Bytes
    → Upload
    → Option (ℕ × ℕ) × Db
    → List PutsReply × Db
unfolding init_file_packet upload_content dao_file_find_by_sha256
upload_new b config link ctx arg u (some _, db) = (
  packet (init_file_packet puts (some arg) u.size u.size none) ∷ (message exists_already ∷ []),
  db,
)
upload_new b config link ctx arg u (none, db) =
    if is_empty u.hash
    then (message no_hash ∷ [], db)
    else upload_content b config link ctx arg u (dao_file_find_by_sha256 b u.hash db)

unfoldable pub upload_at :
    Backend → Config → UploadLink → ClientContext → Bytes → Upload → Db → List PutsReply × Db
unfolding is_valid_vfs_name upload_new dao_get_node_by_path
upload_at b config link ctx arg u db =
    if not (is_valid_vfs_name u.name)
    then (message bad_name ∷ [], db)
    else upload_new b config link ctx arg u (dao_get_node_by_path b ctx.user_id u.full_path db)

-- The client's packet has come.
unfoldable pub upload_packet :
    Backend → Config → UploadLink → ClientContext → Bytes → FilePacket → Db → List PutsReply × Db
unfolding build_full_virtual_path extract_file_name upload_at c_string
upload_packet b config link ctx arg p db =
    elim (build_full_virtual_path full_path_len ctx.current_path arg) [
      | none ↦ (message bad_path ∷ [], db)
      | some full_path ↦
          upload_at b config link ctx arg
            (record {
              full_path = full_path;
              name = extract_file_name full_path;
              hash = c_string p.hash;
              stored = b.resolve (c_string p.hash);
              size = p.file_size;
            })
            db
    ]

unfoldable pub handle_puts :
    Backend → Config → UploadLink → ClientContext → Bytes → Db → List PutsReply × Db
unfolding upload_packet
handle_puts b config link ctx arg db = elim link.file_packet [
  | none ↦ (message info_failed ∷ [], db)
  | some p ↦ upload_packet b config link ctx arg p db
]
