-- ===== src/Upload/RoundTrip.antt =====
-- A file that is uploaded in whole, and then downloaded again.
use wind_cloud_v.Shared.{
  inl, ℕ, ◌+◌, ◌-◌, ◌≤◌, ◌≡◌, refl, sym, ap, ◌∙◌, true, false, List, [], ◌∷◌, none, some, arith,
  length, take, drop,
}
use wind_cloud_v.Shared.Int.{ℤ, pos}
use wind_cloud_v.Shared.Text.{Bytes, str_eq, is_empty, take_all}
use wind_cloud_v.VirtualPath.{
  full_path_len, build_full_virtual_path, extract_file_name, is_valid_vfs_name, root,
}
use wind_cloud_v.Protocol.{FilePacket, puts, c_string, init_file_packet}
use wind_cloud_v.Protocol.Stream.{NeverFails}
use wind_cloud_v.Identity.{Config, get_current_server_address}
use wind_cloud_v.Vfs.{
  Backend, Db, tick, is_literal, is_hash, find_node, select_node, dao_get_node_by_path,
}
use wind_cloud_v.Vfs.Entities.{ClientContext}
use wind_cloud_v.Vfs.Tidy.{dao_file_find-eq}
use wind_cloud_v.FileTable.{find_hash, dao_file_find_by_sha256}
use wind_cloud_v.Upload.{PutsReply, message, packet, completed, Upload, UploadLink}
use wind_cloud_v.Upload.Receive.{content_of}
use wind_cloud_v.Upload.Handler.{
  answer, record_upload, open_upload, upload_content, upload_new, upload_at, handle_puts,
}
use wind_cloud_v.Upload.Settled.{IsReliable}
use wind_cloud_v.Upload.Whole.{handle_puts-eq}
use wind_cloud_v.Upload.Counted.{upload_packet-eq}
use wind_cloud_v.Upload.Finish.{finished_db, finish_upload_db_work-eq, finished-IsAt}
use wind_cloud_v.Upload.Complete.{IsRecorded, open_upload-IsRecorded}
use wind_cloud_v.Download.{DownloadLink, effective_range, handle_gets}
use wind_cloud_v.Download.Window.{IsBoundedLink, NeverBreaks}
use wind_cloud_v.Download.Whole.{content_at, IsAt-content_at, handle_gets_common-complete}

-- The client is told how much is stored and then that the upload is complete, and the path stands
-- for `f`.
abbrev pub IsStored : Backend → ℤ → Bytes → Bytes → Bytes → ℕ → List PutsReply × Db → Type 0
IsStored b user arg target f n (replies, db) =
    (replies ≡ (
      packet (init_file_packet puts (some arg) (pos (length f)) (pos n) none)
      ∷ (message completed ∷ [])))
    × (content_at b user target db ≡ some f)

not_empty : (s : Bytes) → is_hash s ≡ true → is_empty s ≡ false
unfolding is_hash
not_empty [] h = absurd (ground arith)
not_empty (c ∷ s) h = refl

not_found :
    (b : Backend) (works : (k : ℕ) → b.fails k ≡ false) (ctx : ClientContext) (path : Bytes)
    → is_literal 255 path ≡ true
    → (db : Db) → str_eq path root ≡ false
    → find_node b ctx.user_id path db.paths ≡ none
    → dao_get_node_by_path b ctx.user_id path db ≡ (none, tick db)
unfolding dao_get_node_by_path select_node
not_found b works ctx path path_ok db below free = rw (below, works db.calls, path_ok, free) refl

module _ (b : Backend) (works : (k : ℕ) → b.fails k ≡ false) (config : Config) (ip port : Bytes)
    (address : get_current_server_address config ≡ some (ip, port)) (has_ip : is_empty ip ≡ false)
    (has_port : is_empty port ≡ false) (link : UploadLink) (reliable : IsReliable link)
    (flows : NeverFails link.recvs) (sent : link.sends_packet ≡ true) (ctx : ClientContext)
    (arg f : Bytes) (n : ℕ) (h : n ≤ length f) (rest : link.incoming ≡ drop n f) where
  module _ (u : Upload) (size : u.size ≡ pos (length f))
      (path_ok : is_literal 255 u.full_path ≡ true) (name_ok : is_literal 30 u.name ≡ true)
      (has_hash : is_empty u.hash ≡ false) (valid : is_hash u.hash ≡ true)
      (same : u.stored ≡ u.hash) where
    record_upload-eq :
        (db : Db) (free : find_node b ctx.user_id u.full_path db.paths ≡ none)
        (unknown : find_hash u.hash db.files ≡ none)
        → record_upload b config ctx u db ≡ (
          message completed ∷ [],
          finished_db b works config ip port address has_ip has_port ctx u.full_path u.name path_ok
              name_ok u.hash valid u.size db free unknown,
        )
    unfolding record_upload
    record_upload-eq db free unknown = ap answer (
        finish_upload_db_work-eq b works config ip port address has_ip has_port ctx u.full_path
          u.name path_ok name_ok u.hash valid u.size db free unknown)

    IsRecorded-IsStored :
        (db : Db) (r : List PutsReply × Db)
        → find_node b ctx.user_id u.full_path db.paths ≡ none
        → find_hash u.hash db.files ≡ none
        → IsRecorded b config ctx arg u f n db r
        → IsStored b ctx.user_id arg u.full_path f n r
    IsRecorded-IsStored db r free unknown w =
        let free' = ap (find_node b ctx.user_id u.full_path) w.paths ∙ free in
        let unknown' = ap (find_hash u.hash) w.files ∙ unknown in
        rw (w.outcome, record_upload-eq w.whole free' unknown')
          (
            ap
                (λ s.
                  packet (init_file_packet puts (some arg) s (pos n) none)
                  ∷ (message completed ∷ []))
                size,
            IsAt-content_at b ctx.user_id u.full_path _ f (
                finished-IsAt b works config ip port address has_ip has_port ctx u.full_path u.name
                  path_ok name_ok u.hash valid u.size w.whole free' unknown' f
                  (ap w.whole.store (sym same) ∙ w.stored)),
          )

    upload_content-IsStored :
        (db : Db)
        → find_node b ctx.user_id u.full_path db.paths ≡ none
        → find_hash u.hash db.files ≡ none
        → content_of u.stored db ≡ take n f
        → IsStored b ctx.user_id arg u.full_path f n
            (upload_content b config link ctx arg u (dao_file_find_by_sha256 b u.hash db))
    unfolding upload_content
    upload_content-IsStored db free unknown e =
        rw (dao_file_find-eq b works u.hash valid db unknown) (
          IsRecorded-IsStored (tick db) (open_upload b config link ctx arg u (tick db)) free unknown
            (open_upload-IsRecorded b works config link reliable flows sent ctx arg f u size n h
              rest (tick db) e))

    upload_new-IsStored :
        (db : Db)
        → find_node b ctx.user_id u.full_path db.paths ≡ none
        → find_hash u.hash db.files ≡ none
        → content_of u.stored db ≡ take n f
        → IsStored b ctx.user_id arg u.full_path f n (upload_new b config link ctx arg u (none, db))
    unfolding upload_new
    upload_new-IsStored db free unknown e = rw has_hash (upload_content-IsStored db free unknown e)

    upload_at-IsStored :
        (db : Db)
        → str_eq u.full_path root ≡ false
        → is_valid_vfs_name u.name ≡ true
        → find_node b ctx.user_id u.full_path db.paths ≡ none
        → find_hash u.hash db.files ≡ none
        → content_of u.stored db ≡ take n f
        → IsStored b ctx.user_id arg u.full_path f n (upload_at b config link ctx arg u db)
    unfolding upload_at
    upload_at-IsStored db below valid free unknown e =
        rw (upload_at, valid, looked_up) (upload_new-IsStored (tick db) free unknown e)
      where
        looked_up : dao_get_node_by_path b ctx.user_id u.full_path db ≡ (none, tick db)
        looked_up = not_found b works ctx u.full_path path_ok db below free

  -- An upload that nothing breaks off succeeds: where the first n bytes of `f` are stored under its
  -- hash (none of them for a new upload) and the client sends the others, it is told of the n bytes
  -- and then that the upload is complete, and the path stands for `f`. (No call fails, the server has
  -- an address, the path is free, not the root, and a plain text that fits its column, its last name
  -- a valid one, and no record has the hash, which is 64 digits in lower case.)
  pub handle_puts-IsStored :
      (target : Bytes) (p : FilePacket) (db : Db)
      → link.file_packet ≡ some p
      → p.file_size ≡ pos (length f)
      → is_hash (c_string p.hash) ≡ true
      → build_full_virtual_path full_path_len ctx.current_path arg ≡ some target
      → str_eq target root ≡ false
      → is_literal 255 target ≡ true
      → is_literal 30 (extract_file_name target) ≡ true
      → is_valid_vfs_name (extract_file_name target) ≡ true
      → find_node b ctx.user_id target db.paths ≡ none
      → find_hash (c_string p.hash) db.files ≡ none
      → content_of (c_string p.hash) db ≡ take n f
      → IsStored b ctx.user_id arg target f n (handle_puts b config link ctx arg db)
  handle_puts-IsStored target p db q size has_hash e below path_ok name_ok valid free unknown held =
      rw
        (handle_puts-eq b config link ctx arg db p q, upload_packet-eq b config link ctx arg p db e)
        (upload_at-IsStored
          (record {
            full_path = target;
            name = extract_file_name target;
            hash = c_string p.hash;
            stored = b.resolve (c_string p.hash);
            size = p.file_size;
          })
          size path_ok name_ok (not_empty (c_string p.hash) has_hash) has_hash
          (b.resolve-hash (c_string p.hash) has_hash) db below valid free unknown
          (rw (b.resolve-hash (c_string p.hash) has_hash) held))

take_whole : (f : Bytes) → take (length f - (0 + 0)) (drop (0 + 0) f) ≡ f
take_whole f = take_all (length f - (0 + 0)) f (omega arith)

-- A file that was uploaded comes back: once the whole of it is stored under a path, as
-- handle_puts-IsStored says, a download of that path, in the same session and from offset 0, is
-- complete and sends exactly the bytes of `f`. (No call fails, the upload's conditions hold, the
-- client answers the packet with the size, and the path is the same text from the session's directory.)
pub handle_puts-handle_gets :
    (b : Backend) (works : (k : ℕ) → b.fails k ≡ false) (config : Config) (ip port : Bytes)
    (address : get_current_server_address config ≡ some (ip, port)) (has_ip : is_empty ip ≡ false)
    (has_port : is_empty port ≡ false) (link : UploadLink) (reliable : IsReliable link)
    (flows : NeverFails link.recvs) (sent : link.sends_packet ≡ true) (down : DownloadLink)
    (bounded : IsBoundedLink down) (never : NeverBreaks true down)
    (down_sent : down.sends_packet ≡ true) (ctx : ClientContext) (arg f target : Bytes) (n : ℕ)
    (p wanted : FilePacket) (db : Db)
    → n ≤ length f
    → link.incoming ≡ drop n f
    → link.file_packet ≡ some p
    → p.file_size ≡ pos (length f)
    → is_hash (c_string p.hash) ≡ true
    → build_full_virtual_path full_path_len ctx.current_path arg ≡ some target
    → str_eq target root ≡ false
    → is_literal 255 target ≡ true
    → is_literal 30 (extract_file_name target) ≡ true
    → is_valid_vfs_name (extract_file_name target) ≡ true
    → find_node b ctx.user_id target db.paths ≡ none
    → find_hash (c_string p.hash) db.files ≡ none
    → content_of (c_string p.hash) db ≡ take n f
    → down.client_packet ≡ some wanted
    → wanted.offset ≡ pos 0
    → let r = handle_gets b down ctx arg (handle_puts b config link ctx arg db).1 in
      (r.0.complete ≡ true) × (r.0.sent ≡ f)
unfolding handle_gets effective_range
handle_puts-handle_gets b works config ip port address has_ip has_port link reliable flows sent down
      bounded never down_sent ctx arg f target n p wanted db h rest q size has_hash e below path_ok
      name_ok valid free unknown held got at_start =
    let (replies, stored) =
      handle_puts-IsStored b works config ip port address has_ip has_port link reliable flows sent
        ctx arg f n h rest target p db q size has_hash e below path_ok name_ok valid free unknown
        held in
    let (whole, bytes) =
      handle_gets_common-complete b down ctx arg target f none 0 (length f) 0 wanted
        (handle_puts b config link ctx arg db).1 works bounded never down_sent got e path_ok stored
        (refl, refl) (inl (at_start, omega arith)) in
    (whole, bytes ∙ take_whole f)
