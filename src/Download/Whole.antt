-- ===== src/Download/Whole.antt =====
-- handle_gets and handle_gets_range as a whole: the stages before the transfer.
use wind_cloud_v.Shared.{
  ℕ, ◌+◌, ◌-◌, ◌≡◌, refl, ap, ◌⊎◌, inl, inr, true, false, [], Option, none, some, arith, ◌==◌, not,
  if◌then◌else◌, length, take, drop, Bool-cases, Option-cases,
}
use wind_cloud_v.Shared.Int.{ℤ}
use wind_cloud_v.Shared.Text.{Bytes, ◌>>=◌}
use wind_cloud_v.VirtualPath.{full_path_len, build_full_virtual_path}
use wind_cloud_v.Protocol.{FilePacket}
use wind_cloud_v.Vfs.{
  Backend, Db, PathRow, FileRow, tick, is_literal, find_node, select_node,
  dao_get_file_info_by_path,
}
use wind_cloud_v.Vfs.Entities.{ClientContext}
use wind_cloud_v.FileTable.{find_file, dao_file_get_info_by_id}
use wind_cloud_v.Download.{
  DownloadLink, Download, effective_range, send_gets_failed_packet, send_content, open_stored,
  send_recorded, send_found, handle_gets_common,
}
use wind_cloud_v.Download.Window.{
  IsBoundedLink, NeverBreaks, IsServed, effective_range-inside, InRange, Skips,
  effective_range-InRange, InRange-effective_range, Skips-resume_offset, offer_range-IsServed,
  offer_range-complete,
}

abbrev pub file_of : PathRow → Option ℕ
file_of row = if row.node_type == 0 then row.file_id else none

-- The stored content that a path of the virtual tree stands for.
unfoldable pub content_at : Backend → ℤ → Bytes → Db → Option Bytes
content_at b user path db = find_node b user path db.paths >>= λ row.
    file_of row >>= λ file. find_file file db.files >>= λ record_of. db.store record_of.sha256sum

-- The steps from a path to its content.
pub record IsAt (b : Backend) (user : ℤ) (path : Bytes) (db : Db) (content : Bytes) : Type 0 where
  pub row : PathRow
  pub file : ℕ
  pub entity : FileRow
  pub found : find_node b user path db.paths ≡ some row
  pub refers : file_of row ≡ some file
  pub recorded : find_file file db.files ≡ some entity
  pub stored : db.store entity.sha256sum ≡ some content

content_at-IsAt :
    (b : Backend) (user : ℤ) (path : Bytes) (db : Db) (content : Bytes)
    → content_at b user path db ≡ some content
    → IsAt b user path db content
unfolding content_at
content_at-IsAt b user path db content e = elim (Option-cases (find_node b user path db.paths)) [
  | inl x ↦ absurd (ground (arith, rw (content_at, x) at e))
  | inr (row, x) ↦ elim (Option-cases (file_of row)) [
    | inl y ↦ absurd (ground (arith, rw (content_at, x, y) at e))
    | inr (file, y) ↦ elim (Option-cases (find_file file db.files)) [
      | inl z ↦ absurd (ground (arith, rw (content_at, x, y, z) at e))
      | inr (entity, z) ↦ record {
        row = row;
        file = file;
        entity = entity;
        found = x;
        refers = y;
        recorded = z;
        stored = rw (content_at, x, y, z) at e;
      }
    ]
  ]
]

pub IsAt-content_at :
    (b : Backend) (user : ℤ) (path : Bytes) (db : Db) (content : Bytes)
    → IsAt b user path db content
    → content_at b user path db ≡ some content
unfolding content_at
IsAt-content_at b user path db content a = rw (content_at, a.found, a.refers, a.recorded) a.stored

-- Nothing went out, or bytes of the range of this content.
abbrev pub FromContent : DownloadLink → Option (ℤ × ℤ) → Bytes → Download → Type 0
FromContent link range content d =
    (start : ℕ) × (stop : ℕ) × InRange range (length content) start stop
    × IsServed link content start stop d

abbrev pub Refused : Download → Type 0
Refused d = (d.sent ≡ []) × (d.complete ≡ false)

module _ (b : Backend) (link : DownloadLink) (bounded : IsBoundedLink link) (arg : Bytes)
    (range : Option (ℤ × ℤ)) where
  send_content-From :
      (content : Bytes) (db : Db)
      → Refused (send_content b link arg range content db).0
        ⊎ FromContent link range content (send_content b link arg range content db).0
  unfolding send_content send_gets_failed_packet
  send_content-From content db = elim (Option-cases (effective_range range (length content))) [
    | inl y ↦ rw (send_content, y) (inl (refl, refl))
    | inr ((start, stop), y) ↦
        let (h, i) = effective_range-inside range (length content) y in
        rw (send_content, y)
          (inr (
            start,
            stop,
            effective_range-InRange range (length content) y,
            offer_range-IsServed link bounded (not (b.fails db.calls)) arg content start stop h i,
          ))
  ]

  open_stored-From :
      (hash : Bytes) (db : Db)
      → Refused (open_stored b link arg range hash db).0
        ⊎ ((content : Bytes) × (db.store hash ≡ some content)
            × FromContent link range content (open_stored b link arg range hash db).0)
  unfolding open_stored send_gets_failed_packet
  open_stored-From hash db = elim (Bool-cases (b.fails db.calls)) [
    | inl y ↦ rw (open_stored, y) (inl (refl, refl))
    | inr y ↦ elim (Bool-cases (b.fails (db.calls + 1))) [
      | inl z ↦ rw (open_stored, y, z) (inl (refl, refl))
      | inr z ↦ elim (Option-cases (db.store hash)) [
        | inl c ↦ rw (open_stored, y, z, c) (inl (refl, refl))
        | inr (content, c) ↦ elim (Bool-cases (b.fails (db.calls + 2))) [
          | inl w ↦ rw (open_stored, y, z, c, w) (inl (refl, refl))
          | inr w ↦ elim (send_content-From content (tick (tick (tick db)))) [
            | inl q ↦ rw (open_stored, y, z, c, w) (inl q)
            | inr s ↦ rw (open_stored, y, z, c, w) (inr (content, refl, s))
          ]
        ]
      ]
    ]
  ]

  send_found-From :
      (node file : ℕ) (db : Db)
      → Refused (send_found b link arg range (some (node, file), db)).0
        ⊎ ((entity : FileRow) × (content : Bytes) × (find_file file db.files ≡ some entity)
            × (db.store entity.sha256sum ≡ some content)
            × FromContent link range content
                (send_found b link arg range (some (node, file), db)).0)
  unfolding send_found dao_file_get_info_by_id send_recorded send_gets_failed_packet
  send_found-From node file db = elim (Bool-cases (b.fails db.calls)) [
    | inl y ↦ rw (send_found, y) (inl (refl, refl))
    | inr y ↦ elim (Option-cases (find_file file db.files)) [
      | inl z ↦ rw (send_found, y, z) (inl (refl, refl))
      | inr (entity, z) ↦ elim (open_stored-From entity.sha256sum (tick db)) [
        | inl q ↦ rw (send_found, y, z) (inl q)
        | inr (content, c, s) ↦ rw (send_found, y, z) (inr (entity, content, refl, c, s))
      ]
    ]
  ]

-- The lookup of a path, by the row that it finds.
dao_get_file_info_by_path-cases :
    (b : Backend) (user : ℤ) (path : Bytes) (db : Db)
    → is_literal 255 path ≡ true
    → (dao_get_file_info_by_path b user path db ≡ (none, tick db))
      ⊎ ((row : PathRow) × (file : ℕ) × (find_node b user path db.paths ≡ some row)
          × (file_of row ≡ some file)
          × (dao_get_file_info_by_path b user path db ≡ (some (row.id, file), tick db)))
unfolding dao_get_file_info_by_path select_node
dao_get_file_info_by_path-cases b user path db lit = elim (Bool-cases (b.fails db.calls)) [
  | inl w ↦ inl (rw (dao_get_file_info_by_path, w) refl)
  | inr w ↦ elim (Option-cases (find_node b user path db.paths)) [
    | inl x ↦ inl (rw (dao_get_file_info_by_path, w, lit, x) refl)
    | inr (row, x) ↦ elim (Bool-cases (row.node_type == 0)) [
      | inr y ↦ inl (rw (dao_get_file_info_by_path, w, lit, x, y) refl)
      | inl y ↦ elim (Option-cases row.file_id) [
        | inl z ↦ inl (rw (dao_get_file_info_by_path, w, lit, x, y, z) refl)
        | inr (file, z) ↦
            inr (row, file, x, rw (y, z) refl, rw (dao_get_file_info_by_path, w, lit, x, y, z) refl)
      ]
    ]
  ]
]

-- Whichever calls fail and whatever the client sends: nothing of any file goes out, or bytes of the
-- stored content that the path of the session's directory and the name stands for among the nodes of
-- the session's user, within the range asked for, from the client's offset on and in order, and all
-- of them where the download is complete. (The path is a plain text that fits its column, and no
-- call on the socket moves more than it was asked to.)
pub handle_gets_common-IsServed :
    (b : Backend) (link : DownloadLink) (ctx : ClientContext) (arg target : Bytes)
    (range : Option (ℤ × ℤ)) (db : Db)
    → IsBoundedLink link
    → build_full_virtual_path full_path_len ctx.current_path arg ≡ some target
    → is_literal 255 target ≡ true
    → Refused (handle_gets_common b link ctx arg range db).0
      ⊎ ((content : Bytes) × (content_at b ctx.user_id target db ≡ some content)
          × FromContent link range content (handle_gets_common b link ctx arg range db).0)
unfolding handle_gets_common send_found send_gets_failed_packet
handle_gets_common-IsServed b link ctx arg target range db bounded e lit =
    elim (dao_get_file_info_by_path-cases b ctx.user_id target db lit) [
      | inl x ↦ rw (handle_gets_common, e, x) (inl (refl, refl))
      | inr (row, file, x, y, z) ↦
          elim (send_found-From b link bounded arg range row.id file (tick db)) [
            | inl q ↦ rw (handle_gets_common, e, z) (inl q)
            | inr (entity, content, r, c, s) ↦
                let a : IsAt b ctx.user_id target db content = record {
                  row = row;
                  file = file;
                  entity = entity;
                  found = x;
                  refers = y;
                  recorded = r;
                  stored = c;
                } in
                rw (handle_gets_common, e, z)
                  (inr (content, IsAt-content_at b ctx.user_id target db content a, s))
          ]
    ]

dao_get_file_info_by_path-found :
    (b : Backend) (user : ℤ) (path : Bytes) (db : Db) (row : PathRow) (file : ℕ)
    → is_literal 255 path ≡ true
    → b.fails db.calls ≡ false
    → find_node b user path db.paths ≡ some row
    → file_of row ≡ some file
    → dao_get_file_info_by_path b user path db ≡ (some (row.id, file), tick db)
unfolding dao_get_file_info_by_path select_node
dao_get_file_info_by_path-found b user path db row file lit w x y =
    elim (Bool-cases (row.node_type == 0)) [
      | inr k ↦ absurd (ground (arith, rw k at y))
      | inl k ↦
          let z : row.file_id ≡ some file = rw k at y in
          rw (dao_get_file_info_by_path, w, lit, x, k, z) refl
    ]

-- While no call fails, a client that asks for a file which its path stands for gets every byte of
-- the range from its offset on: the download of a stored file succeeds. (The range lies within the file,
-- the client answers the packet with the size, no call on the socket fails or moves more than it was
-- asked to, and the path is a plain text that fits its column.)
pub handle_gets_common-complete :
    (b : Backend) (link : DownloadLink) (ctx : ClientContext) (arg target content : Bytes)
    (range : Option (ℤ × ℤ)) (start stop skipped : ℕ) (p : FilePacket) (db : Db)
    → ((k : ℕ) → b.fails k ≡ false)
    → IsBoundedLink link
    → NeverBreaks true link
    → link.sends_packet ≡ true
    → link.client_packet ≡ some p
    → build_full_virtual_path full_path_len ctx.current_path arg ≡ some target
    → is_literal 255 target ≡ true
    → content_at b ctx.user_id target db ≡ some content
    → InRange range (length content) start stop
    → Skips p.offset (stop - start) skipped
    → ((handle_gets_common b link ctx arg range db).0.complete ≡ true)
      × ((handle_gets_common b link ctx arg range db).0.sent
          ≡ take (stop - (skipped + start)) (drop (skipped + start) content))
unfolding handle_gets_common send_found dao_file_get_info_by_id send_recorded open_stored
    send_content
handle_gets_common-complete b link ctx arg target content range start stop skipped p db works
      bounded never sent answer e lit at_path asked skips =
    let in_range = InRange-effective_range range (length content) asked in
    let a = content_at-IsAt b ctx.user_id target db content at_path in
    let found =
      dao_get_file_info_by_path-found b ctx.user_id target db a.row a.file lit (works db.calls)
        a.found a.refers in
    let m : not (b.fails (tick (tick (tick (tick (tick db))))).calls) ≡ true =
      ap not (works (tick (tick (tick (tick (tick db))))).calls) in
    let (h, i) = effective_range-inside range (length content) in_range in
    rw
      (
        handle_gets_common,
        e,
        found,
        works (db.calls + 1),
        a.recorded,
        works (db.calls + 1 + 1),
        works (db.calls + 1 + 1 + 1),
        a.stored,
        works (db.calls + 1 + 1 + 2),
        send_content,
        in_range,
        ← Skips-resume_offset p.offset (stop - start) skipped skips,
      )
      (offer_range-complete link bounded (not (b.fails (tick (tick (tick (tick (tick db))))).calls))
        arg content start stop h i p sent answer (m, never.1, never.2))
