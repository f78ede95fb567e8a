-- ===== src/Download.antt =====
-- src/server/file/file_transfer.c: handle_gets, handle_gets_range and the two ways to send a stored file.
-- As in Upload, each statement and file system call takes a tick of the Db; the socket is the
-- DownloadLink. A call of sendfile that a signal interrupts is repeated, and counts once.
pub mod Sending
pub mod Window
pub mod Whole
mod Tests
use wind_cloud_v.Shared.{
  ℕ, zero, suc, ◌+◌, ◌-◌, Bool, true, false, not, ◌||◌, List, [], ◌∷◌, ◌++◌, Option, none, some,
  min, ltb, if◌then◌else◌, length, take, drop,
}
use wind_cloud_v.Shared.Int.{ℤ, pos, negsuc, pos_part, ltb_ℤ}
use wind_cloud_v.Shared.Text.{Bytes}
use wind_cloud_v.VirtualPath.{full_path_len, build_full_virtual_path}
use wind_cloud_v.Protocol.{FilePacket, gets, init_file_packet}
use wind_cloud_v.Protocol.Stream.{Calls, Outcome, done, failed, stuck, send_full}
use wind_cloud_v.Vfs.{Backend, Db, tick, dao_get_file_info_by_path}
use wind_cloud_v.Vfs.Entities.{ClientContext}
use wind_cloud_v.FileTable.{dao_file_get_info_by_id}
use wind_cloud_v.Upload.{buffer_size, large_file_mmap_threshold}

-- The loop of send_file_by_sendfile, from `current` on; `wire` has gone out.
unfoldable pub sendfile_loop : Calls → Bytes → ℕ → ℕ → ℕ → ℕ → Bytes → Outcome × Bytes
sendfile_loop calls content zero k current remaining wire = (stuck, wire)
sendfile_loop calls content (suc fuel) k current remaining wire = elim (ltb 0 remaining) [
  | false ↦ (done, wire)
  | true ↦ elim (calls k (min remaining (length content - current))) [
    | none ↦ (failed, wire)
    | some r ↦
        sendfile_loop calls content fuel (k + 1) (current + suc r) (remaining - suc r)
          (wire ++ take (suc r) (drop current content))
  ]
]

-- Each call moves a byte at least, so one round more than there are bytes is enough.
unfoldable pub send_file_by_sendfile : Calls → Bytes → ℕ → ℕ → Outcome × Bytes
unfolding sendfile_loop
send_file_by_sendfile calls content offset stop =
    sendfile_loop calls content (suc (stop - offset)) 0 offset (stop - offset) []

-- The loop of send_file_by_mmap: the mapped bytes from `sent_count` on, a buffer at a time.
unfoldable pub mmap_loop : (ℕ → Calls) → Bytes → ℕ → ℕ → ℕ → ℕ → Bytes → Outcome × Bytes
unfolding send_full
mmap_loop calls start remaining zero k sent_count wire = (stuck, wire)
mmap_loop calls start remaining (suc fuel) k sent_count wire = elim (ltb sent_count remaining) [
  | false ↦ (done, wire)
  | true ↦
      let once = min buffer_size (remaining - sent_count) in
      let s = send_full (calls k) (take once (drop sent_count start)) in
      elim s.0 [
        | done ↦ mmap_loop calls start remaining fuel (k + 1) (sent_count + once) (wire ++ s.1)
        | failed ↦ (failed, wire ++ s.1)
        | stuck ↦ (stuck, wire ++ s.1)
      ]
]

-- `mapped` is whether mmap succeeds.
unfoldable pub send_file_by_mmap : Bool → (ℕ → Calls) → Bytes → ℕ → ℕ → Outcome × Bytes
unfolding mmap_loop
send_file_by_mmap mapped calls content offset stop =
    if not (ltb 0 (stop - offset))
    then (done, [])
    else if not mapped
    then (failed, [])
    else mmap_loop calls (drop offset content) (stop - offset) (suc (stop - offset)) 0 0 []

pub record DownloadLink : Type 0 where
  pub sends_packet : Bool
  pub client_packet : Option FilePacket
  pub sendfiles : Calls
  pub sends : ℕ → Calls

-- What goes out: the packets, then bytes of the file; `complete` is that all of them went out.
pub record Download : Type 0 where
  pub packets : List FilePacket
  pub sent : Bytes
  pub complete : Bool

abbrev pub is_done : Outcome → Bool
is_done done = true
is_done failed = false
is_done stuck = false

unfoldable pub send_gets_failed_packet : Bytes → Download
unfolding init_file_packet
send_gets_failed_packet arg = record {
  packets = init_file_packet gets (some arg) (negsuc 0) (pos 0) none ∷ [];
  sent = [];
  complete = false;
}

-- The bytes that may go out: from the first number on, up to but without the second. `none` is an
-- invalid range.
unfoldable pub effective_range : Option (ℤ × ℤ) → ℕ → Option (ℕ × ℕ)
effective_range none size = some (0, size)
effective_range (some (range_start, range_end)) size =
    if ltb_ℤ range_start (pos 0)
      || (ltb_ℤ range_end range_start || not (ltb_ℤ range_end (pos size)))
    then none
    else some (pos_part range_start, pos_part range_end + 1)

-- The client's offset, where it is within the bytes that may go out.
unfoldable pub resume_offset : ℤ → ℕ → ℕ
resume_offset offset total =
    if ltb_ℤ offset (pos 0) || ltb_ℤ (pos total) offset then 0 else pos_part offset

unfoldable pub send_range : DownloadLink → Bool → Bytes → ℕ → ℕ → FilePacket → Outcome × Bytes
unfolding send_file_by_mmap send_file_by_sendfile resume_offset
send_range link mapped content start stop p =
    let offset = resume_offset p.offset (stop - start) + start in
    if ltb large_file_mmap_threshold (stop - start)
    then send_file_by_mmap mapped link.sends content offset stop
    else send_file_by_sendfile link.sendfiles content offset stop

-- The file is open and the range known: the packet with the size, the client's answer, the bytes.
unfoldable pub offer_range : DownloadLink → Bool → Bytes → Bytes → ℕ → ℕ → Download
unfolding init_file_packet send_range
offer_range link mapped arg content start stop =
    let told = init_file_packet gets (some arg) (pos (stop - start)) (pos 0) none in
    if not link.sends_packet
    then record { packets = told ∷ []; sent = []; complete = false }
    else elim link.client_packet [
      | none ↦ record { packets = told ∷ []; sent = []; complete = false }
      | some p ↦
          let r = send_range link mapped content start stop p in
          record { packets = told ∷ []; sent = r.1; complete = is_done r.0 }
    ]

unfoldable pub send_content :
    Backend → DownloadLink → Bytes → Option (ℤ × ℤ) → Bytes → Db → Download × Db
unfolding effective_range send_gets_failed_packet offer_range
send_content b link arg range content db = elim (effective_range range (length content)) [
  | none ↦ (send_gets_failed_packet arg, db)
  | some (start, stop) ↦ (offer_range link (not (b.fails db.calls)) arg content start stop, tick db)
]

-- The stored file with this hash: its path is built, it is opened and its size is read.
unfoldable pub open_stored :
    Backend → DownloadLink → Bytes → Option (ℤ × ℤ) → Bytes → Db → Download × Db
unfolding send_gets_failed_packet send_content
open_stored b link arg range hash db =
    if b.fails db.calls
    then (send_gets_failed_packet arg, tick db)
    else if b.fails (db.calls + 1)
    then (send_gets_failed_packet arg, tick (tick db))
    else elim (db.store hash) [
      | none ↦ (send_gets_failed_packet arg, tick (tick db))
      | some content ↦
          if b.fails (db.calls + 2)
          then (send_gets_failed_packet arg, tick (tick (tick db)))
          else send_content b link arg range content (tick (tick (tick db)))
    ]

-- What follows the lookup of the record.
unfoldable pub send_recorded :
    Backend → DownloadLink → Bytes → Option (ℤ × ℤ) → Option (Bytes × ℤ) × Db → Download × Db
unfolding send_gets_failed_packet open_stored
send_recorded b link arg range (none, db) = (send_gets_failed_packet arg, db)
send_recorded b link arg range (some (hash, size), db) = open_stored b link arg range hash db

-- What follows the lookup of the path.
unfoldable pub send_found :
    Backend → DownloadLink → Bytes → Option (ℤ × ℤ) → Option (ℕ × ℕ) × Db → Download × Db
unfolding send_gets_failed_packet dao_file_get_info_by_id send_recorded
send_found b link arg range (none, db) = (send_gets_failed_packet arg, db)
send_found b link arg range (some (_, file), db) =
    send_recorded b link arg range (dao_file_get_info_by_id b file db)

unfoldable pub handle_gets_common :
    Backend → DownloadLink → ClientContext → Bytes → Option (ℤ × ℤ) → Db → Download × Db
unfolding build_full_virtual_path send_gets_failed_packet dao_get_file_info_by_path send_found
handle_gets_common b link ctx arg range db =
    elim (build_full_virtual_path full_path_len ctx.current_path arg) [
      | none ↦ (send_gets_failed_packet arg, db)
      | some full_path ↦
          send_found b link arg range (dao_get_file_info_by_path b ctx.user_id full_path db)
    ]

unfoldable pub handle_gets : Backend → DownloadLink → ClientContext → Bytes → Db → Download × Db
unfolding handle_gets_common
handle_gets b link ctx arg db = handle_gets_common b link ctx arg none db

unfoldable pub handle_gets_range :
    Backend → DownloadLink → ClientContext → Bytes → ℤ → ℤ → Db → Download × Db
unfolding handle_gets_common
handle_gets_range b link ctx arg range_start range_end db =
    handle_gets_common b link ctx arg (some (range_start, range_end)) db
