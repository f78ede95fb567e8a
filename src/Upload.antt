-- ===== src/Upload.antt =====
-- src/server/file/file_transfer.c: handle_puts and its helpers. Each statement and each call on the file
-- system takes a tick of the Db and fails where the Backend says so; what the connection delivers
-- and how far each recv and write goes is the UploadLink. Sent messages are listed in order.
pub mod Receive
pub mod Handler
pub mod Content
pub mod Links
pub mod Settled
pub mod Resume
pub mod Whole
pub mod Others
pub mod Tidy
pub mod Counted
pub mod Finish
pub mod Complete
pub mod RoundTrip
mod Tests
use wind_cloud_v.Shared.{
  ℕ, zero, suc, ◌+◌, ◌-◌, ◌*◌, Bool, true, false, not, List, [], ◌∷◌, ◌++◌, Option, none, some, min,
  ltb, leb, ◌==◌, if◌then◌else◌, length, take, drop, replicate,
}
use wind_cloud_v.Shared.Int.{ℤ, pos, negsuc, eqb_ℤ, ltb_ℤ, pos_part}
use wind_cloud_v.Shared.Text.{Bytes, is_empty}
use wind_cloud_v.VirtualPath.{
  full_path_len, build_full_virtual_path, extract_file_name, is_valid_vfs_name,
}
use wind_cloud_v.Protocol.{FilePacket, puts, c_string, init_file_packet}
use wind_cloud_v.Protocol.Stream.{Calls, Outcome, done, failed, stuck, write_file_full}
use wind_cloud_v.Identity.{Config, get_current_server_address}
use wind_cloud_v.Vfs.{Backend, Db, tick, dao_create_file_node, dao_get_node_by_path}
use wind_cloud_v.Vfs.Entities.{ClientContext, write_name, create_name}
use wind_cloud_v.FileTable.{
  dao_file_find_by_sha256, dao_file_insert, dao_file_add_ref_count, dao_file_source_upsert,
}

abbrev pub buffer_size : ℕ
buffer_size = 4096

abbrev pub large_file_mmap_threshold : ℕ
large_file_mmap_threshold = 104857600

pub data PutsMessage : Type 0 where
  info_failed bad_path bad_name exists_already no_hash unreadable_store fast_failed path_failed :
      PutsMessage
  create_failed extend_failed map_failed seek_failed write_failed : PutsMessage
  saved_progress record_failed completed : PutsMessage

pub data PutsReply : Type 0 where
  message : PutsMessage → PutsReply
  packet : FilePacket → PutsReply

pub data StoreCheck : Type 0 where
  unreadable incomplete ready : StoreCheck

-- The file's size goes with the check.
unfoldable pub check_store_file_ready : Backend → Bytes → ℤ → Db → StoreCheck × ℕ × Db
check_store_file_ready b hash expected db =
    if b.fails db.calls then (unreadable, 0, tick db) else elim (db.store hash) [
      | none ↦ (incomplete, 0, tick db)
      | some content ↦ (
        if eqb_ℤ (pos (length content)) expected then ready else incomplete,
        length content,
        tick db,
      )
    ]

unfoldable pub create_user_file_link :
    Backend → ClientContext → Bytes → Bytes → ℕ → Bool → Db → Bool × Db
unfolding dao_create_file_node dao_file_add_ref_count
create_user_file_link b ctx full_path name file need_add_ref db =
    let r = dao_create_file_node b ctx.user_id full_path ctx.current_dir_id name file db in
    if not r.0
    then (false, r.1)
    else if need_add_ref
    then dao_file_add_ref_count b file r.1
    else (true, r.1)

-- The server enters itself as a source, once the file has its node.
unfoldable pub add_own_source : Backend → Config → ℕ → Bool × Db → Bool × Db
unfolding get_current_server_address dao_file_source_upsert
add_own_source b config file (false, db) = (false, db)
add_own_source b config file (true, db) = elim (get_current_server_address config) [
  | none ↦ (false, db)
  | some (ip, port) ↦ dao_file_source_upsert b file ip port db
]

-- The insert has failed: what follows the lookup of the record.
unfoldable pub link_recorded :
    Backend → Config → ClientContext → Bytes → Bytes → Option (ℕ × ℤ) × Db → Bool × Db
unfolding create_user_file_link add_own_source
link_recorded b config ctx full_path name (none, db) = (false, db)
link_recorded b config ctx full_path name (some (file, _), db) =
    add_own_source b config file (create_user_file_link b ctx full_path name file true db)

-- What follows the insert of a record.
unfoldable pub link_uploaded :
    Backend → Config → ClientContext → Bytes → Bytes → Bytes → Option ℕ × Db → Bool × Db
unfolding create_user_file_link add_own_source link_recorded dao_file_find_by_sha256
link_uploaded b config ctx full_path name hash (some file, db) =
    add_own_source b config file (create_user_file_link b ctx full_path name file false db)
link_uploaded b config ctx full_path name hash (none, db) =
    link_recorded b config ctx full_path name (dao_file_find_by_sha256 b hash db)

unfoldable pub finish_upload_db_work :
    Backend → Config → ClientContext → Bytes → Bytes → Bytes → ℤ → Db → Bool × Db
unfolding dao_file_insert link_uploaded
finish_upload_db_work b config ctx full_path name hash size db =
    link_uploaded b config ctx full_path name hash (dao_file_insert b hash size db)

-- What the connection does during one request: the file packet, whether the answer to it goes out,
-- the bytes that the client sends after it, and how far the calls on the socket and the file go.
pub record UploadLink : Type 0 where
  pub file_packet : Option FilePacket
  pub sends_packet : Bool
  pub incoming : Bytes
  pub recvs : Calls
  pub writes : ℕ → Calls

-- What is being uploaded: where it goes in the virtual tree, what the client said of it, and the stored
-- file that the path made of the hash stands for.
pub record Upload : Type 0 where
  pub full_path : Bytes
  pub name : Bytes
  pub hash : Bytes
  pub stored : Bytes
  pub size : ℤ
