-- ===== src/Upload/Tests.antt =====
-- A client uploads four bytes, a byte at a time, beside the files of Samples.
use wind_cloud_v.Shared.{◌++◌, ◌≡◌, refl, true, false, none, some, [], ◌∷◌, arith}
use wind_cloud_v.Shared.Int.{pos}
use wind_cloud_v.Shared.Text.{
  Bytes, codes, str_eq, has_byte, split_last, snprintf, contains, starts_with,
}
use wind_cloud_v.VirtualPath.{
  build_full_virtual_path, check_arg_path, join_path, extract_file_name, full_path_len, root,
  is_valid_vfs_name,
}
use wind_cloud_v.Protocol.{FilePacket, c_string}
use wind_cloud_v.Identity.{Config, get_current_server_address}
use wind_cloud_v.Vfs.{is_hash, all_hex, is_literal, find_node, is_node}
use wind_cloud_v.FileTable.{find_hash}
use wind_cloud_v.Vfs.Entities.{write_name}
use wind_cloud_v.Vfs.Refcount.{IsTidy}
use wind_cloud_v.Samples.{
  stored_hash, backend, db, db-IsTidy, first_user, one_byte, one_byte-IsBounded,
  one_byte-NeverFails,
}
use wind_cloud_v.Upload.{UploadLink}
use wind_cloud_v.Upload.Receive.{receive_content, map_sink, content_of}
use wind_cloud_v.Upload.Content.{Filled, receive_content-Filled, map_sink-IsSink}
use wind_cloud_v.Upload.Settled.{IsReliable, IsUpheld}
use wind_cloud_v.Upload.Handler.{handle_puts}
use wind_cloud_v.Upload.Whole.{handle_puts-IsUpheld}
use wind_cloud_v.Upload.Others.{handle_puts-other}
use wind_cloud_v.Upload.Counted.{handle_puts-IsTidy}
use wind_cloud_v.Upload.RoundTrip.{IsStored, handle_puts-IsStored, handle_puts-handle_gets}
use wind_cloud_v.Download.{DownloadLink, handle_gets}

abbrev config : Config
config key = none

abbrev wind_hash : Bytes
wind_hash = codes "9f9f9f9f9f9f9f9f9f9f9f9f9f9f9f9f9f9f9f9f9f9f9f9f9f9f9f9f9f9f9f9f"

abbrev wind_packet : FilePacket
wind_packet = record {
  cmd_type = pos 5;
  data_len = pos 1;
  file_size = pos 4;
  offset = pos 0;
  file_name = codes "c";
  hash = wind_hash ++ (0 ∷ []);
}

abbrev link : UploadLink
link = record {
  file_packet = some wind_packet;
  sends_packet = true;
  incoming = codes "wind";
  recvs = one_byte;
  writes = λ k. one_byte;
}

link-IsReliable : IsReliable link
link-IsReliable = record {
  recvs_bounded = one_byte-IsBounded;
  writes_bounded = λ k. one_byte-IsBounded;
  writes_succeed = λ k. one_byte-NeverFails;
}

receive_content-Filled_example :
    Filled map_sink one_byte 1 3
      (codes "w...")
      (codes "ind")
      (receive_content map_sink one_byte 1 3 (codes "w...") (codes "ind"))
receive_content-Filled_example =
    receive_content-Filled map_sink one_byte 1 3 (codes "w...") (codes "ind") map_sink-IsSink
      one_byte-IsBounded (omega arith)

nothing_stored : content_of (c_string wind_packet.hash) db ≡ []
unfolding c_string write_name str_eq
nothing_stored = refl

other_hash : str_eq (stored_hash) (c_string wind_packet.hash) ≡ false
unfolding c_string str_eq
other_hash = refl

hash_unknown : find_hash (c_string wind_packet.hash) db.files ≡ none
unfolding find_hash c_string str_eq
hash_unknown = refl

wind_hash-valid : is_hash (c_string wind_packet.hash) ≡ true
unfolding is_hash all_hex c_string
wind_hash-valid = refl

handle_puts-IsUpheld_example :
    IsUpheld
      (c_string wind_packet.hash)
      (codes "wind")
      (handle_puts backend config link first_user (codes "c") db)
handle_puts-IsUpheld_example =
    handle_puts-IsUpheld backend (λ k. refl) config link link-IsReliable first_user (codes "c")
      (codes "wind") db wind_packet 0 4 refl wind_hash-valid
      (λ row e. absurd (ground (arith, hash_unknown, e))) refl (omega arith) nothing_stored refl

handle_puts-other_example :
    (handle_puts backend config link first_user (codes "c") db).1.store (stored_hash)
    ≡ db.store (stored_hash)
handle_puts-other_example =
    handle_puts-other backend config link first_user (codes "c") (stored_hash) db wind_packet refl
      other_hash

upload_target :
    build_full_virtual_path full_path_len first_user.current_path (codes "c") ≡ some (codes "/c")
unfolding build_full_virtual_path check_arg_path join_path snprintf str_eq has_byte contains
    starts_with
upload_target = refl

upload_plain : is_literal 255 (codes "/c") ≡ true
unfolding is_literal has_byte
upload_plain = refl

name_plain : is_literal 30 (extract_file_name (codes "/c")) ≡ true
unfolding is_literal has_byte extract_file_name split_last
name_plain = refl

not_root : str_eq (codes "/c") root ≡ false
unfolding str_eq
not_root = refl

handle_puts-IsTidy_example : IsTidy (handle_puts backend config link first_user (codes "c") db).1
handle_puts-IsTidy_example =
    handle_puts-IsTidy backend config link first_user (codes "c") (codes "/c") wind_packet db
      (λ k. refl) refl upload_target not_root upload_plain name_plain wind_hash-valid db-IsTidy

name_valid : is_valid_vfs_name (extract_file_name (codes "/c")) ≡ true
unfolding is_valid_vfs_name extract_file_name split_last
name_valid = refl

own_address : get_current_server_address config ≡ some (codes "127.0.0.1", codes "9090")
unfolding get_current_server_address snprintf
own_address = refl

path_free : find_node backend first_user.user_id (codes "/c") db.paths ≡ none
unfolding find_node is_node str_eq
path_free = refl

-- The client has nothing yet and asks for the whole file.
abbrev down : DownloadLink
down = record {
  sends_packet = true;
  client_packet = some wind_packet;
  sendfiles = one_byte;
  sends = λ k. one_byte;
}

handle_puts-IsStored_example :
    IsStored backend first_user.user_id
      (codes "c")
      (codes "/c")
      (codes "wind")
      0
      (handle_puts backend config link first_user (codes "c") db)
handle_puts-IsStored_example =
    handle_puts-IsStored backend (λ k. refl) config (codes "127.0.0.1") (codes "9090") own_address
      refl refl link link-IsReliable one_byte-NeverFails refl first_user (codes "c") (codes "wind")
      0 (omega arith) refl (codes "/c") wind_packet db refl refl wind_hash-valid upload_target
      not_root upload_plain name_plain name_valid path_free hash_unknown nothing_stored

handle_puts-handle_gets_example :
    let r =
      handle_gets backend down first_user
        (codes "c")
        (handle_puts backend config link first_user (codes "c") db).1 in
    (r.0.complete ≡ true) × (r.0.sent ≡ codes "wind")
handle_puts-handle_gets_example =
    handle_puts-handle_gets backend (λ k. refl) config (codes "127.0.0.1") (codes "9090")
      own_address refl refl link link-IsReliable one_byte-NeverFails refl down
      (record { sendfiles = one_byte-IsBounded; sends = λ k. one_byte-IsBounded })
      (refl, one_byte-NeverFails, λ k. one_byte-NeverFails) refl first_user (codes "c")
      (codes "wind") (codes "/c") 0 wind_packet wind_packet db (omega arith) refl refl refl
      wind_hash-valid upload_target not_root upload_plain name_plain name_valid path_free
      hash_unknown nothing_stored refl refl
