-- ===== src/Download/Tests.antt =====
-- The first user of Samples downloads the stored file, a byte at a time.
use wind_cloud_v.Shared.{inl, arith, ◌+◌, ◌-◌, ◌≡◌, ◌⊎◌, refl, true, some, take, drop, length}
use wind_cloud_v.Shared.Int.{pos, ◌+ℤ◌}
use wind_cloud_v.Shared.Text.{Bytes, codes, str_eq, has_byte, snprintf, contains, starts_with}
use wind_cloud_v.VirtualPath.{build_full_virtual_path, check_arg_path, join_path, full_path_len}
use wind_cloud_v.Protocol.{FilePacket}
use wind_cloud_v.Vfs.{is_literal, find_node, is_node}
use wind_cloud_v.Vfs.Entities.{write_name}
use wind_cloud_v.FileTable.{find_file}
use wind_cloud_v.Samples.{
  backend, db, first_user, one_byte, one_byte-IsBounded, one_byte-NeverFails,
}
use wind_cloud_v.Download.{DownloadLink, handle_gets_common}
use wind_cloud_v.Download.Window.{InRange, IsBoundedLink, NeverBreaks}
use wind_cloud_v.Download.Whole.{
  Refused, FromContent, content_at, handle_gets_common-IsServed, handle_gets_common-complete,
}

-- One byte of the range is there already.
abbrev client_answer : FilePacket
client_answer = record {
  cmd_type = pos 4;
  data_len = pos 1;
  file_size = pos 0;
  offset = pos 1;
  file_name = codes "a";
  hash = codes "";
}

abbrev link : DownloadLink
link = record {
  sends_packet = true;
  client_packet = some client_answer;
  sendfiles = one_byte;
  sends = λ k. one_byte;
}

link-IsBounded : IsBoundedLink link
link-IsBounded = record { sendfiles = one_byte-IsBounded; sends = λ k. one_byte-IsBounded }

link-NeverBreaks : NeverBreaks true link
link-NeverBreaks = (refl, one_byte-NeverFails, λ k. one_byte-NeverFails)

download_target :
    build_full_virtual_path full_path_len first_user.current_path (codes "a") ≡ some (codes "/a")
unfolding build_full_virtual_path check_arg_path join_path snprintf str_eq has_byte contains
    starts_with
download_target = refl

download_plain : is_literal 255 (codes "/a") ≡ true
unfolding is_literal has_byte
download_plain = refl

download_content : content_at backend first_user.user_id (codes "/a") db ≡ some (codes "abc")
unfolding content_at find_node is_node str_eq find_file write_name
download_content = refl

download_range : InRange (some (pos 0, pos 2)) (length (codes "abc")) 0 3
unfolding ◌+ℤ◌
download_range = (refl, refl, omega arith, omega arith)

handle_gets_common-IsServed_example :
    Refused (handle_gets_common backend link first_user (codes "a") (some (pos 0, pos 2)) db).0
    ⊎ ((content : Bytes) × (content_at backend first_user.user_id (codes "/a") db ≡ some content)
        × FromContent link
            (some (pos 0, pos 2))
            content
            (handle_gets_common backend link first_user (codes "a") (some (pos 0, pos 2)) db).0)
handle_gets_common-IsServed_example =
    handle_gets_common-IsServed backend link first_user (codes "a") (codes "/a")
      (some (pos 0, pos 2)) db link-IsBounded download_target download_plain

handle_gets_common-complete_example :
    ((handle_gets_common backend link first_user (codes "a") (some (pos 0, pos 2)) db).0.complete
      ≡ true)
    × ((handle_gets_common backend link first_user (codes "a") (some (pos 0, pos 2)) db).0.sent
        ≡ take (3 - (1 + 0)) (drop (1 + 0) (codes "abc")))
handle_gets_common-complete_example =
    handle_gets_common-complete backend link first_user (codes "a") (codes "/a") (codes "abc")
      (some (pos 0, pos 2)) 0 3 1 client_answer db (λ k. refl) link-IsBounded link-NeverBreaks refl
      refl download_target download_plain download_content download_range (inl (refl, omega arith))
