-- ===== src/Multipart/Tests.antt =====
-- A file of five bytes on two sources, and a file of one byte.
use wind_cloud_v.Shared.{
  ◌+◌, ◌≤◌, ◌≡◌, refl, ◌↔◌, true, [], ◌∷◌, none, some, arith, length, if◌then◌else◌, min,
}
use wind_cloud_v.Shared.Int.{pos, pos_part, ◌+ℤ◌, ◌-ℤ◌}
use wind_cloud_v.Shared.Decimal.{print_ℤ, print_ℕ}
use wind_cloud_v.Shared.Text.{Bytes, codes, str_eq, snprintf, truncated}
use wind_cloud_v.Protocol.{SourceServer, MultiGetsPlanPacket, c_string}
use wind_cloud_v.Multipart.{
  MultipartPartInfo, MultipartTaskMeta, build_part_file_path, make_part, init_parts_loop,
  plan_sources, init_parts_from_plan, get_part_total_size, is_part_finished, all_parts_finished,
  sync_part, sync_parts, sync_finished_bytes_from_part_files, Files, merge_part_files, MergeDisk,
}
use wind_cloud_v.Multipart.Merge.{IsBoundedDisk}
use wind_cloud_v.Samples.{one_byte, one_byte-IsBounded}
use wind_cloud_v.Multipart.Parts.{
  all_bytes, first_parts, HoldsParts, EmptyPartsUnmade, init_parts_from_plan-all_bytes, IsMerged,
  merge_part_files_small,
}
use wind_cloud_v.Multipart.Progress.{
  sizes_of, HoldsPrefixes, sync_part-size, merge_part_files-resumed,
}

abbrev source : SourceServer
source = record { ip = codes "h"; port = codes "8" }

abbrev plan : MultiGetsPlanPacket
plan = record {
  success = pos 1;
  file_size = pos 5;
  file_name = codes "a";
  file_hash = codes "5e";
  source_count = pos 2;
  sources = source ∷ source ∷ [];
  message = [];
}

abbrev meta : MultipartTaskMeta
meta = record {
  file_name = codes "a";
  file_hash = codes "5e";
  file_size = pos 5;
  part_count = pos 0;
  task_dir = codes "t";
  meta_file_path = codes "t/m";
  parts = [];
}

abbrev first_path : Bytes
first_path = codes "t/part_0"

abbrev part_zero : MultipartPartInfo
part_zero = record {
  part_index = 0;
  range_start = pos 0;
  range_end = pos 2;
  finished_bytes = pos 0;
  source_ip = codes "h";
  source_port = codes "8";
  part_file_path = codes "t/part_0";
}

abbrev part_one : MultipartPartInfo
part_one = record {
  part_index = 1;
  range_start = pos 3;
  range_end = pos 4;
  finished_bytes = pos 0;
  source_ip = codes "h";
  source_port = codes "8";
  part_file_path = codes "t/part_1";
}

abbrev planned : MultipartTaskMeta
planned = record meta { part_count = pos 2; parts = part_zero ∷ part_one ∷ [] }

abbrev file : Bytes
file = codes "hello"

made : init_parts_from_plan (pos (length file)) plan meta ≡ some planned
unfolding init_parts_from_plan init_parts_loop make_part build_part_file_path plan_sources print_ℤ
    print_ℕ snprintf truncated c_string
made = refl

files : Files
unfolding str_eq
files path =
    if str_eq path (codes "t/part_0")
    then some (codes "hel")
    else if str_eq path (codes "t/part_1")
    then some (codes "lo")
    else none

files-HoldsParts : HoldsParts files file (first_parts 2 planned.parts)
unfolding files str_eq first_parts get_part_total_size ◌+ℤ◌ ◌-ℤ◌
files-HoldsParts = (refl, (refl, tt))

files-HoldsPrefixes : HoldsPrefixes files file (first_parts 2 planned.parts)
unfolding files str_eq first_parts get_part_total_size ◌+ℤ◌ ◌-ℤ◌
files-HoldsPrefixes = ((3, refl), ((2, refl), tt))

all_finished :
    all_parts_finished
      (pos_part (sync_finished_bytes_from_part_files (sizes_of files) planned).part_count)
      (sync_finished_bytes_from_part_files (sizes_of files) planned).parts
    ≡ true
unfolding all_parts_finished is_part_finished sync_finished_bytes_from_part_files sync_parts
    sync_part sizes_of files str_eq get_part_total_size ◌+ℤ◌ ◌-ℤ◌
all_finished = refl

last_byte : part_one.range_end +ℤ pos 1 ≡ pos (3 + 2)
unfolding ◌+ℤ◌
last_byte = refl

-- Each call moves a byte.
abbrev disk : MergeDisk
disk = record { creates = true; reads = λ i. one_byte; ends = λ i. true; writes = λ i k. one_byte }

disk-IsBounded : IsBoundedDisk disk
disk-IsBounded = record { reads = λ i. one_byte-IsBounded; writes = λ i k. one_byte-IsBounded }

stored : files part_one.part_file_path ≡ some (codes "lo")
unfolding files str_eq
stored = refl

init_parts_from_plan-all_bytes_example :
    (planned.part_count ≡ plan.source_count) × (all_bytes file (first_parts 2 planned.parts) ≡ file)
init_parts_from_plan-all_bytes_example =
    init_parts_from_plan-all_bytes file plan meta planned (omega arith) made

merge_part_files-resumed_example : IsMerged disk file (merge_part_files disk files 2 planned.parts)
merge_part_files-resumed_example =
    merge_part_files-resumed disk files file plan meta planned disk-IsBounded (omega arith) made
      files-HoldsPrefixes all_finished

sync_part-size_example :
    ((sync_part (sizes_of files) part_one).finished_bytes ≡ pos (min (length (codes "lo")) 2))
    × ((is_part_finished (sync_part (sizes_of files) part_one) ≡ true) ↔ (2 ≤ length (codes "lo")))
sync_part-size_example = sync_part-size files part_one 3 2 (codes "lo") refl last_byte stored

-- One byte for two sources: the second part is empty.
abbrev small : MultipartTaskMeta
small = record meta {
  part_count = pos 2;
  parts =
      record part_zero { range_end = pos 0 }
      ∷ record part_one { range_start = pos 1; range_end = pos 0 }
      ∷ [];
}

made_small : init_parts_from_plan (pos 1) plan meta ≡ some small
unfolding init_parts_from_plan init_parts_loop make_part build_part_file_path plan_sources print_ℤ
    print_ℕ snprintf truncated c_string
made_small = refl

one_file : Files
unfolding str_eq
one_file path = if str_eq path (codes "t/part_0") then some (codes "h") else none

one_file-EmptyPartsUnmade : EmptyPartsUnmade one_file (first_parts 2 small.parts)
unfolding one_file str_eq first_parts get_part_total_size ◌+ℤ◌ ◌-ℤ◌
one_file-EmptyPartsUnmade = (λ e. absurd (ground arith), (λ e. refl, tt))

merge_part_files_small_example :
    (merge_part_files disk one_file 2 small.parts ≡ none)
    × ((p : MultipartPartInfo)
        → get_part_total_size p ≡ pos 0
        → is_part_finished (sync_part (sizes_of one_file) p) ≡ true)
merge_part_files_small_example =
    merge_part_files_small disk one_file (sizes_of one_file) 1 plan meta small (omega arith)
      (omega arith) made_small one_file-EmptyPartsUnmade
