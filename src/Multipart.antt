-- ===== src/Multipart.antt =====
-- src/client/multipart_meta.c and include/multipart_meta.h: how the client divides a file among the data
-- sources, and keeps the state of each part. Paths and texts are C strings; `stat` of a part file
-- is its size, or `none` where there is no such file.
pub mod Merge
pub mod Parts
pub mod Progress
mod Tests
use wind_cloud_v.Shared.{
  ℕ, zero, suc, ◌+◌, ◌-◌, ◌/◌, ◌%◌, ◌≤◌, ◌<◌, ◌≡◌, Bool, true, false, not, ◌&&◌, ◌||◌, List, [],
  ◌∷◌, ◌++◌, map, Option, none, some, ltb, leb, ◌==◌, if◌then◌else◌, length, drop, take, min,
}
use wind_cloud_v.Shared.Int.{ℤ, pos, negsuc, pos_part, sub_ℕ, ltb_ℤ, eqb_ℤ, ◌+ℤ◌, ◌-ℤ◌}
use wind_cloud_v.Shared.Decimal.{print_ℤ}
use wind_cloud_v.Shared.Text.{Bytes, codes, str_eq, truncated, snprintf}
use wind_cloud_v.Protocol.Stream.{Calls, Outcome, done, failed, stuck, write_file_full}
use wind_cloud_v.Protocol.{SourceServer, MultiGetsPlanPacket, c_string, max_source_server_count}

abbrev pub max_path_len : ℕ
max_path_len = 1024

pub record MultipartPartInfo : Type 0 where
  pub part_index : ℕ
  pub range_start : ℤ
  pub range_end : ℤ
  pub finished_bytes : ℤ
  pub source_ip : Bytes
  pub source_port : Bytes
  pub part_file_path : Bytes

pub record MultipartTaskMeta : Type 0 where
  pub file_name : Bytes
  pub file_hash : Bytes
  pub file_size : ℤ
  pub part_count : ℤ
  pub task_dir : Bytes
  pub meta_file_path : Bytes
  pub parts : List MultipartPartInfo

unfoldable pub build_part_file_path : Bytes → ℕ → ℕ → Option Bytes
build_part_file_path task_dir part_index path_size =
    if leb path_size (length task_dir + 16)
    then none
    else snprintf path_size (task_dir ++ (codes "/part_" ++ print_ℤ (pos part_index)))

-- One round of the loop, for a part that starts at `start`.
unfoldable pub make_part : Bytes → ℕ → ℕ → ℕ → SourceServer → Option MultipartPartInfo
unfolding build_part_file_path
make_part task_dir i start size source = elim (build_part_file_path task_dir i max_path_len) [
  | none ↦ none
  | some path ↦ some (record {
    part_index = i;
    range_start = pos start;
    range_end = sub_ℕ (start + size) 1;
    finished_bytes = pos 0;
    source_ip = truncated 64 (c_string source.ip);
    source_port = truncated 16 (c_string source.port);
    part_file_path = path;
  })
]

-- The loop over `sources`, one for each part; `none` is the early return -1.
unfoldable pub init_parts_loop :
    Bytes → ℕ → ℕ → ℕ → ℕ → List SourceServer → Option (List MultipartPartInfo)
unfolding make_part
init_parts_loop task_dir base_size i remainder start [] = some []
init_parts_loop task_dir base_size i remainder start (source ∷ sources) =
    let size = if ltb 0 remainder then base_size + 1 else base_size in
    let rest = init_parts_loop task_dir base_size (i + 1) (remainder - 1) (start + size) sources in
    elim (make_part task_dir i start size source) [
      | none ↦ none
      | some part ↦ elim rest [ none ↦ none | some parts ↦ some (part ∷ parts) ]
    ]

-- The first `source_count` sources of a plan.
unfoldable pub plan_sources : ℕ → List SourceServer → List SourceServer
plan_sources zero sources = []
plan_sources (suc n) [] = []
plan_sources (suc n) (s ∷ sources) = s ∷ plan_sources n sources

unfoldable pub init_parts_from_plan :
    ℤ → MultiGetsPlanPacket → MultipartTaskMeta → Option MultipartTaskMeta
unfolding init_parts_loop plan_sources
init_parts_from_plan file_size plan meta =
    if ltb_ℤ file_size (pos 0)
    then none
    else if not (ltb_ℤ (pos 0) plan.source_count)
    then none
    else if ltb_ℤ (pos max_source_server_count) plan.source_count
    then none
    else let count = pos_part plan.source_count in
      let size = pos_part file_size in
      elim (init_parts_loop meta.task_dir (size / count) 0 (size % count) 0
        (plan_sources count plan.sources)) [
          | none ↦ none
          | some parts ↦ some (record meta {
            part_count = plan.source_count;
            parts = parts ++ drop count meta.parts;
          })
        ]

-- get_part_total_size of src/client/client_gets.c
unfoldable pub get_part_total_size : MultipartPartInfo → ℤ
get_part_total_size part = part.range_end -ℤ part.range_start +ℤ pos 1

-- is_part_finished of src/client/client_gets.c
unfoldable pub is_part_finished : MultipartPartInfo → Bool
unfolding get_part_total_size
is_part_finished part = not (ltb_ℤ part.finished_bytes (get_part_total_size part))

-- What `stat` says of the file at a path.
abbrev pub Sizes : Type 0
Sizes = Bytes → Option ℕ

unfoldable pub sync_part : Sizes → MultipartPartInfo → MultipartPartInfo
unfolding get_part_total_size
sync_part sizes part = record part {
  finished_bytes = elim (sizes part.part_file_path) [
    | none ↦ pos 0
    | some size ↦
        if ltb_ℤ (pos size) (get_part_total_size part) then pos size else get_part_total_size part
  ];
}

-- The loop over the first `count` parts.
unfoldable pub sync_parts : Sizes → ℕ → List MultipartPartInfo → List MultipartPartInfo
unfolding sync_part
sync_parts sizes zero parts = parts
sync_parts sizes (suc count) [] = []
sync_parts sizes (suc count) (p ∷ parts) = sync_part sizes p ∷ sync_parts sizes count parts

unfoldable pub sync_finished_bytes_from_part_files : Sizes → MultipartTaskMeta → MultipartTaskMeta
unfolding sync_parts
sync_finished_bytes_from_part_files sizes meta = record meta {
  parts = sync_parts sizes (pos_part meta.part_count) meta.parts;
}

-- The loop over parts and sources; both lists have at least `count` entries.
unfoldable pub same_sources : ℕ → List MultipartPartInfo → List SourceServer → Bool
same_sources zero parts sources = true
same_sources (suc n) (p ∷ parts) (s ∷ sources) =
    str_eq p.source_ip (c_string s.ip)
    && str_eq p.source_port (c_string s.port)
    && same_sources n parts sources
same_sources (suc n) _ _ = true

unfoldable pub is_meta_compatible : MultipartTaskMeta → MultiGetsPlanPacket → Bool
unfolding same_sources
is_meta_compatible meta plan =
    if not (str_eq meta.file_name (c_string plan.file_name))
    then false
    else if not (str_eq meta.file_hash (c_string plan.file_hash))
    then false
    else if not (eqb_ℤ meta.file_size plan.file_size)
    then false
    else if not (ltb_ℤ (pos 0) meta.part_count)
        || ltb_ℤ (pos max_source_server_count) meta.part_count
        || not (eqb_ℤ meta.part_count plan.source_count)
    then false
    else same_sources (pos_part meta.part_count) meta.parts plan.sources

-- all_parts_finished of src/client/client_gets.c
unfoldable pub all_parts_finished : ℕ → List MultipartPartInfo → Bool
unfolding is_part_finished
all_parts_finished zero parts = true
all_parts_finished (suc n) [] = true
all_parts_finished (suc n) (p ∷ parts) = is_part_finished p && all_parts_finished n parts

-- The client's files, by path.
abbrev pub Files : Type 0
Files = Bytes → Option Bytes

abbrev pub merge_buffer_size : ℕ
merge_buffer_size = 4096

-- How the calls of a merge go: whether the output is opened, how far each read of a part's file goes,
-- whether the read at its end succeeds, and how far the writes of each piece go.
pub record MergeDisk : Type 0 where
  pub creates : Bool
  pub reads : ℕ → Calls
  pub ends : ℕ → Bool
  pub writes : ℕ → ℕ → Calls

-- The loop over one part's file, from what is still to be read, and what it has written.
unfoldable pub copy_part : MergeDisk → ℕ → ℕ → ℕ → Bytes → Outcome × Bytes
unfolding write_file_full
copy_part disk i zero k s = (stuck, [])
copy_part disk i (suc fuel) k [] = (if disk.ends i then done else failed, [])
copy_part disk i (suc fuel) k (c ∷ s) =
    elim (disk.reads i k (min merge_buffer_size (length (c ∷ s)))) [
      | none ↦ (failed, [])
      | some r ↦
          let w = write_file_full (disk.writes i k) (take (suc r) (c ∷ s)) in
          let rest = copy_part disk i fuel (k + 1) (drop (suc r) (c ∷ s)) in
          elim w.0 [
            | done ↦ (rest.0, w.1 ++ rest.1)
            | failed ↦ (failed, w.1)
            | stuck ↦ (stuck, w.1)
          ]
    ]

-- The bytes that were copied, where the copy is done.
abbrev pub copied : Outcome × Bytes → Option Bytes
copied (done, s) = some s
copied (failed, s) = none
copied (stuck, s) = none

-- The loop over the parts, from part i on.
unfoldable pub merge_loop : MergeDisk → Files → ℕ → ℕ → List MultipartPartInfo → Option Bytes
unfolding copy_part
merge_loop disk files i zero parts = some []
merge_loop disk files i (suc n) [] = some []
merge_loop disk files i (suc n) (p ∷ parts) =
    let rest = merge_loop disk files (i + 1) n parts in
    elim (files p.part_file_path) [
      | none ↦ none
      | some content ↦ elim (copied (copy_part disk i (suc (length content)) 0 content)) [
        | none ↦ none
        | some s ↦ elim rest [ none ↦ none | some more ↦ some (s ++ more) ]
      ]
    ]

-- merge_part_files of src/client/client_gets.c: the content of the merged file, or `none` where it returns
-- -1. Its write_file_full is the one of the server.
unfoldable pub merge_part_files : MergeDisk → Files → ℕ → List MultipartPartInfo → Option Bytes
unfolding merge_loop
merge_part_files disk files n parts = if disk.creates then merge_loop disk files 0 n parts else none
