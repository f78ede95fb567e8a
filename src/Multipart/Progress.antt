-- ===== src/Multipart/Progress.antt =====
-- What the client takes for the progress of a part, and a download that was broken off.
use wind_cloud_v.Shared.{
  ℕ, zero, suc, ◌+◌, ◌≤◌, ◌≡◌, ap, ◌∙◌, ◌↔◌, true, List, [], ◌∷◌, none, some, arith, length,
  length-take, take, drop, min,
}
use wind_cloud_v.Shared.Int.{ℤ, pos, negsuc, pos_part, ◌+ℤ◌, ◌-ℤ◌}
use wind_cloud_v.Shared.Text.{Bytes, take_all}
use wind_cloud_v.Protocol.{MultiGetsPlanPacket}
use wind_cloud_v.Multipart.{
  MultipartPartInfo, MultipartTaskMeta, init_parts_from_plan, get_part_total_size, is_part_finished,
  all_parts_finished, Sizes, sync_part, sync_parts, sync_finished_bytes_from_part_files, Files,
  merge_part_files, MergeDisk,
}
use wind_cloud_v.Multipart.Merge.{IsBoundedDisk}
use wind_cloud_v.Multipart.Parts.{
  IsMerged, part_bytes, first_parts, HoldsParts, merge_part_files-init_parts_from_plan,
}

-- The sizes of the files, as `stat` tells them.
unfoldable pub sizes_of : Files → Sizes
sizes_of files path = elim (files path) [ none ↦ none | some content ↦ some (length content) ]

sync_part-total :
    (files : Files) (p : MultipartPartInfo) (total : ℕ) (content : Bytes)
    → get_part_total_size p ≡ pos total
    → files p.part_file_path ≡ some content
    → ((sync_part (sizes_of files) p).finished_bytes ≡ pos (min (length content) total))
      × ((is_part_finished (sync_part (sizes_of files) p) ≡ true) ↔ (total ≤ length content))
unfolding sync_part is_part_finished sizes_of get_part_total_size
sync_part-total files p total content t e = (ground arith, ground arith)

range_size :
    (last : ℤ) (first size : ℕ)
    → last +ℤ pos 1 ≡ pos (first + size)
    → last -ℤ pos first +ℤ pos 1 ≡ pos size
unfolding ◌+ℤ◌ ◌-ℤ◌
range_size (pos l) first size e = ground arith
range_size (negsuc l) first size e = ground arith

total_size :
    (p : MultipartPartInfo) (first size : ℕ)
    → p.range_start ≡ pos first
    → p.range_end +ℤ pos 1 ≡ pos (first + size)
    → get_part_total_size p ≡ pos size
unfolding get_part_total_size
total_size p first size f l = rw f (range_size p.range_end first size l)

-- A part from the byte `first` up to, and without, the byte `first + size` counts as finished exactly
-- when its file has at least `size` bytes; its finished bytes are those of the file, and never more
-- than `size`. (range_end names the last byte of the part.)
pub sync_part-size :
    (files : Files) (p : MultipartPartInfo) (first size : ℕ) (content : Bytes)
    → p.range_start ≡ pos first
    → p.range_end +ℤ pos 1 ≡ pos (first + size)
    → files p.part_file_path ≡ some content
    → ((sync_part (sizes_of files) p).finished_bytes ≡ pos (min (length content) size))
      × ((is_part_finished (sync_part (sizes_of files) p) ≡ true) ↔ (size ≤ length content))
sync_part-size files p first size content f l e =
    sync_part-total files p size content (total_size p first size f l) e

-- Each part file holds the first bytes of what it should.
abbrev pub HoldsPrefixes : Files → Bytes → List MultipartPartInfo → Type 0
HoldsPrefixes files file [] = Unit {0}
HoldsPrefixes files file (p ∷ parts) =
    ((n : ℕ) × (files p.part_file_path ≡ some (take n (part_bytes file p))))
    × HoldsPrefixes files file parts

length-part_bytes :
    (file : Bytes) (p : MultipartPartInfo)
    → length (part_bytes file p) ≤ pos_part (get_part_total_size p)
length-part_bytes file p =
    omega
      (arith, length-take (pos_part (get_part_total_size p)) (drop (pos_part p.range_start) file))

finished-length :
    (files : Files) (p : MultipartPartInfo) (content : Bytes)
    → files p.part_file_path ≡ some content
    → is_part_finished (sync_part (sizes_of files) p) ≡ true
    → pos_part (get_part_total_size p) ≤ length content
unfolding sync_part is_part_finished sizes_of get_part_total_size
finished-length files p content e f = ground arith

whole : (n : ℕ) (s : Bytes) → length s ≤ length (take n s) → take n s ≡ s
whole n s h = take_all n s (omega (arith, length-take n s))

finished-HoldsParts :
    (files : Files) (file : Bytes) (n : ℕ) (parts : List MultipartPartInfo)
    → all_parts_finished n (sync_parts (sizes_of files) n parts) ≡ true
    → HoldsPrefixes files file (first_parts n parts)
    → HoldsParts files file (first_parts n parts)
unfolding all_parts_finished sync_parts first_parts
finished-HoldsParts files file zero parts f h = tt
finished-HoldsParts files file (suc n) [] f h = tt
finished-HoldsParts files file (suc n) (p ∷ parts) f ((k, e), h) =
    let done : is_part_finished (sync_part (sizes_of files) p) ≡ true = ground arith in
    let rest : all_parts_finished n (sync_parts (sizes_of files) n parts) ≡ true = ground arith in
    let same = whole k (part_bytes file p) (
      omega (
        arith,
        length-part_bytes file p,
        finished-length files p (take k (part_bytes file p)) e done,
      )) in
    (e ∙ ap some same, finished-HoldsParts files file n parts rest h)

-- However a download was broken off, once the client takes every part for finished from the sizes
-- of the part files, merging them gives the file, or fails after a call that failed, provided that
-- each part file holds the first bytes of its range. (No call moves more than it was asked to.)
pub merge_part_files-resumed :
    (disk : MergeDisk) (files : Files) (file : Bytes) (plan : MultiGetsPlanPacket)
    (meta meta' : MultipartTaskMeta)
    → IsBoundedDisk disk
    → pos_part plan.source_count ≤ length plan.sources
    → init_parts_from_plan (pos (length file)) plan meta ≡ some meta'
    → HoldsPrefixes files file (first_parts (pos_part meta'.part_count) meta'.parts)
    → (let synced = sync_finished_bytes_from_part_files (sizes_of files) meta' in
        all_parts_finished (pos_part synced.part_count) synced.parts ≡ true)
    → IsMerged disk file (merge_part_files disk files (pos_part meta'.part_count) meta'.parts)
unfolding sync_finished_bytes_from_part_files
merge_part_files-resumed disk files file plan meta meta' bounded h e holds finished =
    merge_part_files-init_parts_from_plan disk files file plan meta meta' bounded h e
      (finished-HoldsParts files file (pos_part meta'.part_count) meta'.parts finished holds)
