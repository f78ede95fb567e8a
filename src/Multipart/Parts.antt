-- ===== src/Multipart/Parts.antt =====
-- The ranges of the parts of a plan, and the merge of the part files.
use wind_cloud_v.Shared.{
  ℕ, zero, suc, ◌+◌, ◌-◌, ◌*◌, ◌/◌, ◌%◌, ◌≤◌, ◌<◌, ◌≡◌, refl, sym, ap, ◌∙◌, ◌⊎◌, inl, inr, true,
  List, [], ◌∷◌, ◌++◌, Option, none, some, arith, ltb, if◌then◌else◌, length, take, drop,
  take-append-drop, Option-cases, Bool-cases, Bool, false,
}
use mathlib.Core.Path.{subst}
use wind_cloud_v.Shared.Int.{pos, pos_part, ◌+ℤ◌, ◌-ℤ◌}
use wind_cloud_v.Shared.Text.{Bytes}
use wind_cloud_v.Protocol.Stream.Complete.{drop-add}
use wind_cloud_v.Protocol.{SourceServer, MultiGetsPlanPacket}
use wind_cloud_v.Multipart.{
  MultipartPartInfo, MultipartTaskMeta, make_part, init_parts_loop, plan_sources,
  init_parts_from_plan, get_part_total_size, is_part_finished, sync_part, Sizes, Files,
  merge_part_files, merge_loop, MergeDisk, copy_part, copied,
}
use wind_cloud_v.Multipart.Merge.{IsBoundedDisk, NeverFailsDisk, copy_part-all}

-- The bytes of the file in the range of a part; `range_end` is inclusive, and one less than
-- `range_start` for an empty part.
abbrev pub part_bytes : Bytes → MultipartPartInfo → Bytes
part_bytes file part =
    take (pos_part (get_part_total_size part)) (drop (pos_part part.range_start) file)

pub all_bytes : Bytes → List MultipartPartInfo → Bytes
all_bytes file [] = []
all_bytes file (p ∷ parts) = part_bytes file p ++ all_bytes file parts

-- What make_part fixes of a part.
make_part-total :
    (dir : Bytes) (i start size : ℕ) (source : SourceServer) {part : MultipartPartInfo}
    → make_part dir i start size source ≡ some part
    → (part.range_start ≡ pos start) × (get_part_total_size part ≡ pos size) × (part.part_index ≡ i)
unfolding make_part get_part_total_size ◌+ℤ◌ ◌-ℤ◌
make_part-total dir i start size source e = ground arith

abbrev size_of : ℕ → ℕ → ℕ
size_of base remainder = if ltb 0 remainder then base + 1 else base

init_parts_loop-cons :
    (dir : Bytes) (base i remainder start : ℕ) (s : SourceServer) (sources : List SourceServer)
    {parts : List MultipartPartInfo}
    → init_parts_loop dir base i remainder start (s ∷ sources) ≡ some parts
    → (p : MultipartPartInfo) × (ps : List MultipartPartInfo) × (make_part dir i start
          (size_of base remainder)
          s
        ≡ some p)
      × (init_parts_loop dir base (i + 1) (remainder - 1) (start + size_of base remainder) sources
          ≡ some ps)
      × (parts ≡ p ∷ ps)
unfolding init_parts_loop
init_parts_loop-cons dir base i remainder start s sources e =
    elim (Option-cases (make_part dir i start (size_of base remainder) s)) [
      | inl f ↦ absurd (ground arith)
      | inr (p, f) ↦
          elim (Option-cases (
            init_parts_loop dir base (i + 1) (remainder - 1) (start + size_of base remainder)
              sources)) [
                | inl g ↦ absurd (ground arith)
                | inr (ps, g) ↦ (p, ps, f, g, ground arith)
              ]
    ]

drop_all : (n : ℕ) (s : Bytes) → length s ≤ n → drop n s ≡ []
drop_all zero [] h = refl
drop_all zero (c ∷ s) h = absurd (omega arith)
drop_all (suc n) [] h = refl
drop_all (suc n) (c ∷ s) h = drop_all n s (omega arith)

init_parts_loop-all_bytes :
    (dir file : Bytes) (base i remainder start : ℕ) (sources : List SourceServer)
    {parts : List MultipartPartInfo}
    → init_parts_loop dir base i remainder start sources ≡ some parts
    → remainder ≤ length sources
    → start + (length sources * base + remainder) ≡ length file
    → (all_bytes file parts ≡ drop start file) × (length parts ≡ length sources)
unfolding init_parts_loop all_bytes
init_parts_loop-all_bytes dir file base i remainder start [] {parts} e r t =
    let done : [] ≡ parts = ground arith in
    rw (← done) (sym (drop_all start file (omega arith)), refl)
init_parts_loop-all_bytes dir file base i remainder start (s ∷ sources) {parts} e r t =
    let (p, ps, made, more, same) = init_parts_loop-cons dir base i remainder start s sources e in
    let (from, size, _) = make_part-total dir i start (size_of base remainder) s made in
    let (rest, count) =
      init_parts_loop-all_bytes dir file base (i + 1) (remainder - 1)
        (start + size_of base remainder) sources more (ground arith) (ground arith) in
    rw (same, from, size, rest, drop-add start (size_of base remainder) file)
      (take-append-drop (size_of base remainder) (drop start file), ap suc count)

length-plan_sources :
    (n : ℕ) (sources : List SourceServer) → n ≤ length sources → length (plan_sources n sources) ≡ n
unfolding plan_sources
length-plan_sources zero sources h = refl
length-plan_sources (suc n) [] h = absurd (omega arith)
length-plan_sources (suc n) (s ∷ sources) h = ap suc (length-plan_sources n sources (omega arith))

-- The first n parts of a task.
unfoldable pub first_parts : ℕ → List MultipartPartInfo → List MultipartPartInfo
first_parts zero parts = []
first_parts (suc n) [] = []
first_parts (suc n) (p ∷ parts) = p ∷ first_parts n parts

first_parts-append :
    (n : ℕ) (ps qs : List MultipartPartInfo) → length ps ≡ n → first_parts n (ps ++ qs) ≡ ps
unfolding first_parts
first_parts-append zero [] qs h = refl
first_parts-append zero (p ∷ ps) qs h = absurd (omega arith)
first_parts-append (suc n) [] qs h = absurd (omega arith)
first_parts-append (suc n) (p ∷ ps) qs h = ap (◌∷◌ p) (first_parts-append n ps qs (omega arith))

plan_loop : ℕ → MultiGetsPlanPacket → MultipartTaskMeta → Option (List MultipartPartInfo)
plan_loop size plan meta =
    let count = pos_part plan.source_count in
    init_parts_loop meta.task_dir (size / count) 0 (size % count) 0
      (plan_sources count plan.sources)

init_parts_from_plan-some :
    (size : ℕ) (plan : MultiGetsPlanPacket) (meta meta' : MultipartTaskMeta)
    → init_parts_from_plan (pos size) plan meta ≡ some meta'
    → (parts : List MultipartPartInfo) × (plan_loop size plan meta ≡ some parts)
      × (0 < pos_part plan.source_count)
      × (meta'.part_count ≡ plan.source_count)
      × (meta'.parts ≡ parts ++ drop (pos_part plan.source_count) meta.parts)
unfolding init_parts_from_plan plan_loop
init_parts_from_plan-some size plan meta meta' e = elim (Option-cases (plan_loop size plan meta)) [
  | inl f ↦ absurd (ground arith)
  | inr (parts, f) ↦ (parts, f, ground arith, ground arith, ground arith)
]

-- The parts that the client makes of a plan cover the file: their ranges, put together in the
-- order of the parts, give every byte of it once. (The file has the size that the plan names, and
-- the plan lists as many sources as it counts.)
pub init_parts_from_plan-all_bytes :
    (file : Bytes) (plan : MultiGetsPlanPacket) (meta meta' : MultipartTaskMeta)
    → pos_part plan.source_count ≤ length plan.sources
    → init_parts_from_plan (pos (length file)) plan meta ≡ some meta'
    → (meta'.part_count ≡ plan.source_count)
      × (all_bytes file (first_parts (pos_part meta'.part_count) meta'.parts) ≡ file)
init_parts_from_plan-all_bytes file plan meta meta' h e =
    let n = pos_part plan.source_count in
    let (parts, f, p, c, same) = init_parts_from_plan-some (length file) plan meta meta' e in
    let picked = length-plan_sources n plan.sources h in
    let (whole, count) =
      init_parts_loop-all_bytes meta.task_dir file (length file / n) 0 (length file % n) 0
        (plan_sources n plan.sources) {parts = parts} (unfold plan_loop in f)
        (rw picked (omega arith)) (rw picked (grind arith)) in
    (c, rw (c, same, first_parts-append n parts (drop n meta.parts) (count ∙ picked)) whole)

-- Each part file holds what it should.
abbrev pub HoldsParts : Files → Bytes → List MultipartPartInfo → Type 0
HoldsParts files file [] = Unit {0}
HoldsParts files file (p ∷ parts) =
    (files p.part_file_path ≡ some (part_bytes file p)) × HoldsParts files file parts

-- The merge gives this content, or it fails and some call has failed.
abbrev pub IsMerged : MergeDisk → Bytes → Option Bytes → Type 0
IsMerged disk content r = (r ≡ some content) ⊎ ((r ≡ none) × ¬ NeverFailsDisk disk)

merge_loop-IsMerged :
    (disk : MergeDisk) (files : Files) (file : Bytes) (i n : ℕ) (parts : List MultipartPartInfo)
    → IsBoundedDisk disk
    → HoldsParts files file (first_parts n parts)
    → IsMerged disk (all_bytes file (first_parts n parts)) (merge_loop disk files i n parts)
unfolding merge_loop all_bytes first_parts
merge_loop-IsMerged disk files file i zero parts bounded h = inl refl
merge_loop-IsMerged disk files file i (suc n) [] bounded h = inl refl
merge_loop-IsMerged disk files file i (suc n) (p ∷ parts) bounded (e, h) =
    let s = part_bytes file p in
    let rest = merge_loop-IsMerged disk files file (i + 1) n parts bounded h in
    elim (copy_part-all disk bounded i (suc (length s)) 0 s (omega arith)) [
      | inr (q, broke) ↦ inr (rw (merge_loop, e, q) refl, broke)
      | inl q ↦ elim rest [
        | inl r ↦ inl (rw (merge_loop, e, q, r) refl)
        | inr (r, broke) ↦ inr (rw (merge_loop, e, q, r) refl, broke)
      ]
    ]

-- The output is opened first.
created-IsMerged :
    (disk : MergeDisk) (content : Bytes) (creates : Bool)
    → disk.creates ≡ creates
    → (r : Option Bytes) → IsMerged disk content r
    → IsMerged disk content (if creates then r else none)
created-IsMerged disk content true y r m = m
created-IsMerged disk content false y r m = inr (refl, λ works. ground (arith, y, works.creates))

-- When every part file holds the bytes of its range, merging the part files gives the file, for
-- every plan that the client accepted, or fails after a call that failed.
pub merge_part_files-init_parts_from_plan :
    (disk : MergeDisk) (files : Files) (file : Bytes) (plan : MultiGetsPlanPacket)
    (meta meta' : MultipartTaskMeta)
    → IsBoundedDisk disk
    → pos_part plan.source_count ≤ length plan.sources
    → init_parts_from_plan (pos (length file)) plan meta ≡ some meta'
    → HoldsParts files file (first_parts (pos_part meta'.part_count) meta'.parts)
    → IsMerged disk file (merge_part_files disk files (pos_part meta'.part_count) meta'.parts)
unfolding merge_part_files
merge_part_files-init_parts_from_plan disk files file plan meta meta' bounded h e holds =
    created-IsMerged disk file disk.creates refl
      (merge_loop disk files 0 (pos_part meta'.part_count) meta'.parts)
      (subst
        (λ c. IsMerged disk c (merge_loop disk files 0 (pos_part meta'.part_count) meta'.parts))
        (init_parts_from_plan-all_bytes file plan meta meta' h e).1
        (merge_loop-IsMerged disk files file 0 (pos_part meta'.part_count) meta'.parts bounded
          holds))

-- No file stands at the path of a part of no byte.
abbrev pub EmptyPartsUnmade : Files → List MultipartPartInfo → Type 0
EmptyPartsUnmade files [] = Unit {0}
EmptyPartsUnmade files (p ∷ parts) =
    (get_part_total_size p ≡ pos 0 → files p.part_file_path ≡ none) × EmptyPartsUnmade files parts

merge_loop-missing :
    (disk : MergeDisk) (files : Files) (i n : ℕ) (p : MultipartPartInfo)
    (parts : List MultipartPartInfo)
    → (files p.part_file_path ≡ none) ⊎ (merge_loop disk files (i + 1) n parts ≡ none)
    → merge_loop disk files i (suc n) (p ∷ parts) ≡ none
unfolding merge_loop
merge_loop-missing disk files i n p parts (inl e) = rw (merge_loop, e) refl
merge_loop-missing disk files i n p parts (inr e) = elim (Option-cases (files p.part_file_path)) [
  | inl x ↦ rw (merge_loop, x) refl
  | inr (content, x) ↦
      elim (Option-cases (copied (copy_part disk i (suc (length content)) 0 content))) [
        | inl y ↦ rw (merge_loop, x, y) refl
        | inr (s, y) ↦ rw (merge_loop, x, y, e) refl
      ]
]

-- Where the remainder does not reach every part of base size 0, some part is empty.
init_parts_loop-empty :
    (disk : MergeDisk) (files : Files) (j : ℕ) (dir : Bytes) (i remainder start : ℕ)
    (sources : List SourceServer) {parts : List MultipartPartInfo} (more : List MultipartPartInfo)
    → init_parts_loop dir 0 i remainder start sources ≡ some parts
    → remainder < length sources
    → EmptyPartsUnmade files parts
    → merge_loop disk files j (length sources) (parts ++ more) ≡ none
init_parts_loop-empty disk files j dir i remainder start [] more e r h = absurd (omega arith)
init_parts_loop-empty disk files j dir i zero start (s ∷ sources) {parts} more e r h =
    let (p, ps, made, rest, same) = init_parts_loop-cons dir 0 i 0 start s sources e in
    let (_, size, _) = make_part-total dir i start 0 s made in
    rw same (
      merge_loop-missing disk files j (length sources) p (ps ++ more)
        (inl ((subst (EmptyPartsUnmade files) same h).0 size)))
init_parts_loop-empty disk files j dir i (suc remainder) start (s ∷ sources) {parts} more e r h =
    let (p, ps, made, rest, same) =
      init_parts_loop-cons dir 0 i (suc remainder) start s sources e in
    rw same (
      merge_loop-missing disk files j (length sources) p (ps ++ more) (
        inr (
          init_parts_loop-empty disk files (j + 1) dir (i + 1) (suc remainder - 1)
            (start + size_of 0 (suc remainder)) sources more rest (omega arith)
            (subst (EmptyPartsUnmade files) same h).1)))

length-init_parts_loop :
    (dir : Bytes) (base i remainder start : ℕ) (sources : List SourceServer)
    {parts : List MultipartPartInfo}
    → init_parts_loop dir base i remainder start sources ≡ some parts
    → length parts ≡ length sources
unfolding init_parts_loop
length-init_parts_loop dir base i remainder start [] {parts} e = ground arith
length-init_parts_loop dir base i remainder start (s ∷ sources) {parts} e =
    let (p, ps, made, rest, same) = init_parts_loop-cons dir base i remainder start s sources e in
    rw same (
      ap suc (
        length-init_parts_loop dir base (i + 1) (remainder - 1) (start + size_of base remainder)
          sources rest))

merge_part_files-loop :
    (disk : MergeDisk) (files : Files) (n : ℕ) (parts : List MultipartPartInfo)
    → merge_loop disk files 0 n parts ≡ none
    → merge_part_files disk files n parts ≡ none
unfolding merge_part_files
merge_part_files-loop disk files n parts e = elim (Bool-cases disk.creates) [
  | inl y ↦ rw y e
  | inr y ↦ rw y refl
]

is_part_finished-empty :
    (sizes : Sizes) (p : MultipartPartInfo)
    → get_part_total_size p ≡ pos 0
    → is_part_finished (sync_part sizes p) ≡ true
unfolding is_part_finished sync_part get_part_total_size
is_part_finished-empty sizes p h = ground arith

-- The client cannot download a file with fewer bytes than there are sources: a part of no byte
-- counts as finished, so that nothing is fetched for it, and where no file stands at the path of
-- such a part the merge of the part files fails.
pub merge_part_files_small :
    (disk : MergeDisk) (files : Files) (sizes : Sizes) (size : ℕ) (plan : MultiGetsPlanPacket)
    (meta meta' : MultipartTaskMeta)
    → pos_part plan.source_count ≤ length plan.sources
    → size < pos_part plan.source_count
    → init_parts_from_plan (pos size) plan meta ≡ some meta'
    → EmptyPartsUnmade files (first_parts (pos_part meta'.part_count) meta'.parts)
    → (merge_part_files disk files (pos_part meta'.part_count) meta'.parts ≡ none)
      × ((p : MultipartPartInfo)
          → get_part_total_size p ≡ pos 0
          → is_part_finished (sync_part sizes p) ≡ true)
merge_part_files_small disk files sizes size plan meta meta' h small e unmade =
    let n = pos_part plan.source_count in
    let (parts, f, p, c, same) = init_parts_from_plan-some size plan meta meta' e in
    let picked = length-plan_sources n plan.sources h in
    let base : size / n ≡ 0 = grind arith in
    let f' : init_parts_loop meta.task_dir (size / n) 0 (size % n) 0 (plan_sources n plan.sources)
        ≡ some parts =
      unfold plan_loop in f in
    let held : EmptyPartsUnmade files parts =
      subst (EmptyPartsUnmade files)
        (first_parts-append n parts (drop n meta.parts) (
          length-init_parts_loop meta.task_dir (size / n) 0 (size % n) 0
            (plan_sources n plan.sources) f'
          ∙ picked))
        (rw (c, same) at unmade) in
    (
      merge_part_files-loop disk files (pos_part meta'.part_count) meta'.parts (
          rw (c, same)
            (rw picked at (
              init_parts_loop-empty disk files 0 meta.task_dir 0 (size % n) 0
                (plan_sources n plan.sources) (drop n meta.parts) (rw base at f')
                (rw picked (grind arith)) held))),
      is_part_finished-empty sizes,
    )
