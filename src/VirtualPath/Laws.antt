-- ===== src/VirtualPath/Laws.antt =====
-- Joining and splitting virtual paths: the control connection joins, the transfer connection splits.
use wind_cloud_v.Shared.{
  ℕ, ◌+◌, ◌≤◌, ◌<◌, ◌≡◌, refl, ap, ◌∙◌, ◌≢◌, ◌⊎◌, inl, inr, true, false, [], ◌∷◌, ◌++◌, some, arith,
  length, length-append, if◌then◌else◌,
}
use wind_cloud_v.Shared.Text.{
  Bytes, codes, str_eq, str_eq_iff, is_empty, has_byte, split_last, split_last-append,
  strcpy-eq-some, snprintf-eq-some, truncated_fits,
}
use wind_cloud_v.VirtualPath.{
  slash, root, is_absolute, check_arg_path, join_path, build_abs_path, cut_last, cd_target,
  get_parent_path, extract_file_name, build_full_virtual_path, build_transfer_full_path,
  split_full_path, split_at_slash, full_path_len, next_client_path, update_client_path_after_cd,
  current_path_len,
}

-- The part of a joined path in front of its last slash: nothing for the root.
pub stem : Bytes → Bytes
stem path = if str_eq path root then [] else path

pub join_path-stem : (path arg : Bytes) → join_path path arg ≡ stem path ++ slash ∷ arg
unfolding join_path stem
join_path-stem path arg = ground arith

pub split_last-join_path :
    (path arg : Bytes)
    → has_byte slash arg ≡ false
    → split_last slash (join_path path arg) ≡ some (stem path, arg)
split_last-join_path path arg h =
    ap (split_last slash) (join_path-stem path arg) ∙ split_last-append slash (stem path) arg h

-- What the code does with the part in front of the last slash gives the directory back.
stem-restores :
    (path : Bytes)
    → is_absolute path ≡ true
    → (if is_empty (stem path) then root else stem path) ≡ path
unfolding stem
stem-restores [] a = cc
stem-restores (c ∷ p) a = ground (arith, str_eq_iff (c ∷ p) root)

pub extract_file_name-join_path :
    (path arg : Bytes) → has_byte slash arg ≡ false → extract_file_name (join_path path arg) ≡ arg
unfolding extract_file_name
extract_file_name-join_path path arg h = rw (split_last-join_path path arg h, extract_file_name)

pub cut_last-join_path :
    (path arg : Bytes)
    → is_absolute path ≡ true
    → has_byte slash arg ≡ false
    → cut_last (join_path path arg) ≡ path
unfolding cut_last
cut_last-join_path path arg a h =
    rw (split_last-join_path path arg h, cut_last) (stem-restores path a)

join_path-ne-root : (path arg : Bytes) → arg ≢ [] → str_eq (join_path path arg) root ≡ false
unfolding join_path str_eq
join_path-ne-root path [] h = absurd (h refl)
join_path-ne-root [] (x ∷ arg) h = ground arith
join_path-ne-root (c ∷ []) (x ∷ arg) h = ground arith
join_path-ne-root (c ∷ d ∷ p) (x ∷ arg) h = ground arith

is_absolute-has_byte : (arg : Bytes) → has_byte slash arg ≡ false → is_absolute arg ≡ false
unfolding has_byte
is_absolute-has_byte [] h = refl
is_absolute-has_byte (x ∷ arg) h = ground arith

build_abs_path-relative :
    (path arg : Bytes) {target : Bytes}
    → has_byte slash arg ≡ false
    → build_abs_path path arg ≡ some target
    → target ≡ join_path path arg
unfolding build_abs_path
build_abs_path-relative path arg h e =
    (strcpy-eq-some 256 _ (rw (is_absolute-has_byte arg h, build_abs_path) at e)).0

-- Going into an entry `arg` of the directory `path` and back with `..` leads to `path` again,
-- whenever `path` is absolute and `arg` is a single, not empty name.
pub get_parent_path-build_abs_path :
    (path arg target : Bytes)
    → is_absolute path ≡ true
    → has_byte slash arg ≡ false
    → arg ≢ []
    → build_abs_path path arg ≡ some target
    → (get_parent_path target ≡ path) × (extract_file_name target ≡ arg)
unfolding get_parent_path
get_parent_path-build_abs_path path arg target a h n e = rw (build_abs_path-relative path arg h e) (
  rw (join_path-ne-root path arg n) (cut_last-join_path path arg a h),
  extract_file_name-join_path path arg h,
)

is_absolute-join_path :
    (path arg : Bytes) → is_absolute path ≡ true → is_absolute (join_path path arg) ≡ true
unfolding join_path
is_absolute-join_path [] arg a = cc
is_absolute-join_path (c ∷ p) arg a = ground arith

length-stem : (path arg : Bytes) → length (stem path) + 1 ≤ length (join_path path arg)
length-stem path arg =
    rw (join_path-stem path arg) (omega (arith, length-append (stem path) (slash ∷ arg)))

-- What `build_transfer_full_path` accepts is one name, with no `..` and no slash, in the directory.
build_transfer_full_path_sound :
    (size : ℕ) (path arg : Bytes) {full : Bytes}
    → build_transfer_full_path size path arg ≡ some full
    → (full ≡ join_path path arg)
      × (length full < size)
      × (check_arg_path arg ≡ true)
      × (has_byte slash arg ≡ false)
unfolding build_transfer_full_path
build_transfer_full_path_sound size path arg {full} e =
    ground (arith, snprintf-eq-some size (join_path path arg) {t = full})

check_arg_path-not-empty : (arg : Bytes) → check_arg_path arg ≡ true → is_empty arg ≡ false
unfolding check_arg_path
check_arg_path-not-empty arg h = ground arith

split_at_slash-name :
    (path arg : Bytes)
    → is_absolute path ≡ true
    → is_empty arg ≡ false
    → length path < 256
    → length arg < 256
    → split_at_slash 256 256 (stem path, arg) ≡ some (path, arg)
unfolding split_at_slash stem
split_at_slash-name [] arg a n p q = cc
split_at_slash-name (c ∷ p) arg a n h q =
    ground (arith, truncated_fits 256 arg, truncated_fits 256 root, str_eq_iff (c ∷ p) root)

-- The transfer connection recovers from a ticket's full path exactly the directory and the name
-- from which the control connection built it, for an absolute directory that fits the 256 bytes of
-- `current_path` and a name that fits the 256 bytes of `FILE_NAME_LEN`.
pub split_full_path-build_transfer_full_path :
    (path arg full : Bytes)
    → is_absolute path ≡ true
    → length path < current_path_len
    → length arg < 256
    → build_transfer_full_path full_path_len path arg ≡ some full
    → split_full_path current_path_len 256 full ≡ some (path, arg)
unfolding split_full_path
split_full_path-build_transfer_full_path path arg full a p q e =
    let (same, _, ok, h) = build_transfer_full_path_sound full_path_len path arg e in
    rw (same, is_absolute-join_path path arg a, split_last-join_path path arg h)
      (split_at_slash-name path arg a (check_arg_path-not-empty arg ok) p q)

-- The two functions that build a path of a directory and a name do the same checks.
pub build_full_virtual_path-build_transfer_full_path :
    (path arg full : Bytes)
    → build_transfer_full_path full_path_len path arg ≡ some full
    → build_full_virtual_path full_path_len path arg ≡ some full
unfolding build_transfer_full_path build_full_virtual_path
build_full_virtual_path-build_transfer_full_path path arg full e = ground arith

-- Either way the new path fits a buffer of 256 bytes.
cd_target_cases :
    (path arg : Bytes) {target : Bytes}
    → cd_target path arg ≡ some target
    → (length target < 256)
      × (((str_eq arg (codes "..") ≡ true) × (target ≡ get_parent_path path))
          ⊎ ((str_eq arg (codes "..") ≡ false)
              × (target ≡ (if is_absolute arg then arg else join_path path arg))))
unfolding cd_target build_abs_path
cd_target_cases path arg {target} e = ground (
  arith,
  strcpy-eq-some 256 (get_parent_path path) {t = target},
  strcpy-eq-some 256 arg {t = target},
  strcpy-eq-some 256 (join_path path arg) {t = target},
)

-- What the client computes, once the server's result is known to be short.
next_client_path-fits :
    (path arg target : Bytes)
    → length path < current_path_len
    → length target < 256
    → str_eq arg (codes "..") ≡ false
    → target ≡ (if is_absolute arg then arg else join_path path arg)
    → next_client_path path arg ≡ target
unfolding next_client_path
next_client_path-fits path arg target l k n e =
    ground (arith, truncated_fits 512 arg, truncated_fits 512 (join_path path arg))

update_client_path-parent :
    (path arg : Bytes)
    → length path < current_path_len
    → length (get_parent_path path) < 256
    → str_eq arg (codes ".") ≡ false
    → str_eq arg (codes "..") ≡ true
    → update_client_path_after_cd path arg ≡ get_parent_path path
unfolding update_client_path_after_cd next_client_path get_parent_path
update_client_path-parent path arg l k n up =
    ground (arith, truncated_fits 512 path, str_eq_iff path root)

-- The path that the client shows after a `cd` equals the path that the server moves to, for every
-- argument other than `.`, whenever both showed the same path of less than 256 bytes before and
-- the server's new path fits its buffer.
pub update_client_path_after_cd-cd_target :
    (path arg target : Bytes)
    → length path < current_path_len
    → str_eq arg (codes ".") ≡ false
    → cd_target path arg ≡ some target
    → update_client_path_after_cd path arg ≡ target
unfolding update_client_path_after_cd
update_client_path_after_cd-cd_target path arg target l n e =
    let (k, moved) = cd_target_cases path arg e in
    elim moved [
      | inl (up, t) ↦ rw t (update_client_path-parent path arg l (rw t at k) n up)
      | inr (down, t) ↦ ground (arith, next_client_path-fits path arg target l k down t)
    ]
