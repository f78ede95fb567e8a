-- ===== src/FileTable/Laws.antt =====
-- The reference count that `files` records for an id, and how each statement changes it.
use wind_cloud_v.Shared.{
  ℕ, ◌+◌, ◌-◌, ◌≡◌, refl, false, List, [], ◌∷◌, ◌++◌, map, Option, none, some, arith, ◌==◌,
  if◌then◌else◌, inl, inr, Bool-cases,
}
use wind_cloud_v.Shared.Text.{Bytes, str_eq, str_eq_refl}
use wind_cloud_v.Vfs.{FileRow, has_id}
use wind_cloud_v.FileTable.{find_hash, find_file, add_count, sub_count, delete_file}

unfoldable pub recorded : ℕ → List FileRow → Option ℕ
unfolding find_file
recorded i rows = elim (find_file i rows) [ none ↦ none | some row ↦ some row.count ]

pub recorded-add_count :
    (file i : ℕ) (rows : List FileRow)
    → recorded i (add_count file rows)
      ≡ elim (recorded i rows) [ none ↦ none | some n ↦ some (if i == file then n + 1 else n) ]
unfolding recorded add_count
recorded-add_count file i [] = refl
recorded-add_count file i (row ∷ rows) = ground (arith, recorded-add_count file i rows)

pub recorded-sub_count :
    (file i : ℕ) (rows : List FileRow)
    → recorded i (sub_count file rows)
      ≡ elim (recorded i rows) [ none ↦ none | some n ↦ some (if i == file then n - 1 else n) ]
unfolding recorded sub_count
recorded-sub_count file i [] = refl
recorded-sub_count file i (row ∷ rows) = ground (arith, recorded-sub_count file i rows)

pub recorded-delete_file :
    (file i : ℕ) (rows : List FileRow)
    → recorded i (delete_file file rows) ≡ (if i == file then none else recorded i rows)
unfolding recorded delete_file
recorded-delete_file file i [] = ground arith
recorded-delete_file file i (row ∷ rows) = ground (arith, recorded-delete_file file i rows)

abbrev pub file_ids : List FileRow → List ℕ
file_ids rows = map (λ r. r.id) rows

pub recorded_fresh :
    (i : ℕ) (rows : List FileRow) → has_id i (file_ids rows) ≡ false → recorded i rows ≡ none
unfolding recorded has_id
recorded_fresh i [] h = refl
recorded_fresh i (row ∷ rows) h = ground (arith, recorded_fresh i rows)

pub recorded-append :
    (i : ℕ) (rows : List FileRow) (row : FileRow)
    → recorded row.id rows ≡ none
    → recorded i (rows ++ (row ∷ [])) ≡ (if i == row.id then some row.count else recorded i rows)
unfolding recorded
recorded-append i [] row h = ground arith
recorded-append i (r ∷ rows) row h = ground (arith, recorded-append i rows row)

-- A record that a hash finds is a record that its id finds.
pub recorded-find_hash :
    (hash : Bytes) (rows : List FileRow) {row : FileRow}
    → find_hash hash rows ≡ some row
    → (n : ℕ) × (recorded row.id rows ≡ some n)
unfolding recorded find_hash
recorded-find_hash hash [] h = absurd (ground arith)
recorded-find_hash hash (r ∷ rows) {row} h = elim (Bool-cases (str_eq r.sha256sum hash)) [
  | inl e ↦ (r.count, ground arith)
  | inr e ↦ elim (Bool-cases (r.id == row.id)) [
    | inl f ↦ (r.count, ground arith)
    | inr f ↦
        let (n, p) = recorded-find_hash hash rows {row = row} (ground arith) in (n, ground arith)
  ]
]

-- A new record is what its hash finds.
pub find_hash-append :
    (hash : Bytes) (rows : List FileRow) (row : FileRow)
    → row.sha256sum ≡ hash
    → find_hash hash rows ≡ none
    → find_hash hash (rows ++ (row ∷ [])) ≡ some row
unfolding find_hash
find_hash-append hash [] row s h = ground (arith, s, str_eq_refl hash)
find_hash-append hash (r ∷ rows) row s h = ground (arith, find_hash-append hash rows row s)
