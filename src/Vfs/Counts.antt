-- ===== src/Vfs/Counts.antt =====
-- The nodes that refer to a record of `files`, and the ids of nodes.
use wind_cloud_v.Shared.{
  ℕ, ◌+◌, ◌≤◌, ◌<◌, ◌≡◌, refl, inl, inr, Bool, true, false, not, ◌&&◌, List, [], ◌∷◌, ◌++◌, none,
  some, arith, ◌==◌, if◌then◌else◌, Bool-cases,
}
use wind_cloud_v.Shared.Int.{ℤ}
use wind_cloud_v.Shared.Text.{Bytes}
use wind_cloud_v.Vfs.{Backend, PathRow, find_node, is_node, delete_rows, has_id, path_ids}

unfoldable pub points : ℕ → PathRow → ℕ
points file row = elim row.file_id [ none ↦ 0 | some f ↦ if f == file then 1 else 0 ]

-- The number of nodes that refer to a record.
unfoldable pub references : ℕ → List PathRow → ℕ
references file [] = 0
references file (row ∷ rows) = points file row + references file rows

-- The number of nodes with an id.
unfoldable pub occurrences : ℕ → List PathRow → ℕ
occurrences node [] = 0
occurrences node (row ∷ rows) = (if row.id == node then 1 else 0) + occurrences node rows

pub references-append :
    (file : ℕ) (rows : List PathRow) (row : PathRow)
    → references file (rows ++ (row ∷ [])) ≡ references file rows + points file row
unfolding references
references-append file [] row = omega arith
references-append file (r ∷ rows) row = omega (arith, references-append file rows row)

pub occurrences-append :
    (node : ℕ) (rows : List PathRow) (row : PathRow)
    → occurrences node (rows ++ (row ∷ []))
      ≡ occurrences node rows + (if row.id == node then 1 else 0)
unfolding occurrences
occurrences-append node [] row = ground arith
occurrences-append node (r ∷ rows) row = ground (arith, occurrences-append node rows row)

pub occurrences_fresh :
    (node : ℕ) (rows : List PathRow)
    → has_id node (path_ids rows) ≡ false
    → occurrences node rows ≡ 0
unfolding occurrences has_id
occurrences_fresh node [] h = refl
occurrences_fresh node (r ∷ rows) h = ground (arith, occurrences_fresh node rows)

pub occurrences-delete_rows :
    (user : ℤ) (node i : ℕ) (rows : List PathRow)
    → occurrences i (delete_rows user node rows) ≤ occurrences i rows
unfolding occurrences delete_rows
occurrences-delete_rows user node i [] = omega arith
occurrences-delete_rows user node i (r ∷ rows) =
    ground (arith, occurrences-delete_rows user node i rows)

-- No row has the id.
delete_rows-absent :
    (user : ℤ) (node : ℕ) (rows : List PathRow)
    → occurrences node rows ≡ 0
    → delete_rows user node rows ≡ rows
unfolding occurrences delete_rows
delete_rows-absent user node [] h = refl
delete_rows-absent user node (r ∷ rows) h = ground (arith, delete_rows-absent user node rows)

occurrences-find_node :
    (b : Backend) (user : ℤ) (path : Bytes) (rows : List PathRow) {row : PathRow}
    → find_node b user path rows ≡ some row
    → 0 < occurrences row.id rows
unfolding occurrences find_node
occurrences-find_node b user path [] e = absurd (ground arith)
occurrences-find_node b user path (r ∷ rows) {row} e = elim (Bool-cases (is_node b user path r)) [
  | inl hit ↦ ground arith
  | inr miss ↦ ground (arith, occurrences-find_node b user path rows {row = row} (ground arith))
]

-- Deleting the node that a path finds takes away what that node refers to, and no more.
pub references-delete_rows :
    (b : Backend) (user : ℤ) (path : Bytes) (file : ℕ) (rows : List PathRow) {row : PathRow}
    → find_node b user path rows ≡ some row
    → occurrences row.id rows ≤ 1
    → references file (delete_rows user row.id rows) + points file row ≡ references file rows
unfolding references occurrences delete_rows find_node is_node
references-delete_rows b user path file [] e u = absurd (ground arith)
references-delete_rows b user path file (r ∷ rows) {row} e u =
    elim (Bool-cases (is_node b user path r)) [
      | inl hit ↦ ground (arith, delete_rows-absent user r.id rows)
      | inr miss ↦
          let e' : find_node b user path rows ≡ some row = ground arith in
          ground (
            arith,
            occurrences-find_node b user path rows e',
            references-delete_rows b user path file rows e',
          )
    ]

-- A file node refers to a record, a directory does not.
unfoldable pub is_shaped : PathRow → Bool
is_shaped row = elim row.file_id [ none ↦ not (row.node_type == 0) | some _ ↦ row.node_type == 0 ]

unfoldable pub all_shaped : List PathRow → Bool
all_shaped [] = true
all_shaped (row ∷ rows) = is_shaped row && all_shaped rows

all_shaped-delete_rows :
    (user : ℤ) (node : ℕ) (rows : List PathRow)
    → all_shaped rows ≡ true
    → all_shaped (delete_rows user node rows) ≡ true
unfolding all_shaped delete_rows
all_shaped-delete_rows user node [] h = refl
all_shaped-delete_rows user node (r ∷ rows) h =
    ground (arith, all_shaped-delete_rows user node rows)

all_shaped-append :
    (rows : List PathRow) (row : PathRow)
    → all_shaped rows ≡ true
    → is_shaped row ≡ true
    → all_shaped (rows ++ (row ∷ [])) ≡ true
unfolding all_shaped
all_shaped-append [] row h s = ground arith
all_shaped-append (r ∷ rows) row h s = ground (arith, all_shaped-append rows row)

-- A directory node refers to no record.
pub points-find_node :
    (b : Backend) (user : ℤ) (path : Bytes) (file : ℕ) (rows : List PathRow) {row : PathRow}
    → all_shaped rows ≡ true
    → find_node b user path rows ≡ some row
    → (row.node_type == 0) ≡ false
    → points file row ≡ 0
unfolding all_shaped is_shaped find_node points
points-find_node b user path file [] h e t = absurd (ground arith)
points-find_node b user path file (r ∷ rows) {row} h e t =
    elim (Bool-cases (is_node b user path r)) [
      | inl hit ↦ ground arith
      | inr miss ↦ ground (arith, points-find_node b user path file rows {row = row})
    ]

-- What the rows of `paths` always satisfy: their ids are a key, positive as AUTO_INCREMENT makes
-- them, and each row is a file or a directory.
pub record IsWellKept (rows : List PathRow) : Type 0 where
  pub keyed : (i : ℕ) → occurrences i rows ≤ 1
  pub positive : occurrences 0 rows ≡ 0
  pub shaped : all_shaped rows ≡ true

pub IsWellKept-delete_rows :
    (user : ℤ) (node : ℕ) {rows : List PathRow}
    → IsWellKept rows
    → IsWellKept (delete_rows user node rows)
IsWellKept-delete_rows user node {rows} k = record {
  keyed = λ i. omega (arith, occurrences-delete_rows user node i rows, k.keyed i);
  positive = omega (arith, occurrences-delete_rows user node 0 rows, k.positive);
  shaped = all_shaped-delete_rows user node rows k.shaped;
}

pub IsWellKept-append :
    (row : PathRow) {rows : List PathRow}
    → IsWellKept rows
    → has_id row.id (path_ids rows) ≡ false
    → 0 < row.id
    → is_shaped row ≡ true
    → IsWellKept (rows ++ (row ∷ []))
IsWellKept-append row {rows} k f p s = record {
  keyed = λ i.
      ground (arith, occurrences-append i rows row, occurrences_fresh row.id rows f, k.keyed i);
  positive = ground (arith, occurrences-append 0 rows row, k.positive);
  shaped = all_shaped-append rows row k.shaped s;
}

-- The directory "/", which has no row and the id 0.
pub delete_rows_root :
    (user : ℤ) {rows : List PathRow} → IsWellKept rows → delete_rows user 0 rows ≡ rows
delete_rows_root user {rows} k = delete_rows-absent user 0 rows k.positive
