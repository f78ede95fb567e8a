-- ===== src/Vfs.antt =====
-- The server's tables: the statements of src/server/data/dao_vfs.c, src/server/data/dao_file.c and
-- src/server/data/dao_file_source.c over the tables that src/server/data/db_init.c creates, together with
-- the directory of stored files. The data access functions return `none` or `false` for -1.
pub mod Entities
pub mod Commands
pub mod Isolation
pub mod Owner
pub mod Refcount
pub mod Tidy
pub mod Preserved
pub mod Runs
pub mod Removal
pub mod Creation
mod Tests
pub mod Counts
use wind_cloud_v.Shared.{
  ℕ, zero, suc, ◌+◌, ◌-◌, ◌<◌, ◌≡◌, Bool, true, false, not, ◌&&◌, ◌||◌, List, [], ◌∷◌, ◌++◌, map,
  Option, none, some, ltb, leb, ◌==◌, if◌then◌else◌, length, take,
}
use wind_cloud_v.Shared.Int.{ℤ, eqb_ℤ}
use wind_cloud_v.Shared.Text.{Bytes, codes, str_eq, has_byte, is_empty, truncated}
use wind_cloud_v.VirtualPath.{root}

-- A row of `paths`; node_type is 0 for a file and 1 for a directory.
pub record PathRow : Type 0 where
  pub id : ℕ
  pub user_id : ℤ
  pub path : Bytes
  pub file_id : Option ℕ
  pub parent_id : ℕ
  pub file_name : Bytes
  pub node_type : ℕ

-- A row of `files`; the hash is given by its 64 lower-case digits.
pub record FileRow : Type 0 where
  pub id : ℕ
  pub sha256sum : Bytes
  pub size : ℤ
  pub count : ℕ

pub record FileSourceRow : Type 0 where
  pub file_id : ℕ
  pub server_ip : Bytes
  pub server_port : Bytes
  pub status : ℕ

pub record UserRow : Type 0 where
  pub id : ℕ
  pub username : Bytes
  pub password_hash : Bytes
  pub salt : Bytes

-- The directory of stored files: the content under a name. Names with a slash are files of their own.
abbrev pub Store : Type 0
Store = Bytes → Option Bytes

-- The tables, the directory of stored files, and the number of statements and file system calls so
-- far.
pub record Db : Type 0 where
  pub users : List UserRow
  pub paths : List PathRow
  pub files : List FileRow
  pub file_sources : List FileSourceRow
  pub store : Store
  pub calls : ℕ

unfoldable pub has_id : ℕ → List ℕ → Bool
has_id i [] = false
has_id i (j ∷ ids) = i == j || has_id i ids

abbrev is_hex_digit : ℕ → Bool
is_hex_digit c = leb 48 c && leb c 57 || leb 97 c && leb c 102

unfoldable pub all_hex : Bytes → Bool
all_hex [] = true
all_hex (c ∷ s) = is_hex_digit c && all_hex s

-- 64 hexadecimal digits in lower case: UNHEX reads 32 bytes from these, and LOWER(HEX()) of the column
-- is the text again.
unfoldable pub is_hash : Bytes → Bool
unfolding all_hex
is_hash s = length s == 64 && all_hex s

-- MySQL and the file system: which calls fail, which texts the collation of a column takes for the
-- same, the ids that AUTO_INCREMENT gives, the order of a result without ORDER BY, and what becomes
-- of a statement whose text holds an argument that is not a plain literal (the arguments are
-- printed between quotes with no escape), or that is no hash where UNHEX takes one. `resolve` gives
-- the file that the path of the directory of stored files with this name behind it stands for.
pub record Backend : Type 0 where
  pub fails : ℕ → Bool
  pub collates : Bytes → Bytes → Bool
  pub next_id : ℕ → List ℕ → ℕ
  pub order : List PathRow → List PathRow
  pub unquoted_select : ℕ → Bytes → Option PathRow
  pub unquoted_insert : ℕ → PathRow → List PathRow → Bool × List PathRow
  pub unquoted_user : ℕ → Bytes → Option UserRow
  pub unquoted_user_insert : ℕ → UserRow → List UserRow → Bool × List UserRow
  pub unhashed_select : ℕ → Bytes → List FileRow → Option FileRow
  pub unhashed_insert : ℕ → Bytes → FileRow → List FileRow → Bool × List FileRow
  pub resolve : Bytes → Bytes
  pub collates-refl : (s : Bytes) → collates s s ≡ true
  pub next_id-fresh : (k : ℕ) (ids : List ℕ) → has_id (next_id k ids) ids ≡ false
  pub next_id-positive : (k : ℕ) (ids : List ℕ) → 0 < next_id k ids
  pub resolve-hash : (name : Bytes) → is_hash name ≡ true → resolve name ≡ name

-- No quote, no backslash, and not longer than the column.
unfoldable pub is_literal : ℕ → Bytes → Bool
is_literal size s = not (has_byte 39 s) && not (has_byte 92 s) && leb (length s) size

abbrev pub tick : Db → Db
tick db = record db { calls = db.calls + 1 }

unfoldable pub is_node : Backend → ℤ → Bytes → PathRow → Bool
is_node b user path row = eqb_ℤ row.user_id user && b.collates row.path path

-- `SELECT … FROM paths WHERE user_id=… AND path=…`
unfoldable pub find_node : Backend → ℤ → Bytes → List PathRow → Option PathRow
unfolding is_node
find_node b user path [] = none
find_node b user path (row ∷ rows) =
    if is_node b user path row then some row else find_node b user path rows

unfoldable pub select_node : Backend → ℤ → Bytes → Db → Option PathRow
unfolding find_node is_literal
select_node b user path db =
    if b.fails db.calls
    then none
    else if is_literal 255 path
    then find_node b user path db.paths
    else b.unquoted_select db.calls path

-- The id and the type of a node.
unfoldable pub dao_get_node_by_path : Backend → ℤ → Bytes → Db → Option (ℕ × ℕ) × Db
unfolding select_node
dao_get_node_by_path b user path db = if str_eq path root then (some (0, 1), db) else (
  elim (select_node b user path db) [ none ↦ none | some row ↦ some (row.id, row.node_type) ],
  tick db,
)

unfoldable pub dao_get_file_info_by_path : Backend → ℤ → Bytes → Db → Option (ℕ × ℕ) × Db
unfolding select_node
dao_get_file_info_by_path b user path db = (
  elim (select_node b user path db) [
    | none ↦ none
    | some row ↦
        if not (row.node_type == 0)
        then none
        else elim row.file_id [ none ↦ none | some file ↦ some (row.id, file) ]
  ],
  tick db,
)

unfoldable pub children : ℤ → ℕ → List PathRow → List PathRow
children user dir [] = []
children user dir (row ∷ rows) =
    if eqb_ℤ row.user_id user && row.parent_id == dir
    then row ∷ children user dir rows
    else children user dir rows

-- One entry of the listing, with the colour codes for a directory.
unfoldable pub list_entry : PathRow → Bytes
list_entry row =
    if row.node_type == 1
    then 27 ∷ codes "[1;34m" ++ (row.file_name ++ (codes "/" ++ (27 ∷ codes "[0m ")))
    else row.file_name ++ codes " "

unfoldable pub list_entries : List PathRow → Bytes
unfolding list_entry
list_entries [] = []
list_entries (row ∷ rows) = list_entry row ++ list_entries rows

-- The text of the listing, which the C code prints into the caller's buffer with no bound.
unfoldable pub dao_list_dir : Backend → ℤ → ℕ → Db → Option Bytes × Db
unfolding children list_entries
dao_list_dir b user dir db = (
  if b.fails db.calls then none else some (list_entries (b.order (children user dir db.paths))),
  tick db,
)

unfoldable pub dao_is_dir_empty : Backend → ℤ → ℕ → Db → Option Bool × Db
unfolding children
dao_is_dir_empty b user dir db = (
  if b.fails db.calls
      then none
      else some (elim (children user dir db.paths) [ [] ↦ true | _ ∷ _ ↦ false ]),
  tick db,
)

-- INSERT INTO paths: the key (user_id, path) is unique.
unfoldable pub insert_node : Backend → PathRow → Db → Bool × Db
unfolding find_node is_literal
insert_node b row db =
    if b.fails db.calls
    then (false, tick db)
    else if not (is_literal 255 row.path && is_literal 30 row.file_name)
    then (
      (b.unquoted_insert db.calls row db.paths).0,
      record (tick db) { paths = (b.unquoted_insert db.calls row db.paths).1 },
    )
    else elim (find_node b row.user_id row.path db.paths) [
      | some _ ↦ (false, tick db)
      | none ↦ (true, record (tick db) { paths = db.paths ++ (row ∷ []) })
    ]

abbrev pub path_ids : List PathRow → List ℕ
path_ids rows = map (λ r. r.id) rows

unfoldable pub dao_create_node : Backend → ℤ → Bytes → ℕ → Bytes → ℕ → Db → Bool × Db
unfolding insert_node
dao_create_node b user path parent name type db =
    insert_node b
      (record {
        id = b.next_id db.calls (path_ids db.paths);
        user_id = user;
        path = path;
        file_id = none;
        parent_id = parent;
        file_name = name;
        node_type = type;
      })
      db

unfoldable pub dao_create_file_node : Backend → ℤ → Bytes → ℕ → Bytes → ℕ → Db → Bool × Db
unfolding insert_node
dao_create_file_node b user path parent name file db =
    insert_node b
      (record {
        id = b.next_id db.calls (path_ids db.paths);
        user_id = user;
        path = path;
        file_id = some file;
        parent_id = parent;
        file_name = name;
        node_type = 0;
      })
      db

-- `DELETE FROM paths WHERE id=… AND user_id=…`
unfoldable pub delete_rows : ℤ → ℕ → List PathRow → List PathRow
delete_rows user node [] = []
delete_rows user node (row ∷ rows) =
    if row.id == node && eqb_ℤ row.user_id user
    then delete_rows user node rows
    else row ∷ delete_rows user node rows

unfoldable pub dao_delete_node : Backend → ℤ → ℕ → Db → Bool × Db
unfolding delete_rows
dao_delete_node b user node db =
    if b.fails db.calls
    then (false, tick db)
    else (true, record (tick db) { paths = delete_rows user node db.paths })
