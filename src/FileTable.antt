-- ===== src/FileTable.antt =====
-- src/server/data/dao_file.c and src/server/data/dao_file_source.c: the records of the stored files, their
-- reference counts, and the servers that hold them.
pub mod Laws
use wind_cloud_v.Shared.{
  ℕ, zero, suc, ◌+◌, ◌-◌, ◌≡◌, Bool, true, false, not, ◌&&◌, ◌||◌, List, [], ◌∷◌, ◌++◌, map, Option,
  none, some, ltb, leb, ◌==◌, if◌then◌else◌, length, take,
}
use wind_cloud_v.Shared.Int.{ℤ}
use wind_cloud_v.Shared.Text.{Bytes, str_eq, is_empty, truncated}
use wind_cloud_v.Vfs.{Backend, Db, FileRow, FileSourceRow, tick, is_hash}

unfoldable pub find_hash : Bytes → List FileRow → Option FileRow
find_hash hash [] = none
find_hash hash (row ∷ rows) = if str_eq row.sha256sum hash then some row else find_hash hash rows

unfoldable pub find_file : ℕ → List FileRow → Option FileRow
find_file file [] = none
find_file file (row ∷ rows) = if row.id == file then some row else find_file file rows

-- `SELECT … FROM files WHERE sha256sum=UNHEX(…)`
unfoldable pub select_file : Backend → Bytes → Db → Option FileRow
unfolding find_hash is_hash
select_file b hash db =
    if is_hash hash then find_hash hash db.files else b.unhashed_select db.calls hash db.files

-- The id and the size.
unfoldable pub dao_file_find_by_sha256 : Backend → Bytes → Db → Option (ℕ × ℤ) × Db
unfolding select_file
dao_file_find_by_sha256 b hash db = (
  if b.fails db.calls
      then none
      else elim (select_file b hash db) [ none ↦ none | some row ↦ some (row.id, row.size) ],
  tick db,
)

-- `INSERT INTO files … UNHEX(…)`: the hash is unique.
unfoldable pub insert_file : Backend → Bytes → FileRow → Db → Bool × List FileRow
unfolding find_hash is_hash
insert_file b hash row db =
    if is_hash hash
    then elim (find_hash hash db.files) [
      | some _ ↦ (false, db.files)
      | none ↦ (true, db.files ++ (row ∷ []))
    ]
    else b.unhashed_insert db.calls hash row db.files

-- The id is read back by a second statement.
unfoldable pub dao_file_insert : Backend → Bytes → ℤ → Db → Option ℕ × Db
unfolding dao_file_find_by_sha256 insert_file
dao_file_insert b hash size db =
    let row : FileRow = record {
      id = b.next_id db.calls (map (λ r. r.id) db.files);
      sha256sum = hash;
      size = size;
      count = 1;
    } in
    let s = insert_file b hash row db in
    let db' = record (tick db) { files = s.1 } in
    let r = dao_file_find_by_sha256 b hash db' in
    if b.fails db.calls
    then (none, tick db)
    else if s.0
    then (elim r.0 [ none ↦ none | some (file, _) ↦ some file ], r.1)
    else (none, db')

unfoldable pub add_count : ℕ → List FileRow → List FileRow
add_count file [] = []
add_count file (row ∷ rows) =
    (if row.id == file then record row { count = row.count + 1 } else row) ∷ add_count file rows

unfoldable pub dao_file_add_ref_count : Backend → ℕ → Db → Bool × Db
unfolding add_count
dao_file_add_ref_count b file db =
    if b.fails db.calls
    then (false, tick db)
    else (true, record (tick db) { files = add_count file db.files })

unfoldable pub sub_count : ℕ → List FileRow → List FileRow
sub_count file [] = []
sub_count file (row ∷ rows) =
    (if row.id == file && ltb 0 row.count then record row { count = row.count - 1 } else row)
    ∷ sub_count file rows

unfoldable pub dao_file_sub_ref_count : Backend → ℕ → Db → Bool × Db
unfolding sub_count
dao_file_sub_ref_count b file db =
    if b.fails db.calls
    then (false, tick db)
    else (true, record (tick db) { files = sub_count file db.files })

unfoldable pub dao_file_get_ref_count : Backend → ℕ → Db → Option ℕ × Db
unfolding find_file
dao_file_get_ref_count b file db = (
  if b.fails db.calls
      then none
      else elim (find_file file db.files) [ none ↦ none | some row ↦ some row.count ],
  tick db,
)

unfoldable pub delete_file : ℕ → List FileRow → List FileRow
delete_file file [] = []
delete_file file (row ∷ rows) =
    if row.id == file then delete_file file rows else row ∷ delete_file file rows

unfoldable pub dao_file_delete : Backend → ℕ → Db → Bool × Db
unfolding delete_file
dao_file_delete b file db =
    if b.fails db.calls
    then (false, tick db)
    else (true, record (tick db) { files = delete_file file db.files })

-- LOWER(HEX(sha256sum)), which is what `sha256sum` holds here, and the size.
unfoldable pub dao_file_get_info_by_id : Backend → ℕ → Db → Option (Bytes × ℤ) × Db
unfolding find_file
dao_file_get_info_by_id b file db = (
  if b.fails db.calls then none else elim (find_file file db.files) [
    | none ↦ none
    | some row ↦ some (row.sha256sum, row.size)
  ],
  tick db,
)

unfoldable pub sources_of : ℕ → List FileSourceRow → List (Bytes × Bytes)
sources_of file [] = []
sources_of file (row ∷ rows) =
    if row.file_id == file && row.status == 1
    then (row.server_ip, row.server_port) ∷ sources_of file rows
    else sources_of file rows

-- The addresses, in the order of the table's ids, cut to the fields of source_server_t.
unfoldable pub dao_file_source_list : Backend → ℕ → ℕ → Db → Option (List (Bytes × Bytes)) × Db
unfolding sources_of
dao_file_source_list b file max_count db = if file == 0 || max_count == 0 then (none, db) else (
  if b.fails db.calls
      then none
      else some (
          map (λ s. (truncated 64 s.0, truncated 16 s.1))
            (take max_count (sources_of file db.file_sources))),
  tick db,
)

unfoldable pub upsert_source : ℕ → Bytes → Bytes → List FileSourceRow → List FileSourceRow
upsert_source file ip port [] =
    record { file_id = file; server_ip = ip; server_port = port; status = 1 } ∷ []
upsert_source file ip port (row ∷ rows) =
    let rest = upsert_source file ip port rows in
    if row.file_id == file && str_eq row.server_ip ip && str_eq row.server_port port
    then record row { status = 1 } ∷ rows
    else row ∷ rest

-- The address comes from the server's own configuration.
unfoldable pub dao_file_source_upsert : Backend → ℕ → Bytes → Bytes → Db → Bool × Db
unfolding upsert_source
dao_file_source_upsert b file ip port db =
    if file == 0 || is_empty ip || is_empty port
    then (false, db)
    else if b.fails db.calls
    then (false, tick db)
    else (true, record (tick db) { file_sources = upsert_source file ip port db.file_sources })

unfoldable pub delete_sources : ℕ → List FileSourceRow → List FileSourceRow
delete_sources file [] = []
delete_sources file (row ∷ rows) =
    if row.file_id == file then delete_sources file rows else row ∷ delete_sources file rows

unfoldable pub dao_file_source_delete_by_file_id : Backend → ℕ → Db → Bool × Db
unfolding delete_sources
dao_file_source_delete_by_file_id b file db =
    if file == 0
    then (false, db)
    else if b.fails db.calls
    then (false, tick db)
    else (true, record (tick db) { file_sources = delete_sources file db.file_sources })
