-- ===== src/Session/Serve.antt =====
-- What a download ticket gives on a transfer connection.
use wind_cloud_v.Shared.{
  ℕ, ◌<◌, ◌≡◌, refl, ◌⊎◌, inl, inr, Bool, true, false, not, ◌&&◌, Option, none, some, arith, length,
  Bool-cases, Option-cases, if◌then◌else◌, ◌==◌,
}
use wind_cloud_v.Shared.Int.{ℤ, pos, ltb_ℤ}
use wind_cloud_v.Shared.Text.{Bytes, str_eq, truncated_fits}
use wind_cloud_v.VirtualPath.{
  root, is_absolute, full_path_len, current_path_len, build_transfer_full_path,
  build_full_virtual_path,
}
use wind_cloud_v.VirtualPath.Laws.{
  split_full_path-build_transfer_full_path, build_full_virtual_path-build_transfer_full_path,
}
use wind_cloud_v.Protocol.{cmd_code, gets, TransferAuthPacket, c_string}
use wind_cloud_v.Ticket.{Grant, verify_and_consume_transfer_ticket}
use wind_cloud_v.Identity.{get_current_server_address}
use wind_cloud_v.Vfs.{Backend, Db, is_literal, dao_get_node_by_path}
use wind_cloud_v.Vfs.Entities.{ClientContext}
use wind_cloud_v.Upload.{UploadLink}
use wind_cloud_v.Download.{DownloadLink, handle_gets_common, handle_gets, handle_gets_range}
use wind_cloud_v.Download.Window.{IsBoundedLink}
use wind_cloud_v.Download.Whole.{Refused, FromContent, content_at, handle_gets_common-IsServed}
use wind_cloud_v.Session.{Server, State}
use wind_cloud_v.Session.Transfer.{
  directory_context, context_found, context_at, build_transfer_context, TransferEnd, closed,
  gets_refused, puts_refused, downloaded, uploaded, transfer_in, transfer_built, transfer_granted,
  handle_transfer_request,
}

-- The tables that a path is looked up in.
record SameTables (db db' : Db) : Type 0 where
  pub paths : db'.paths ≡ db.paths
  pub files : db'.files ≡ db.files
  pub store : db'.store ≡ db.store

content_at-same :
    (b : Backend) (user : ℤ) (path : Bytes) {db db' : Db}
    → SameTables db db'
    → content_at b user path db' ≡ content_at b user path db
unfolding content_at
content_at-same b user path s = rw (content_at, s.paths, s.files, s.store) refl

dao_get_node_by_path-SameTables :
    (b : Backend) (user : ℤ) (path : Bytes) (db : Db)
    → SameTables db (dao_get_node_by_path b user path db).1
unfolding dao_get_node_by_path
dao_get_node_by_path-SameTables b user path db = record {
  paths = ground arith;
  files = ground arith;
  store = ground arith;
}

context_found-cases :
    (user : ℤ) (path name : Bytes) (r : Option (ℕ × ℕ) × Db)
    → (context_found user path name r ≡ (none, r.1))
      ⊎ ((dir : ℕ) × (context_found user path name r
            ≡ (some (directory_context user path dir, name), r.1)))
unfolding context_found
context_found-cases user path name (none, db) = inl refl
context_found-cases user path name (some (dir, type), db) = elim (Bool-cases (type == 1)) [
  | inl y ↦ inr (dir, rw (context_found, y) refl)
  | inr y ↦ inl (rw (context_found, y) refl)
]

-- A failure, or the context of the directory and the name.
abbrev InContext : ℤ → Bytes → Bytes → Db → Option (ClientContext × Bytes) × Db → Type 0
InContext user path name db r =
    SameTables db r.1
    × ((r.0 ≡ none) ⊎ ((dir : ℕ) × (r.0 ≡ some (directory_context user path dir, name))))

context_found-InContext :
    (user : ℤ) (path name : Bytes) (db : Db) (r : Option (ℕ × ℕ) × Db)
    → SameTables db r.1
    → InContext user path name db (context_found user path name r)
unfolding context_found
context_found-InContext user path name db (none, db') s = (s, inl refl)
context_found-InContext user path name db (some (dir, type), db') s =
    elim (Bool-cases (type == 1)) [
      | inl y ↦ rw (context_found, y) (s, inr (dir, refl))
      | inr y ↦ rw (context_found, y) (s, inl refl)
    ]

context_at-InContext :
    (b : Backend) (user : ℤ) (path name : Bytes) (is_root : Bool) (db : Db)
    → InContext user path name db (context_at b user path name is_root db)
unfolding context_at
context_at-InContext b user path name true db =
    (record { paths = refl; files = refl; store = refl }, inr (0, refl))
context_at-InContext b user path name false db =
    context_found-InContext user path name db (dao_get_node_by_path b user path db)
      (dao_get_node_by_path-SameTables b user path db)

-- The range of a ticket, where it has one.
unfoldable pub granted_range : Grant → Option (ℤ × ℤ)
granted_range g =
    if not (ltb_ℤ g.range_end g.range_start) && not (ltb_ℤ g.range_end (pos 0))
    then some (g.range_start, g.range_end)
    else none

-- A transfer connection that does nothing, refuses, or sends what the ticket is for.
abbrev pub OnlyServes : Backend → DownloadLink → Grant → Db → TransferEnd → Type 0
OnlyServes b down g db closed = Unit {0}
OnlyServes b down g db (gets_refused _) = Unit {0}
OnlyServes b down g db (puts_refused _) = ⊥
OnlyServes b down g db (uploaded _) = ⊥
OnlyServes b down g db (downloaded d) =
    Refused d
    ⊎ ((content : Bytes) × (content_at b g.user_id g.full_path db ≡ some content)
        × FromContent down (granted_range g) content d)

module _ (server : Server) (up : UploadLink) (down : DownloadLink) (bounded : IsBoundedLink down)
    (g : Grant) (download : g.cmd_type ≡ pos (cmd_code gets)) (path arg : Bytes)
    (absolute : is_absolute path ≡ true) (short : length path < current_path_len)
    (short_name : length arg < 256)
    (built : build_transfer_full_path full_path_len path arg ≡ some g.full_path)
    (lit : is_literal 255 g.full_path ≡ true) where
  transfer_in-eq :
      (ctx : ClientContext) (db : Db)
      → let r = handle_gets_common server.backend down ctx arg (granted_range g) db in
        transfer_in server up down g ctx arg db ≡ (downloaded r.0, r.1)
  unfolding transfer_in handle_gets handle_gets_range granted_range
  transfer_in-eq ctx db =
      elim (Bool-cases (not (ltb_ℤ g.range_end g.range_start) && not (ltb_ℤ g.range_end (pos 0)))) [
        | inl y ↦ rw (transfer_in, download, y) refl
        | inr y ↦ rw (transfer_in, download, y) refl
      ]

  transfer_in-OnlyServes :
      (dir : ℕ) (db db' : Db)
      → SameTables db db'
      → OnlyServes server.backend down g db
          (transfer_in server up down g (directory_context g.user_id path dir) arg db').0
  transfer_in-OnlyServes dir db db' same =
      let ctx = directory_context g.user_id path dir in
      let rebuilt : build_full_virtual_path full_path_len ctx.current_path arg ≡ some g.full_path =
        rw (truncated_fits current_path_len path short)
          (build_full_virtual_path-build_transfer_full_path path arg g.full_path built) in
      rw (transfer_in-eq ctx db', ← content_at-same server.backend g.user_id g.full_path same)
        (handle_gets_common-IsServed server.backend down ctx arg g.full_path (granted_range g) db'
          bounded rebuilt lit)

  transfer_built-OnlyServes :
      (db : Db) (r : Option (ClientContext × Bytes) × Db)
      → InContext g.user_id path arg db r
      → OnlyServes server.backend down g db (transfer_built server up down g r).0
  unfolding transfer_built
  transfer_built-OnlyServes db (o, db') (same, inl n) = rw (n, transfer_built, download) tt
  transfer_built-OnlyServes db (o, db') (same, inr (dir, e)) =
      rw e (transfer_in-OnlyServes dir db db' same)

  build_transfer_context-InContext :
      (db : Db)
      → InContext g.user_id path arg db
          (build_transfer_context server.backend g.user_id g.full_path db)
  unfolding build_transfer_context
  build_transfer_context-InContext db =
      rw
        (
          build_transfer_context,
          split_full_path-build_transfer_full_path path arg g.full_path absolute short short_name
              built,
        )
        (context_at-InContext server.backend g.user_id path arg (str_eq path root) db)

  transfer_granted-OnlyServes :
      (db : Db) → OnlyServes server.backend down g db (transfer_granted server up down g db).0
  unfolding transfer_granted
  transfer_granted-OnlyServes db = elim (Option-cases (get_current_server_address server.config)) [
    | inl y ↦ rw (transfer_granted, y) tt
    | inr ((ip, port), y) ↦ elim (Bool-cases (str_eq g.source_ip ip && str_eq g.source_port port)) [
      | inr z ↦ rw (transfer_granted, y, z) tt
      | inl z ↦
          rw (transfer_granted, y, z)
            (transfer_built-OnlyServes db
              (build_transfer_context server.backend g.user_id g.full_path db)
              (build_transfer_context-InContext db))
    ]
  ]

-- A connection that shows a download ticket gets nothing else than what the ticket grants: no upload,
-- and of stored content only that of the ticket's path among the nodes of the ticket's user, within
-- the ticket's range, where it has one. It holds whichever calls fail and whatever the client sends, for
-- a ticket whose path, a plain text that fits its column, the control connection has built from a
-- directory and a name that fit their buffers. (No call on the socket moves more than it was asked to.)
pub handle_transfer_request-OnlyServes :
    (server : Server) (now : ℕ) (p : TransferAuthPacket) (up : UploadLink) (down : DownloadLink)
    (state : State) (g : Grant) (path arg : Bytes)
    → IsBoundedLink down
    → (verify_and_consume_transfer_ticket server.transfer_jwt now
        (c_string p.ticket)
        state.tickets).1
      ≡ some g
    → g.cmd_type ≡ pos (cmd_code gets)
    → is_absolute path ≡ true
    → length path < current_path_len
    → length arg < 256
    → build_transfer_full_path full_path_len path arg ≡ some g.full_path
    → is_literal 255 g.full_path ≡ true
    → OnlyServes server.backend down g state.db
        (handle_transfer_request server now (some p) up down state).0
unfolding handle_transfer_request
handle_transfer_request-OnlyServes server now p up down state g path arg bounded verified download
      absolute short short_name built lit =
    rw (handle_transfer_request, verified)
      (transfer_granted-OnlyServes server up down bounded g download path arg absolute short
        short_name built lit state.db)
