-- ===== src/Session/Gate.antt =====
-- What a control connection may do before anybody has logged in on it.
use wind_cloud_v.Shared.{
  ◌≡◌, refl, ◌∙◌, ◌⊎◌, inl, inr, Bool, true, false, not, ◌&&◌, ◌||◌, List, [], ◌∷◌, arith,
  Bool-cases,
}
use wind_cloud_v.Shared.Int.{ℤ, pos, eqb_ℤ}
use wind_cloud_v.Shared.Text.{Bytes, truncated}
use wind_cloud_v.Protocol.{CommandPacket, cmd_code, cmd_data_len, login, register, c_string}
use wind_cloud_v.Vfs.{Db}
use wind_cloud_v.Vfs.Entities.{ClientContext}
use wind_cloud_v.Users.{handle_login, handle_register}
use wind_cloud_v.Session.{Server, Draws, State, SessionReply, login_first}
use wind_cloud_v.Session.Dispatch.{
  enter, enroll, requested, no_user_id, enter_session, perform, is_open_command,
  dispatch_control_command, serve_packets,
}
use wind_cloud_v.Session.Login.{
  is_login, some_login, IsSame, handle_login-is_login, handle_login-IsSame, handle_register-IsSame,
}

-- Everything but the table of users is as it was.
pub record IsUntouched (state state' : State) : Type 0 where
  pub paths : state'.db.paths ≡ state.db.paths
  pub files : state'.db.files ≡ state.db.files
  pub file_sources : state'.db.file_sources ≡ state.db.file_sources
  pub store : state'.db.store ≡ state.db.store
  pub tickets : state'.tickets ≡ state.tickets

IsUntouched-trans : {s t u : State} → IsUntouched s t → IsUntouched t u → IsUntouched s u
IsUntouched-trans a b = record {
  paths = b.paths ∙ a.paths;
  files = b.files ∙ a.files;
  file_sources = b.file_sources ∙ a.file_sources;
  store = b.store ∙ a.store;
  tickets = b.tickets ∙ a.tickets;
}

IsSame-IsUntouched :
    (state : State) (db : Db) → IsSame state.db db → IsUntouched state (record state { db = db })
IsSame-IsUntouched state db s = record {
  paths = s.paths;
  files = s.files;
  file_sources = s.file_sources;
  store = s.store;
  tickets = refl;
}

enter_session-user : (ctx : ClientContext) (user : ℤ) → (enter_session ctx user).user_id ≡ user
unfolding enter_session
enter_session-user ctx user =
    elim (Bool-cases (eqb_ℤ ctx.user_id no_user_id && not (eqb_ℤ user no_user_id))) [
      | inl y ↦ rw (enter_session, y) refl
      | inr y ↦ rw (enter_session, y) refl
    ]

requested-enter :
    (code : ℤ) (arg : Bytes) → eqb_ℤ code (pos (cmd_code login)) ≡ true → requested code arg ≡ enter
unfolding requested
requested-enter code arg e = rw (requested, e) refl

requested-enroll :
    (code : ℤ) (arg : Bytes)
    → eqb_ℤ code (pos (cmd_code login)) ≡ false
    → eqb_ℤ code (pos (cmd_code register)) ≡ true
    → requested code arg ≡ enroll
unfolding requested
requested-enroll code arg e f = rw (requested, e, f) refl

-- A login succeeded, or nobody is logged in and nothing but the users may have changed.
abbrev pub StaysOut : SessionReply × ClientContext × State → State → Type 0
StaysOut (reply, ctx, state') state =
    (is_login reply ≡ true) ⊎ ((ctx.user_id ≡ no_user_id) × IsUntouched state state')

module _ (server : Server) (draws : Draws) (ctx : ClientContext)
    (out : ctx.user_id ≡ no_user_id) where
  perform-enter :
      (arg : Bytes) (state : State) → StaysOut (perform server draws ctx arg enter state) state
  unfolding perform
  perform-enter arg state =
      let r = handle_login server.backend server.sha256 server.login_jwt draws.now arg state.db in
      elim (handle_login-is_login server.backend server.sha256 server.login_jwt draws.now arg
        state.db) [
          | inl y ↦ inl y
          | inr e ↦ inr (
            enter_session-user ctx r.1 ∙ e,
            IsSame-IsUntouched state r.2 (
                handle_login-IsSame server.backend server.sha256 server.login_jwt draws.now arg
                  state.db),
          )
        ]

  perform-enroll :
      (arg : Bytes) (state : State) → StaysOut (perform server draws ctx arg enroll state) state
  unfolding perform
  perform-enroll arg state = inr (
    out,
    IsSame-IsUntouched state
        (handle_register server.backend server.sha256 draws.random draws.fallback arg state.db).2
        (handle_register-IsSame server.backend server.sha256 draws.random draws.fallback arg
          state.db),
  )

  gated :
      (p : CommandPacket) (state : State)
      → is_open_command p.cmd_type ≡ false
      → dispatch_control_command server draws ctx p state ≡ (login_first, ctx, state)
  unfolding dispatch_control_command
  gated p state e = rw (dispatch_control_command, out, e) refl

  let_through :
      (p : CommandPacket) (state : State)
      → is_open_command p.cmd_type ≡ true
      → let arg = truncated cmd_data_len (c_string p.text) in
        dispatch_control_command server draws ctx p state
        ≡ perform server draws ctx arg (requested p.cmd_type arg) state
  unfolding dispatch_control_command
  let_through p state e = rw (dispatch_control_command, out, e) refl

  dispatch-StaysOut :
      (p : CommandPacket) (state : State)
      → StaysOut (dispatch_control_command server draws ctx p state) state
  dispatch-StaysOut p state =
      let arg = truncated cmd_data_len (c_string p.text) in
      elim (Bool-cases (is_open_command p.cmd_type)) [
        | inr e ↦ rw (gated p state e) (
            inr (
              out,
              record {
                paths = refl;
                files = refl;
                file_sources = refl;
                store = refl;
                tickets = refl;
              },
            ))
        | inl e ↦ elim (Bool-cases (eqb_ℤ p.cmd_type (pos (cmd_code login)))) [
          | inl f ↦
              rw (let_through p state e, requested-enter p.cmd_type arg f) (perform-enter arg state)
          | inr f ↦
              rw (let_through p state e, requested-enroll p.cmd_type arg f (second f e))
                (perform-enroll arg state)
        ]
      ]
    where
      second : {x y : Bool} → x ≡ false → (x || y) ≡ true → y ≡ true
      second {x} {y} a c = rw a at c

or_right : (x : Bool) {y : Bool} → y ≡ true → (x || y) ≡ true
or_right x e = ground arith

-- Until a login succeeds on a control connection, no command on it changes a node, a file record, a
-- source, a stored file or a ticket, whatever packets arrive and whichever calls fail. (It says nothing
-- of the table of users.)
pub serve_packets-IsUntouched :
    (server : Server) (ctx : ClientContext) (packets : List (Draws × CommandPacket)) (state : State)
    → ctx.user_id ≡ no_user_id
    → (some_login (serve_packets server ctx packets state).0 ≡ true)
      ⊎ (((serve_packets server ctx packets state).1.user_id ≡ no_user_id)
          × IsUntouched state (serve_packets server ctx packets state).2)
unfolding serve_packets some_login
serve_packets-IsUntouched server ctx [] state out =
    inr (
      out,
      record { paths = refl; files = refl; file_sources = refl; store = refl; tickets = refl },
    )
serve_packets-IsUntouched server ctx ((draws, p) ∷ packets) state out =
    let r = dispatch_control_command server draws ctx p state in
    elim (dispatch-StaysOut server draws ctx out p state) [
      | inl y ↦ inl (rw y refl)
      | inr (still, same) ↦ elim (serve_packets-IsUntouched server r.1 packets r.2 still) [
        | inl y ↦ inl (or_right (is_login r.0) y)
        | inr (still', same') ↦ inr (still', IsUntouched-trans same same')
      ]
    ]
