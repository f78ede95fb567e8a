-- ===== src/Upload/Resume.antt =====
-- handle_puts for a client that uploads one file under its hash: broken off, resumed, completed.
use wind_cloud_v.Shared.{
  ℕ, ◌+◌, ◌≤◌, ◌<◌, ◌≡◌, refl, ap, ◌∙◌, ◌⊎◌, inl, inr, true, false, List, [], ◌∷◌, none, some,
  arith, length, take, drop, Bool-cases, Option-cases,
}
use wind_cloud_v.Shared.Int.{pos, pos_part, ltb_ℤ}
use wind_cloud_v.Protocol.{puts, init_file_packet, c_string}
use wind_cloud_v.Shared.Text.{Bytes, str_eq_refl, take_all}
use wind_cloud_v.Identity.{Config}
use wind_cloud_v.Vfs.{Backend, Db, tick}
use wind_cloud_v.Vfs.Entities.{ClientContext, write_name, create_name}
use wind_cloud_v.Upload.{PutsReply, packet, Upload, UploadLink}
use wind_cloud_v.Upload.Receive.{content_of, put_content}
use wind_cloud_v.Upload.Handler.{
  record_upload, extend_upload, resume_upload, measure_upload, open_upload,
}
use wind_cloud_v.Upload.Settled.{
  IsReliable, says_completed, IsUpheld, put_content_lem, length-prefix, record_upload-IsUpheld,
  Settled, extend_upload-Settled,
}

pub le_cases : (n m : ℕ) → n ≤ m → (n < m) ⊎ (n ≡ m)
le_cases n m h = ground arith

pub created :
    (hash : Bytes) (db : Db)
    → content_of hash (record (tick (tick db)) { store = create_name hash db.store })
      ≡ content_of hash db
unfolding create_name write_name
created hash db = elim (Option-cases (db.store hash)) [
  | inl e ↦ rw (content_of, e, str_eq_refl hash) refl
  | inr (c, e) ↦ rw (content_of, e, e) refl
]

module _ (b : Backend) (works : (k : ℕ) → b.fails k ≡ false) (config : Config) (link : UploadLink)
    (reliable : IsReliable link) (ctx : ClientContext) (arg : Bytes) (f : Bytes) where
  module _ (u : Upload) (size : u.size ≡ pos (length f)) (n m : ℕ) (h : n ≤ length f)
      (i : link.incoming ≡ take m (drop n f)) where
    Settled-IsUpheld :
        (content : Bytes) (r : List PutsReply × Db) (db : Db)
        → Settled b works config link ctx u f n content r db
        → IsUpheld u.stored f r
    unfolding says_completed
    Settled-IsUpheld content r db (inl e) = rw e (
        record_upload-IsUpheld b works config link ctx u f (put_content u.stored f db)
          (put_content_lem u.stored f db))
    Settled-IsUpheld content r db (inr (k, less, e, _)) = rw e (
      (
        n + k,
        omega arith,
        put_content_lem u.stored (take (n + k) f) (tick (put_content u.stored content db)),
      ),
      inl refl,
    )

    before : n < length f → ltb_ℤ (pos n) u.size ≡ true
    before less = rw size (ground arith)

    at_end : n ≡ length f → ltb_ℤ (pos n) u.size ≡ false
    at_end e = rw size (ground arith)

    not_over : ltb_ℤ u.size (pos n) ≡ false
    not_over = rw size (ground arith)

    unfoldable pub told : PutsReply
    told = packet (init_file_packet puts (some arg) u.size (pos n) none)

    -- The answer to the client's packet has no hash.
    told_first :
        (r : List PutsReply × Db) → IsUpheld u.stored f r → IsUpheld u.stored f (told ∷ r.0, r.1)
    unfolding says_completed init_file_packet c_string told
    told_first r x = x

    resume_upload-opened :
        (db : Db)
        → link.sends_packet ≡ true
        → n < length f
        → let r = extend_upload b config link ctx u (pos_part u.size) n db in
          resume_upload b config link ctx arg u n db ≡ (told ∷ r.0, r.1)
    unfolding resume_upload told
    resume_upload-opened db sent less = rw (sent, before less) refl

    pub resume_upload-more :
        (db : Db)
        → link.sends_packet ≡ true
        → n < length f
        → let r = extend_upload b config link ctx u (length f) n db in
          resume_upload b config link ctx arg u n db ≡ (told ∷ r.0, r.1)
    resume_upload-more db sent less =
        resume_upload-opened db sent less
        ∙ ap (λ z. let r = extend_upload b config link ctx u z n db in (told ∷ r.0, r.1))
            (ap pos_part size)

    pub resume_upload-whole :
        (db : Db)
        → link.sends_packet ≡ true
        → n ≡ length f
        → let r = record_upload b config ctx u db in
          resume_upload b config link ctx arg u n db ≡ (told ∷ r.0, r.1)
    unfolding resume_upload told
    resume_upload-whole db sent e = rw (sent, at_end e) refl

    resume_upload-silent :
        (db : Db)
        → link.sends_packet ≡ false
        → resume_upload b config link ctx arg u n db ≡ (told ∷ [], db)
    unfolding resume_upload told
    resume_upload-silent db silent = rw silent refl

    resume_upload-IsUpheld :
        (db : Db)
        → content_of u.stored db ≡ take n f
        → IsUpheld u.stored f (resume_upload b config link ctx arg u n db)
    unfolding says_completed
    resume_upload-IsUpheld db e = elim (Bool-cases link.sends_packet) [
      | inr silent ↦ rw (resume_upload-silent db silent) (told_first ([], db) ((n, h, e), inl refl))
      | inl sent ↦ elim (le_cases n (length f) h) [
        | inl less ↦
            let (content, db', _, _, p) =
              extend_upload-Settled b works config link ctx u f reliable n m db less e i in
            let r = extend_upload b config link ctx u (length f) n db in
            rw (resume_upload-more db sent less) (told_first r (Settled-IsUpheld content r db' p))
        | inr whole ↦
            let held : content_of u.stored db ≡ f =
              e ∙ rw whole (take_all (length f) f (omega arith)) in
            rw (resume_upload-whole db sent whole) (
              told_first (record_upload b config ctx u db)
                (record_upload-IsUpheld b works config link ctx u f db held))
      ]
    ]

    measure_upload-opened :
        (db : Db)
        → content_of u.stored db ≡ take n f
        → measure_upload b config link ctx arg u db
          ≡ resume_upload b config link ctx arg u (length (content_of u.stored db)) (tick db)
    unfolding measure_upload
    measure_upload-opened db e = rw (works db.calls, fits) refl
      where
        fits : ltb_ℤ u.size (pos (length (content_of u.stored db))) ≡ false
        fits = rw (e, length-prefix n f h) not_over

    pub measure_upload-eq :
        (db : Db)
        → content_of u.stored db ≡ take n f
        → measure_upload b config link ctx arg u db
          ≡ resume_upload b config link ctx arg u n (tick db)
    measure_upload-eq db e =
        measure_upload-opened db e
        ∙ ap (λ k. resume_upload b config link ctx arg u k (tick db))
            (ap (length {A = ℕ}) e ∙ length-prefix n f h)

    pub open_upload-eq :
        (db : Db)
        → open_upload b config link ctx arg u db
          ≡ measure_upload b config link ctx arg u
              (record (tick (tick db)) { store = create_name u.stored db.store })
    unfolding open_upload
    open_upload-eq db = rw (works db.calls, works (db.calls + 1)) refl

    pub open_upload-IsUpheld :
        (db : Db)
        → content_of u.stored db ≡ take n f
        → IsUpheld u.stored f (open_upload b config link ctx arg u db)
    open_upload-IsUpheld db e =
        let db' = record (tick (tick db)) { store = create_name u.stored db.store } in
        let held : content_of u.stored db' ≡ take n f = created u.stored db ∙ e in
        rw (open_upload-eq db, measure_upload-eq db' held) (resume_upload-IsUpheld (tick db') held)
