-- ===== src/Upload/Settled.antt =====
-- The last stages of handle_puts, for a client that goes on where the stored file ends.
use wind_cloud_v.Shared.{
  not, ◌||◌, ℕ, zero, suc, ◌+◌, ◌-◌, ◌≤◌, ◌<◌, ◌≡◌, refl, ap, ◌∙◌, ◌⊎◌, inl, inr, Bool, true, false,
  List, [], ◌∷◌, ◌++◌, append-nil, append_assoc, arith, ltb, ◌==◌, if◌then◌else◌, length,
  length-append, length-take, length-replicate, replicate, take, drop, Bool-cases,
}
use wind_cloud_v.Shared.Text.{Bytes, str_eq_refl, take_all, is_empty}
use wind_cloud_v.Protocol.{c_string}
use wind_cloud_v.Protocol.Stream.{IsBounded, NeverFails, Outcome, done, failed, stuck}
use wind_cloud_v.Protocol.Stream.Complete.{take-add, take-append}
use wind_cloud_v.Identity.{Config}
use wind_cloud_v.Vfs.{Backend, Db, tick}
use wind_cloud_v.Vfs.Entities.{ClientContext, write_name}
use wind_cloud_v.Upload.{
  PutsReply, message, packet, completed, saved_progress, finish_upload_db_work, Upload, UploadLink,
  large_file_mmap_threshold,
}
use wind_cloud_v.Upload.Receive.{
  resize, Sink, file_sink, map_sink, receive_content, content_of, put_content,
}
use wind_cloud_v.Upload.Links.{finish_upload_db_work-store}
use wind_cloud_v.Upload.Content.{
  IsSink, NeverRefuses, filled, Filled, receive_content-Filled, file_sink-IsSink, map_sink-IsSink,
  file_sink-NeverRefuses, map_sink-NeverRefuses, take-take,
}
use wind_cloud_v.Upload.Handler.{
  truncate_stored, record_upload, settle_upload, receive_upload, extend_upload,
}

-- What the socket and the disk promise: no call moves more than it was asked to, and a write to the
-- disk goes on until it is done. A recv may fail at any time.
pub record IsReliable (link : UploadLink) : Type 0 where
  pub recvs_bounded : IsBounded link.recvs
  pub writes_bounded : (k : ℕ) → IsBounded (link.writes k)
  pub writes_succeed : (k : ℕ) → NeverFails (link.writes k)

-- The file with this hash holds the first bytes of `f`, and none else.
abbrev pub HoldsPrefix : Bytes → Bytes → Db → Type 0
HoldsPrefix hash f db = (n : ℕ) × (n ≤ length f) × (content_of hash db ≡ take n f)

-- The message, or the packet with the hash, by which a file that is stored already is answered.
unfoldable pub says_completed : List PutsReply → Bool
unfolding c_string
says_completed [] = false
says_completed (message completed ∷ _) = true
says_completed (message _ ∷ replies) = says_completed replies
says_completed (packet p ∷ replies) = not (is_empty (c_string p.hash)) || says_completed replies

-- A prefix of `f` is stored, and all of it where the client was told that it is complete.
abbrev pub IsUpheld : Bytes → Bytes → List PutsReply × Db → Type 0
IsUpheld hash f (replies, db) =
    HoldsPrefix hash f db × ((says_completed replies ≡ false) ⊎ (content_of hash db ≡ f))

pub put_content_lem :
    (hash content : Bytes) (db : Db) → content_of hash (put_content hash content db) ≡ content
unfolding put_content write_name
put_content_lem hash content db = rw (content_of, str_eq_refl hash) refl

pub length-prefix : (n : ℕ) (f : Bytes) → n ≤ length f → length (take n f) ≡ n
length-prefix n f h = omega (arith, length-take n f)

resize_cut : (n : ℕ) (s t : Bytes) → length s ≡ n → resize n (s ++ t) ≡ s
unfolding resize
resize_cut n s t e =
    let z : n - length (s ++ t) ≡ 0 = omega (arith, length-append s t) in
    rw (z, ← e, take-append s t) (append-nil s)

drop_all : (n : ℕ) (s : Bytes) → length s ≤ n → drop n s ≡ []
drop_all zero [] h = refl
drop_all zero (c ∷ s) h = absurd (omega arith)
drop_all (suc n) [] h = refl
drop_all (suc n) (c ∷ s) h = drop_all n s (omega arith)

-- A file of n bytes, extended.
module _ (n m : ℕ) (s : Bytes) (e : length s ≡ n) (h : n ≤ m) where
  length-resize : length (resize m s) ≡ m
  unfolding resize
  length-resize = omega (
    arith,
    length-append (take m s) (replicate (m - length s) 0),
    length-take m s,
    length-replicate {A = ℕ} (m - length s) 0,
  )

  take-resize : take n (resize m s) ≡ s
  unfolding resize
  take-resize =
      rw (take_all m s (omega arith), ← e, take-append s (replicate (m - length s) 0)) refl

filled-prefix :
    (n m : ℕ) (f old s : Bytes)
    → take n old ≡ take n f
    → take m s ≡ take m (drop n f)
    → filled n old s m ≡ take (n + m) f ++ drop (n + m) old
unfolding filled
filled-prefix n m f old s e d =
    rw (e, d, take-add n m f, append_assoc (take n f) (take m (drop n f)) (drop (n + m) old)) refl

module _ (b : Backend) (works : (k : ℕ) → b.fails k ≡ false) (config : Config) (link : UploadLink)
    (ctx : ClientContext) (u : Upload) (f : Bytes) where
  pub record_upload-IsUpheld :
      (db : Db) → content_of u.stored db ≡ f → IsUpheld u.stored f (record_upload b config ctx u db)
  unfolding record_upload
  record_upload-IsUpheld db e =
      let kept = finish_upload_db_work-store b config ctx u.full_path u.name u.hash u.size db in
      let held : content_of u.stored
            (finish_upload_db_work b config ctx u.full_path u.name u.hash u.size db).1
          ≡ f =
        rw (content_of, kept) e in
      ((length f, omega arith, rw (held, take_all (length f) f (omega arith)) refl), inr held)

  truncate_stored-eq :
      (n : ℕ) (db : Db)
      → truncate_stored b u.stored n db
        ≡ put_content u.stored (resize n (content_of u.stored db)) (tick db)
  unfolding truncate_stored
  truncate_stored-eq n db = rw (works db.calls) refl

  settle_upload-end :
      (n remaining k : ℕ) (content : Bytes) (db : Db)
      → ltb k remaining ≡ false
      → settle_upload b config ctx u n remaining (done, k, content) db
        ≡ record_upload b config ctx u (put_content u.stored content db)
  unfolding settle_upload
  settle_upload-end n remaining k content db h = rw h refl

  settle_upload-cut :
      (n remaining k : ℕ) (content : Bytes) (db : Db)
      → ltb k remaining ≡ true
      → settle_upload b config ctx u n remaining (done, k, content) db ≡ (
        message saved_progress ∷ [],
        put_content u.stored
            (resize (n + k) (content_of u.stored (put_content u.stored content db)))
            (tick (put_content u.stored content db)),
      )
  unfolding settle_upload
  settle_upload-cut n remaining k content db h =
      rw (h, truncate_stored-eq (n + k) (put_content u.stored content db)) refl

  -- All of `f` is stored, and the tables are next; or fewer bytes came, and those are kept.
  abbrev pub Settled : ℕ → Bytes → List PutsReply × Db → Db → Type 0
  Settled n content r db =
      (r ≡ record_upload b config ctx u (put_content u.stored f db))
      ⊎ ((k : ℕ) × (n + k < length f)
          × (r ≡ (
            message saved_progress ∷ [],
            put_content u.stored (take (n + k) f) (tick (put_content u.stored content db)),
          ))
          × (¬ NeverFails link.recvs ⊎ (length link.incoming < length f - n)))

  settle_upload-Settled :
      (sink : Sink) (n : ℕ) (old : Bytes) (r : Outcome × ℕ × Bytes) (db : Db) (m : ℕ)
      → n ≤ length f
      → NeverRefuses sink
      → length old ≡ length f
      → take n old ≡ take n f
      → link.incoming ≡ take m (drop n f)
      → Filled sink link.recvs n (length f - n) old link.incoming r
      → Settled n r.2 (settle_upload b config ctx u n (length f - n) r db) db
  settle_upload-Settled sink n old (done, k, content) db m h nr l e i (j, c, x) =
      let short : k ≤ m = omega (arith, ap (length {A = ℕ}) i, length-take m (drop n f)) in
      let same : take k link.incoming ≡ take k (drop n f) =
        rw (i, take-take k m (drop n f) short) refl in
      let shape : content ≡ take (n + k) f ++ drop (n + k) old =
        c ∙ filled-prefix n k f old link.incoming e same in
      elim x [
        | inl all ↦
            let end : n + k ≡ length f = omega arith in
            let stop : ltb k (length f - n) ≡ false = ground arith in
            let whole : content ≡ f =
              shape
              ∙ rw (end, take_all (length f) f (omega arith), drop_all (length f) old (omega arith))
                  (append-nil f) in
            inl (
              settle_upload-end n (length f - n) k content db stop
              ∙ ap (λ c. record_upload b config ctx u (put_content u.stored c db)) whole)
        | inr (less, why) ↦
            let go : ltb k (length f - n) ≡ true = ground arith in
            inr (
              k,
              omega arith,
              settle_upload-cut n (length f - n) k content db go
                  ∙ ap
                      (λ c. (
                        message saved_progress ∷ [],
                        put_content u.stored c (tick (put_content u.stored content db)),
                      ))
                      (ap (resize (n + k)) (put_content_lem u.stored content db ∙ shape)
                        ∙ resize_cut (n + k) (take (n + k) f) (drop (n + k) old)
                            (length-prefix (n + k) f (omega arith))),
              why,
            )
      ]
  settle_upload-Settled sink n old (failed, k, content) db m h nr l e i p = absurd (p.4 nr)
  settle_upload-Settled sink n old (stuck, k, content) db m h nr l e i p = absurd p

  module _ (reliable : IsReliable link) where
    sink_of : ℕ → Sink
    unfolding file_sink map_sink
    sink_of size = if ltb large_file_mmap_threshold size then map_sink else file_sink link.writes

    sink_of-cases :
        (P : Sink → Type 0) (size : ℕ) → P map_sink → P (file_sink link.writes) → P (sink_of size)
    unfolding sink_of
    sink_of-cases P size x y = elim (Bool-cases (ltb large_file_mmap_threshold size)) [
      | inl e ↦ rw (sink_of, e) x
      | inr e ↦ rw (sink_of, e) y
    ]

    receive_upload-eq :
        (n : ℕ) (db : Db)
        → receive_upload b config link ctx u (length f) n db
          ≡ settle_upload b config ctx u n
              (length f - n)
              (receive_content
                (sink_of (length f))
                link.recvs
                n
                (length f - n)
                (content_of u.stored db)
                link.incoming)
              (tick db)
    unfolding receive_upload sink_of
    receive_upload-eq n db = rw (works db.calls) refl

    receive_upload-Settled :
        (n m : ℕ) (db : Db)
        → n ≤ length f
        → length (content_of u.stored db) ≡ length f
        → take n (content_of u.stored db) ≡ take n f
        → link.incoming ≡ take m (drop n f)
        → (content : Bytes) × Settled n content
            (receive_upload b config link ctx u (length f) n db)
            (tick db)
    receive_upload-Settled n m db h l e i =
        let r =
          receive_content (sink_of (length f)) link.recvs n (length f - n) (content_of u.stored db)
            link.incoming in
        (
          r.2,
          rw (receive_upload-eq n db) (
              settle_upload-Settled (sink_of (length f)) n (content_of u.stored db) r (tick db) m h
                (sink_of-cases NeverRefuses (length f) map_sink-NeverRefuses (
                  file_sink-NeverRefuses link.writes reliable.writes_bounded
                    reliable.writes_succeed))
                l e i
                (receive_content-Filled (sink_of (length f)) link.recvs n (length f - n)
                  (content_of u.stored db) link.incoming
                  (sink_of-cases IsSink (length f) map_sink-IsSink
                    (file_sink-IsSink link.writes reliable.writes_bounded))
                  reliable.recvs_bounded (omega arith))),
        )

    extend_upload-eq :
        (n : ℕ) (db : Db)
        → n < length f
        → content_of u.stored db ≡ take n f
        → extend_upload b config link ctx u (length f) n db
          ≡ receive_upload b config link ctx u
              (length f)
              n
              (put_content u.stored (resize (length f) (take n f)) (tick db))
    unfolding extend_upload
    extend_upload-eq n db h e =
        let filled : (length f == 0) ≡ false = ground arith in rw (works db.calls, filled, e) refl

    pub extend_upload-Settled :
        (n m : ℕ) (db : Db)
        → n < length f
        → content_of u.stored db ≡ take n f
        → link.incoming ≡ take m (drop n f)
        → (content : Bytes) × (db' : Db) × (db'.paths ≡ db.paths)
          × (db'.files ≡ db.files)
          × Settled n content (extend_upload b config link ctx u (length f) n db) db'
    unfolding put_content
    extend_upload-Settled n m db h e i =
        let size = length-prefix n f (omega arith) in
        let db' = put_content u.stored (resize (length f) (take n f)) (tick db) in
        let held : content_of u.stored db' ≡ resize (length f) (take n f) =
          put_content_lem u.stored (resize (length f) (take n f)) (tick db) in
        let p =
          receive_upload-Settled n m db' (omega arith)
            (rw held (length-resize n (length f) (take n f) size (omega arith)))
            (rw held (take-resize n (length f) (take n f) size (omega arith))) i in
        (p.0, tick db', refl, refl, rw (extend_upload-eq n db h e) p.1)
