-- ===== src/Upload/Complete.antt =====
-- An upload that nothing breaks off, from the rest of the file to the record.
use wind_cloud_v.Shared.{
  ℕ, ◌≤◌, ◌≡◌, refl, sym, ap, ◌∙◌, inl, inr, true, false, List, ◌∷◌, none, some, arith, length,
  take, drop, length-drop, Option-cases,
}
use wind_cloud_v.Shared.Int.{pos}
use wind_cloud_v.Shared.Text.{Bytes, str_eq_refl, take_all}
use wind_cloud_v.Protocol.Stream.{NeverFails}
use wind_cloud_v.Protocol.{puts, init_file_packet}
use wind_cloud_v.Identity.{Config}
use wind_cloud_v.Vfs.{Backend, Db, tick}
use wind_cloud_v.Vfs.Entities.{ClientContext, write_name, create_name}
use wind_cloud_v.Upload.{PutsReply, packet, Upload, UploadLink}
use wind_cloud_v.Upload.Receive.{content_of, put_content}
use wind_cloud_v.Upload.Handler.{record_upload, extend_upload, resume_upload, open_upload}
use wind_cloud_v.Upload.Settled.{IsReliable, Settled, extend_upload-Settled}
use wind_cloud_v.Upload.Resume.{
  le_cases, created, told, resume_upload-more, resume_upload-whole, measure_upload-eq,
  open_upload-eq,
}

-- The client is told how far the file has come, and then what the record of the whole file comes to:
-- the file is stored, and the nodes and the records are still those of `db`.
pub record IsRecorded (b : Backend) (config : Config) (ctx : ClientContext) (arg : Bytes)
    (u : Upload) (f : Bytes) (n : ℕ) (db : Db) (r : List PutsReply × Db) : Type 0 where
  pub whole : Db
  pub paths : whole.paths ≡ db.paths
  pub files : whole.files ≡ db.files
  pub stored : whole.store u.stored ≡ some f
  pub outcome : r ≡ (
    packet (init_file_packet puts (some arg) u.size (pos n) none)
        ∷ (record_upload b config ctx u whole).0,
    (record_upload b config ctx u whole).1,
  )

put_content-stored :
    (hash content : Bytes) (db : Db) → (put_content hash content db).store hash ≡ some content
unfolding put_content write_name
put_content-stored hash content db = rw (str_eq_refl hash) refl

create_name-stored :
    (hash : Bytes) (db : Db) → create_name hash db.store hash ≡ some (content_of hash db)
unfolding create_name write_name
create_name-stored hash db = elim (Option-cases (db.store hash)) [
  | inl e ↦ rw (create_name, content_of, e, str_eq_refl hash) refl
  | inr (c, e) ↦ rw (create_name, content_of, e, e) refl
]

module _ (b : Backend) (works : (k : ℕ) → b.fails k ≡ false) (config : Config) (link : UploadLink)
    (reliable : IsReliable link) (flows : NeverFails link.recvs) (sent : link.sends_packet ≡ true)
    (ctx : ClientContext) (arg f : Bytes) (u : Upload) (size : u.size ≡ pos (length f)) (n : ℕ)
    (h : n ≤ length f) (rest : link.incoming ≡ drop n f) where
  rest_taken : link.incoming ≡ take (length f) (drop n f)
  rest_taken = rest ∙ sym (take_all (length f) (drop n f) (omega (arith, length-drop n f)))

  Settled-end :
      (content : Bytes) (r : List PutsReply × Db) (db : Db)
      → Settled b works config link ctx u f n content r db
      → r ≡ record_upload b config ctx u (put_content u.stored f db)
  Settled-end content r db (inl e) = e
  Settled-end content r db (inr (k, less, e, inl broken)) = absurd (broken flows)
  Settled-end content r db (inr (k, less, e, inr short)) =
      absurd (omega (arith, ap (length {A = ℕ}) rest, length-drop n f))

  resume_upload-IsRecorded :
      (db : Db)
      → db.store u.stored ≡ some (take n f)
      → IsRecorded b config ctx arg u f n db (resume_upload b config link ctx arg u n db)
  unfolding put_content told
  resume_upload-IsRecorded db e =
      let held : content_of u.stored db ≡ take n f = rw (content_of, e) refl in
      elim (le_cases n (length f) h) [
        | inl less ↦
            let (content, db', p, q, settled) =
              extend_upload-Settled b works config link ctx u f reliable n (length f) db less held
                rest_taken in
            let end =
              Settled-end content (extend_upload b config link ctx u (length f) n db) db' settled in
            record {
              whole = put_content u.stored f db';
              paths = p;
              files = q;
              stored = put_content-stored u.stored f db';
              outcome =
                  resume_upload-more b works config link reliable ctx arg f u size n (length f) h
                    rest_taken db sent less
                  ∙ ap
                      (λ r. (
                        told b works config link reliable ctx arg f u size n (length f) h rest_taken
                            ∷ r.0,
                        r.1,
                      ))
                      end;
            }
        | inr all ↦ record {
          whole = db;
          paths = refl;
          files = refl;
          stored = e ∙ ap some (rw all (take_all (length f) f (omega arith)));
          outcome =
              resume_upload-whole b works config link reliable ctx arg f u size n (length f) h
                rest_taken db sent all;
        }
      ]

  -- From the opening of the file on.
  pub open_upload-IsRecorded :
      (db : Db)
      → content_of u.stored db ≡ take n f
      → IsRecorded b config ctx arg u f n db (open_upload b config link ctx arg u db)
  open_upload-IsRecorded db e =
      let db' = record (tick (tick db)) { store = create_name u.stored db.store } in
      let r = resume_upload-IsRecorded (tick db') (create_name-stored u.stored db ∙ ap some e) in
      record {
        whole = r.whole;
        paths = r.paths;
        files = r.files;
        stored = r.stored;
        outcome =
            open_upload-eq b works config link reliable ctx arg f u size n (length f) h rest_taken
              db
            ∙ measure_upload-eq b works config link reliable ctx arg f u size n (length f) h
                rest_taken db' (created u.stored db ∙ e)
            ∙ r.outcome;
      }
