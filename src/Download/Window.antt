-- ===== src/Download/Window.antt =====
-- handle_gets and handle_gets_range: which bytes of which file go out.
use wind_cloud_v.Shared.{
  ℕ, ◌+◌, ◌-◌, ◌≤◌, ◌<◌, ◌≡◌, refl, sym, ◌∙◌, ◌⊎◌, inl, inr, true, false, Bool, [], Option, none,
  some, arith, ltb, length, take, drop, Bool-cases, Option-cases,
}
use wind_cloud_v.Shared.Int.{ℤ, pos, negsuc, ◌+ℤ◌}
use wind_cloud_v.Shared.Text.{Bytes}
use wind_cloud_v.Protocol.{FilePacket}
use wind_cloud_v.Protocol.Stream.{IsBounded, NeverFails, Outcome, done, failed, stuck}
use wind_cloud_v.Upload.{large_file_mmap_threshold}
use wind_cloud_v.Download.{
  DownloadLink, Download, is_done, effective_range, resume_offset, send_range, offer_range,
  send_file_by_sendfile, send_file_by_mmap,
}
use wind_cloud_v.Download.Sending.{
  SentPart, SentPart-weaken, send_file_by_sendfile-SentPart, send_file_by_mmap-SentPart,
}

pub record IsBoundedLink (link : DownloadLink) : Type 0 where
  pub sendfiles : IsBounded link.sendfiles
  pub sends : (k : ℕ) → IsBounded (link.sends k)

abbrev pub NeverBreaks : Bool → DownloadLink → Type 0
NeverBreaks mapped link =
    (mapped ≡ true) × NeverFails link.sendfiles × ((k : ℕ) → NeverFails (link.sends k))

-- The bytes from `start` up to `stop` are those asked for: the whole file, or the range from its first
-- to its last byte, both included, which lies within the file.
abbrev pub InRange : Option (ℤ × ℤ) → ℕ → ℕ → ℕ → Type 0
InRange none size start stop = (start ≡ 0) × (stop ≡ size)
InRange (some (first, last)) size start stop =
    (first ≡ pos start) × (pos stop ≡ last +ℤ pos 1) × (start < stop) × (stop ≤ size)

-- The download starts `skipped` bytes behind the start of the range: as many as the client says that
-- it has, or none where that is no number of bytes of the range.
abbrev pub Skips : ℤ → ℕ → ℕ → Type 0
Skips offset total skipped =
    ((offset ≡ pos skipped) × (skipped ≤ total))
    ⊎ ((skipped ≡ 0) × ((k : ℕ) → k ≤ total → ¬ (offset ≡ pos k)))

pub effective_range-InRange :
    (range : Option (ℤ × ℤ)) (size : ℕ) {start stop : ℕ}
    → effective_range range size ≡ some (start, stop)
    → InRange range size start stop
unfolding effective_range ◌+ℤ◌
effective_range-InRange none size e = (ground arith, ground arith)
effective_range-InRange (some (pos s, pos t)) size e =
    (ground arith, ground arith, ground arith, ground arith)
effective_range-InRange (some (pos s, negsuc t)) size e = absurd (ground arith)
effective_range-InRange (some (negsuc s, t)) size e = absurd (ground arith)

pub InRange-effective_range :
    (range : Option (ℤ × ℤ)) (size : ℕ) {start stop : ℕ}
    → InRange range size start stop
    → effective_range range size ≡ some (start, stop)
unfolding effective_range ◌+ℤ◌
InRange-effective_range none size (e, f) = ground (arith, e, f)
InRange-effective_range (some (pos s, pos t)) size (e, f, less, fits) = ground (arith, e, f)
InRange-effective_range (some (pos s, negsuc t)) size (e, f, less, fits) =
    absurd (ground (arith, e, f))
InRange-effective_range (some (negsuc s, t)) size (e, f, less, fits) = absurd (ground (arith, e))

pub resume_offset-Skips : (offset : ℤ) (total : ℕ) → Skips offset total (resume_offset offset total)
unfolding resume_offset
resume_offset-Skips (pos n) total = elim (Bool-cases (ltb total n)) [
  | inl y ↦ inr (ground (arith, y), λ k l e. ground (arith, y, e))
  | inr y ↦ inl (ground (arith, y), ground (arith, y))
]
resume_offset-Skips (negsuc n) total = inr (ground arith, λ k l e. ground (arith, e))

pub Skips-resume_offset :
    (offset : ℤ) (total skipped : ℕ)
    → Skips offset total skipped
    → resume_offset offset total ≡ skipped
Skips-resume_offset offset total skipped s =
    one offset total (resume_offset offset total) skipped (resume_offset-Skips offset total) s
  where
    one : (offset : ℤ) (total a c : ℕ) → Skips offset total a → Skips offset total c → a ≡ c
    one offset total a c (inl (e, h)) (inl (f, i)) = ground (arith, e, f)
    one offset total a c (inl (e, h)) (inr (f, i)) = absurd (i a h e)
    one offset total a c (inr (e, h)) (inl (f, i)) = absurd (h c i f)
    one offset total a c (inr (e, h)) (inr (f, i)) = e ∙ sym f

pub effective_range-inside :
    (range : Option (ℤ × ℤ)) (size : ℕ) {start stop : ℕ}
    → effective_range range size ≡ some (start, stop)
    → (start ≤ stop) × (stop ≤ size)
unfolding effective_range
effective_range-inside none size e = ground arith
effective_range-inside (some (pos s, pos t)) size e = ground arith
effective_range-inside (some (pos s, negsuc t)) size e = ground arith
effective_range-inside (some (negsuc s, t)) size e = ground arith

resume_offset-le : (offset : ℤ) (total : ℕ) → resume_offset offset total ≤ total
unfolding resume_offset
resume_offset-le (pos n) total = ground arith
resume_offset-le (negsuc n) total = ground arith

send_range-SentPart :
    (link : DownloadLink) (mapped : Bool) (content : Bytes) (start stop : ℕ) (p : FilePacket)
    → IsBoundedLink link
    → start ≤ stop
    → stop ≤ length content
    → let offset = resume_offset p.offset (stop - start) + start in
      SentPart
        (NeverBreaks mapped link)
        (drop offset content)
        (stop - offset)
        (send_range link mapped content start stop p)
unfolding send_range
send_range-SentPart link mapped content start stop p bounded h i =
    let offset = resume_offset p.offset (stop - start) + start in
    let within : offset ≤ stop = omega (arith, resume_offset-le p.offset (stop - start)) in
    elim (Bool-cases (ltb large_file_mmap_threshold (stop - start))) [
      | inl y ↦
          rw (send_range, y)
            (SentPart-weaken ((mapped ≡ true) × ((k : ℕ) → NeverFails (link.sends k)))
              (NeverBreaks mapped link) (λ q. (q.0, q.2)) (drop offset content) (stop - offset)
              (send_file_by_mmap mapped link.sends content offset stop)
              (send_file_by_mmap-SentPart mapped link.sends content offset stop bounded.sends within
                i))
      | inr y ↦
          rw (send_range, y)
            (SentPart-weaken (NeverFails link.sendfiles) (NeverBreaks mapped link) (λ q. q.1)
              (drop offset content) (stop - offset)
              (send_file_by_sendfile link.sendfiles content offset stop)
              (send_file_by_sendfile-SentPart link.sendfiles content offset stop bounded.sendfiles
                within i))
    ]

-- Nothing of the file went out, or bytes of the range, from the client's offset on and in order: all
-- of them where the download is complete.
abbrev pub IsServed : DownloadLink → Bytes → ℕ → ℕ → Download → Type 0
IsServed link content start stop d =
    ((d.sent ≡ []) × (d.complete ≡ false))
    ⊎ ((p : FilePacket) × (skipped : ℕ) × (n : ℕ) × (link.client_packet ≡ some p)
        × Skips p.offset (stop - start) skipped
        × (skipped + start + n ≤ stop)
        × (d.sent ≡ take n (drop (skipped + start) content))
        × ((d.complete ≡ false) ⊎ ((d.complete ≡ true) × (skipped + start + n ≡ stop))))

sent_range :
    (P : Type 0) (s : Bytes) (len : ℕ) (r : Outcome × Bytes)
    → SentPart P s len r
    → (n : ℕ) × (n ≤ len)
      × (r.1 ≡ take n s)
      × ((is_done r.0 ≡ false) ⊎ ((is_done r.0 ≡ true) × (n ≡ len)))
sent_range P s len (done, wire) p = (len, omega arith, p, inr (refl, refl))
sent_range P s len (failed, wire) p = (p.0, omega (arith, p.1), p.2, inl refl)
sent_range P s len (stuck, wire) p = absurd p

module _ (link : DownloadLink) (bounded : IsBoundedLink link) (mapped : Bool) (arg content : Bytes)
    (start stop : ℕ) (h : start ≤ stop) (i : stop ≤ length content) where
  pub offer_range-IsServed :
      IsServed link content start stop (offer_range link mapped arg content start stop)
  unfolding offer_range
  offer_range-IsServed = elim (Bool-cases link.sends_packet) [
    | inr y ↦ rw (offer_range, y) (inl (refl, refl))
    | inl y ↦ elim (Option-cases link.client_packet) [
      | inl z ↦ rw (offer_range, y, z) (inl (refl, refl))
      | inr (p, z) ↦
          let offset = resume_offset p.offset (stop - start) + start in
          let within : offset ≤ stop = omega (arith, resume_offset-le p.offset (stop - start)) in
          let (n, less, e, end) =
            sent_range (NeverBreaks mapped link) (drop offset content) (stop - offset)
              (send_range link mapped content start stop p)
              (send_range-SentPart link mapped content start stop p bounded h i) in
          rw (offer_range, y, z)
            (inr (
              p,
              resume_offset p.offset (stop - start),
              n,
              refl,
              resume_offset-Skips p.offset (stop - start),
              omega arith,
              e,
              elim end [ inl a ↦ inl a | inr (a, c) ↦ inr (a, omega arith) ],
            ))
    ]
  ]

  -- Nothing breaks off: all bytes from the client's offset on.
  pub offer_range-complete :
      (p : FilePacket)
      → link.sends_packet ≡ true
      → link.client_packet ≡ some p
      → NeverBreaks mapped link
      → let offset = resume_offset p.offset (stop - start) + start in
        ((offer_range link mapped arg content start stop).complete ≡ true)
        × ((offer_range link mapped arg content start stop).sent
            ≡ take (stop - offset) (drop offset content))
  unfolding offer_range
  offer_range-complete p y z never =
      let offset = resume_offset p.offset (stop - start) + start in
      rw (offer_range, y, z)
        (unbroken never (drop offset content) (stop - offset)
          (send_range link mapped content start stop p)
          (send_range-SentPart link mapped content start stop p bounded h i))
    where
      unbroken :
          {P : Type 0}
          → P
          → (s : Bytes) (len : ℕ) (r : Outcome × Bytes) → SentPart P s len r
          → (is_done r.0 ≡ true) × (r.1 ≡ take len s)
      unbroken q s len (done, wire) e = (refl, e)
      unbroken q s len (failed, wire) e = absurd (e.3 q)
      unbroken q s len (stuck, wire) e = absurd e
