-- ===== src/Download/Sending.antt =====
-- The bytes that the two ways of sending put on the wire.
use wind_cloud_v.Shared.{
  ℕ, zero, suc, ◌+◌, ◌-◌, ◌≤◌, ◌<◌, ◌≡◌, refl, ap, ◌⊎◌, inl, inr, true, false, Bool, [], ◌++◌, none,
  some, arith, ltb, min, length, length-take, length-drop, take, drop, Bool-cases, Option-cases,
}
use wind_cloud_v.Shared.Text.{Bytes}
use wind_cloud_v.Protocol.Stream.{
  Calls, IsBounded, NeverFails, Outcome, done, failed, stuck, send_full,
}
use wind_cloud_v.Protocol.Stream.Complete.{Sent, send_full-Sent, take-add, drop-add, fails_here}
use wind_cloud_v.Upload.{buffer_size}
use wind_cloud_v.Upload.Content.{take-take}
use wind_cloud_v.Download.{sendfile_loop, send_file_by_sendfile, mmap_loop, send_file_by_mmap}

-- Sending `len` bytes of what starts with `s`: all of them, or a proper prefix after a failed call.
abbrev pub SentPart : Type 0 → Bytes → ℕ → Outcome × Bytes → Type 0
SentPart P s len (done, wire) = wire ≡ take len s
SentPart P s len (failed, wire) = (n : ℕ) × (n < len) × (wire ≡ take n s) × ¬ P
SentPart P s len (stuck, wire) = ⊥

module _ (calls : Calls) (content : Bytes) (fuel k current remaining : ℕ) (wire : Bytes) where
  sendfile_loop-end :
      ltb 0 remaining ≡ false
      → sendfile_loop calls content (suc fuel) k current remaining wire ≡ (done, wire)
  unfolding sendfile_loop
  sendfile_loop-end h = rw (sendfile_loop, h) refl

  sendfile_loop-fail :
      ltb 0 remaining ≡ true
      → calls k (min remaining (length content - current)) ≡ none
      → sendfile_loop calls content (suc fuel) k current remaining wire ≡ (failed, wire)
  unfolding sendfile_loop
  sendfile_loop-fail h e = rw (sendfile_loop, h, e) refl

  sendfile_loop-more :
      {r : ℕ}
      → ltb 0 remaining ≡ true
      → calls k (min remaining (length content - current)) ≡ some r
      → sendfile_loop calls content (suc fuel) k current remaining wire
        ≡ sendfile_loop calls content fuel
            (k + 1)
            (current + suc r)
            (remaining - suc r)
            (wire ++ take (suc r) (drop current content))
  unfolding sendfile_loop
  sendfile_loop-more h e = rw (sendfile_loop, h, e) refl

module _ (calls : Calls) (content : Bytes) (offset len : ℕ) (bounded : IsBounded calls)
    (inside : offset + len ≤ length content) where
  sendfile_loop-SentPart :
      (fuel k n : ℕ)
      → n ≤ len
      → len - n < fuel
      → SentPart
          (NeverFails calls)
          (drop offset content)
          len
          (sendfile_loop calls content fuel k (offset + n) (len - n) (take n (drop offset content)))
  sendfile_loop-SentPart zero k n h f = absurd (omega arith)
  sendfile_loop-SentPart (suc fuel) k n h f = elim (Bool-cases (ltb 0 (len - n))) [
    | inr stop ↦
        let e : n ≡ len = ground arith in
        rw (sendfile_loop-end calls content fuel k (offset + n) (len - n) _ stop)
          (ap (λ i. take i (drop offset content)) e)
    | inl go ↦ elim (Option-cases (calls k (min (len - n) (length content - (offset + n))))) [
      | inl e ↦
          rw (sendfile_loop-fail calls content fuel k (offset + n) (len - n) _ go e)
            (n, ground arith, refl, fails_here calls k _ (ground arith) e)
      | inr (r, e) ↦
          let bound = bounded k (min (len - n) (length content - (offset + n))) r e in
          let there : offset + n + suc r ≡ offset + (n + suc r) = omega arith in
          let left : len - n - suc r ≡ len - (n + suc r) = omega arith in
          rw
            (
              sendfile_loop-more calls content fuel k (offset + n) (len - n) _ go e,
              drop-add offset n content,
              ← take-add n (suc r) (drop offset content),
              there,
              left,
            )
            (sendfile_loop-SentPart fuel (k + 1) (n + suc r) (omega arith) (omega arith))
    ]
  ]

module _ (calls : ℕ → Calls) (start : Bytes) (len fuel k n : ℕ) (wire : Bytes) where
  mmap_loop-end : ltb n len ≡ false → mmap_loop calls start len (suc fuel) k n wire ≡ (done, wire)
  unfolding mmap_loop
  mmap_loop-end h = rw (mmap_loop, h) refl

  mmap_loop-more :
      {piece : Bytes}
      → ltb n len ≡ true
      → send_full (calls k) (take (min buffer_size (len - n)) (drop n start)) ≡ (done, piece)
      → mmap_loop calls start len (suc fuel) k n wire
        ≡ mmap_loop calls start len fuel (k + 1) (n + min buffer_size (len - n)) (wire ++ piece)
  unfolding mmap_loop
  mmap_loop-more h e = rw (mmap_loop, h, e, e) refl

  mmap_loop-fail :
      {piece : Bytes}
      → ltb n len ≡ true
      → send_full (calls k) (take (min buffer_size (len - n)) (drop n start)) ≡ (failed, piece)
      → mmap_loop calls start len (suc fuel) k n wire ≡ (failed, wire ++ piece)
  unfolding mmap_loop
  mmap_loop-fail h e = rw (mmap_loop, h, e, e) refl

-- The two ways that a Sent result goes.
Sent-cases :
    (calls : Calls) (buf : Bytes) (r : Outcome × Bytes)
    → Sent calls buf r
    → (r ≡ (done, buf))
      ⊎ ((n : ℕ) × (n < length buf) × (r ≡ (failed, take n buf)) × ¬ NeverFails calls)
Sent-cases calls buf (done, wire) p = inl (rw p refl)
Sent-cases calls buf (failed, wire) p = inr (p.0, p.1, rw p.2 refl, p.3)
Sent-cases calls buf (stuck, wire) p = absurd p

module _ (calls : ℕ → Calls) (start : Bytes) (len : ℕ) (bounded : (k : ℕ) → IsBounded (calls k))
    (inside : len ≤ length start) where
  mmap_loop-SentPart :
      (fuel k n : ℕ)
      → n ≤ len
      → len - n < fuel
      → SentPart
          ((k : ℕ) → NeverFails (calls k))
          start
          len
          (mmap_loop calls start len fuel k n (take n start))
  mmap_loop-SentPart zero k n h f = absurd (omega arith)
  mmap_loop-SentPart (suc fuel) k n h f = elim (Bool-cases (ltb n len)) [
    | inr stop ↦
        let e : n ≡ len = ground arith in
        rw (mmap_loop-end calls start len fuel k n _ stop) (ap (λ i. take i start) e)
    | inl go ↦
        let once = min buffer_size (len - n) in
        let less : n < len = ground arith in
        let size : length (take once (drop n start)) ≡ once =
          omega (arith, length-take once (drop n start), length-drop n start) in
        elim (Sent-cases (calls k) (take once (drop n start)) _
          (send_full-Sent (calls k) (take once (drop n start)) (bounded k))) [
            | inl e ↦
                rw (mmap_loop-more calls start len fuel k n _ go e, ← take-add n once start)
                  (mmap_loop-SentPart fuel (k + 1) (n + once) (omega arith) (omega arith))
            | inr (m, short, e, broken) ↦ rw (mmap_loop-fail calls start len fuel k n _ go e) (
              n + m,
              omega arith,
              rw (take-take m once (drop n start) (omega arith), take-add n m start) refl,
              λ all. broken (all k),
            )
          ]
  ]

module _ (P Q : Type 0) (weaker : Q → P) (s : Bytes) (len : ℕ) where
  pub SentPart-weaken : (r : Outcome × Bytes) → SentPart P s len r → SentPart Q s len r
  SentPart-weaken (done, wire) p = p
  SentPart-weaken (failed, wire) p = (p.0, p.1, p.2, λ q. p.3 (weaker q))
  SentPart-weaken (stuck, wire) p = p

unmapped : ¬ (false ≡ true)
unmapped e = cc

-- Each way sends the bytes from `offset` up to `stop`, and fails only after a failed call.
pub send_file_by_sendfile-SentPart :
    (calls : Calls) (content : Bytes) (offset stop : ℕ)
    → IsBounded calls
    → offset ≤ stop
    → stop ≤ length content
    → SentPart
        (NeverFails calls)
        (drop offset content)
        (stop - offset)
        (send_file_by_sendfile calls content offset stop)
unfolding send_file_by_sendfile
send_file_by_sendfile-SentPart calls content offset stop bounded h i =
    let zero_in : offset + 0 ≡ offset = omega arith in
    let all : stop - offset - 0 ≡ stop - offset = omega arith in
    rw (zero_in, all) at
      (sendfile_loop-SentPart calls content offset (stop - offset) bounded (omega arith)
        (suc (stop - offset)) 0 0 (omega arith) (omega arith))

pub send_file_by_mmap-SentPart :
    (mapped : Bool) (calls : ℕ → Calls) (content : Bytes) (offset stop : ℕ)
    → ((k : ℕ) → IsBounded (calls k))
    → offset ≤ stop
    → stop ≤ length content
    → SentPart
        ((mapped ≡ true) × ((k : ℕ) → NeverFails (calls k)))
        (drop offset content)
        (stop - offset)
        (send_file_by_mmap mapped calls content offset stop)
unfolding send_file_by_mmap
send_file_by_mmap-SentPart mapped calls content offset stop bounded h i =
    elim (Bool-cases (ltb 0 (stop - offset))) [
      | inr y ↦ let e : stop - offset ≡ 0 = ground arith in rw (send_file_by_mmap, y, e) refl
      | inl y ↦ elim (Bool-cases mapped) [
        | inr u ↦ rw (send_file_by_mmap, y, u) (0, ground arith, refl, λ q. unmapped q.0)
        | inl u ↦
            rw (send_file_by_mmap, y, u)
              (SentPart-weaken ((k : ℕ) → NeverFails (calls k))
                ((true ≡ true) × ((k : ℕ) → NeverFails (calls k))) (λ q. q.1) (drop offset content)
                (stop - offset)
                (mmap_loop calls (drop offset content) (stop - offset) (suc (stop - offset)) 0 0 [])
                (mmap_loop-SentPart calls (drop offset content) (stop - offset) bounded
                  (omega (arith, length-drop offset content)) (suc (stop - offset)) 0 0
                  (omega arith) (omega arith)))
      ]
    ]
