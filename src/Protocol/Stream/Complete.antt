-- ===== src/Protocol/Stream/Complete.antt =====
-- The loops of send_full and recv_full, whatever pieces the calls move.
use native.Mathlib.Nat.{zero-add, suc-add}
use wind_cloud_v.Shared.{
  ℕ, zero, suc, ◌+◌, ◌-◌, ◌≤◌, ◌<◌, ◌≡◌, refl, ap, ◌⊎◌, inl, inr, true, false, [], ◌∷◌, ◌++◌, none,
  some, arith, ltb, length, length-append, length-drop, take, drop, Bool-cases, Option-cases, min,
}
use wind_cloud_v.Shared.Text.{Bytes, take_all}
use wind_cloud_v.Protocol.Stream.{
  Calls, IsBounded, NeverFails, Outcome, done, failed, stuck, send_loop, send_full, recv_loop,
  recv_full,
}

pub take-add : (m n : ℕ) (s : Bytes) → take (m + n) s ≡ take m s ++ take n (drop m s)
take-add zero n s = rw zero-add
take-add (suc m) zero [] = rw suc-add refl
take-add (suc m) (suc n) [] = rw suc-add refl
take-add (suc m) n (c ∷ s) = rw suc-add (ap (◌∷◌ c) (take-add m n s))

pub drop-add : (m n : ℕ) (s : Bytes) → drop (m + n) s ≡ drop n (drop m s)
drop-add zero n s = rw zero-add
drop-add (suc m) zero [] = rw suc-add refl
drop-add (suc m) (suc n) [] = rw suc-add refl
drop-add (suc m) n (c ∷ s) = rw suc-add (drop-add m n s)

-- What sending `buf` may come to.
abbrev pub Sent : Calls → Bytes → Outcome × Bytes → Type 0
Sent calls buf (done, wire) = wire ≡ buf
Sent calls buf (failed, wire) =
    (n : ℕ) × (n < length buf) × (wire ≡ take n buf) × ¬ NeverFails calls
Sent calls buf (stuck, wire) = ⊥

module _ (calls : Calls) (buf : Bytes) (fuel k total : ℕ) (wire : Bytes) where
  send_loop-end :
      ltb total (length buf) ≡ false → send_loop calls buf (suc fuel) k total wire ≡ (done, wire)
  unfolding send_loop
  send_loop-end h = ground arith

  send_loop-fail :
      ltb total (length buf) ≡ true
      → calls k (length buf - total) ≡ none
      → send_loop calls buf (suc fuel) k total wire ≡ (failed, wire)
  unfolding send_loop
  send_loop-fail h e = ground arith

  send_loop-more :
      {r : ℕ}
      → ltb total (length buf) ≡ true
      → calls k (length buf - total) ≡ some r
      → send_loop calls buf (suc fuel) k total wire
        ≡ send_loop calls buf fuel (k + 1) (total + suc r) (wire ++ take (suc r) (drop total buf))
  unfolding send_loop
  send_loop-more h e = ground arith

pub fails_here : (calls : Calls) (k n : ℕ) → 0 < n → calls k n ≡ none → ¬ NeverFails calls
fails_here calls k zero p e all = absurd (omega arith)
fails_here calls k (suc n) p e all = all k n e

send_loop-Sent :
    (calls : Calls) (buf : Bytes)
    → IsBounded calls
    → (fuel k total : ℕ) → total ≤ length buf
    → length buf - total < fuel
    → Sent calls buf (send_loop calls buf fuel k total (take total buf))
send_loop-Sent calls buf b zero k total h f = absurd (omega arith)
send_loop-Sent calls buf b (suc fuel) k total h f = elim (Bool-cases (ltb total (length buf))) [
  | inr less ↦ rw (send_loop-end calls buf fuel k total _ less) (take_all total buf (ground arith))
  | inl more ↦ elim (Option-cases (calls k (length buf - total))) [
    | inl e ↦
        rw (send_loop-fail calls buf fuel k total _ more e)
          (total, ground arith, refl, fails_here calls k _ (ground arith) e)
    | inr (r, e) ↦
        rw (send_loop-more calls buf fuel k total _ more e, ← take-add total (suc r) buf)
          (send_loop-Sent calls buf b fuel (k + 1) (total + suc r)
            (ground (arith, b k (length buf - total) r e))
            (ground (arith, b k (length buf - total) r e)))
  ]
]

-- send_full always ends within its rounds. It succeeds only after the whole buffer has gone out in
-- order, whatever pieces the calls make of it; where it fails, some call has failed and a proper
-- prefix of the buffer has gone out.
pub send_full-Sent :
    (calls : Calls) (buf : Bytes) → IsBounded calls → Sent calls buf (send_full calls buf)
unfolding send_full
send_full-Sent calls buf b =
    send_loop-Sent calls buf b (suc (length buf)) 0 0 (omega arith) (omega arith)

-- What reading `len` bytes of the stream `incoming` may come to.
abbrev pub Received : Calls → ℕ → Bytes → Outcome × Bytes × Bytes → Type 0
Received calls len incoming (done, got, rest) =
    (len ≤ length incoming) × (got ≡ take len incoming) × (rest ≡ drop len incoming)
Received calls len incoming (failed, got, rest) =
    (n : ℕ) × (n < len)
    × (got ≡ take n incoming)
    × (rest ≡ drop n incoming)
    × (¬ NeverFails calls ⊎ (length incoming < len))
Received calls len incoming (stuck, got, rest) = ⊥

module _ (calls : Calls) (len fuel k total : ℕ) (got incoming : Bytes) where
  recv_loop-end :
      ltb total len ≡ false
      → recv_loop calls len (suc fuel) k total got incoming ≡ (done, got, incoming)
  unfolding recv_loop
  recv_loop-end h = ground arith

  recv_loop-fail :
      ltb total len ≡ true
      → calls k (min (len - total) (length incoming)) ≡ none
      → recv_loop calls len (suc fuel) k total got incoming ≡ (failed, got, incoming)
  unfolding recv_loop
  recv_loop-fail h e = ground arith

  recv_loop-more :
      {r : ℕ}
      → ltb total len ≡ true
      → calls k (min (len - total) (length incoming)) ≡ some r
      → recv_loop calls len (suc fuel) k total got incoming
        ≡ recv_loop calls len fuel
            (k + 1)
            (total + suc r)
            (got ++ take (suc r) incoming)
            (drop (suc r) incoming)
  unfolding recv_loop
  recv_loop-more h e = ground arith

pub blocked_here :
    (calls : Calls) (k n m : ℕ) → 0 < n → calls k (min n m) ≡ none → ¬ NeverFails calls ⊎ (m ≡ 0)
blocked_here calls k n zero p e = inr refl
blocked_here calls k zero (suc m) p e = absurd (omega arith)
blocked_here calls k (suc n) (suc m) p e =
    inl (fails_here calls k (min (suc n) (suc m)) (omega arith) e)

recv_loop-Received :
    (calls : Calls) (len : ℕ) (s : Bytes)
    → IsBounded calls
    → (fuel k total : ℕ) → total ≤ len
    → total ≤ length s
    → len - total < fuel
    → Received calls len s (recv_loop calls len fuel k total (take total s) (drop total s))
recv_loop-Received calls len s b zero k total h i f = absurd (omega arith)
recv_loop-Received calls len s b (suc fuel) k total h i f = elim (Bool-cases (ltb total len)) [
  | inr less ↦
      let e : total ≡ len = ground arith in
      rw (recv_loop-end calls len fuel k total _ _ less) (omega arith, rw e, rw e)
  | inl more ↦ elim (Option-cases (calls k (min (len - total) (length (drop total s))))) [
    | inl e ↦ rw (recv_loop-fail calls len fuel k total _ _ more e) (
      total,
      ground arith,
      refl,
      refl,
      starved total (ground arith) (blocked_here calls k _ _ (ground arith) e),
    )
    | inr (r, e) ↦
        rw
          (
            recv_loop-more calls len fuel k total _ _ more e,
            ← take-add total (suc r) s,
            ← drop-add total (suc r) s,
          )
          (recv_loop-Received calls len s b fuel (k + 1) (total + suc r) (in_request total r e)
            (in_stream total r e) (ground arith))
  ]
]
  where
    starved :
        (t : ℕ)
        → t < len
        → ¬ NeverFails calls ⊎ (length (drop t s) ≡ 0)
        → ¬ NeverFails calls ⊎ (length s < len)
    starved t p (inl x) = inl x
    starved t p (inr e) = inr (omega (arith, length-drop t s))

    in_request : (t r : ℕ) → calls k (min (len - t) (length (drop t s))) ≡ some r → t + suc r ≤ len
    in_request t r e = omega (arith, b k (min (len - t) (length (drop t s))) r e)

    in_stream :
        (t r : ℕ) → calls k (min (len - t) (length (drop t s))) ≡ some r → t + suc r ≤ length s
    in_stream t r e = omega (arith, b k (min (len - t) (length (drop t s))) r e, length-drop t s)

-- recv_full always ends within its rounds. Success means that the buffer holds exactly the next
-- `len` bytes of the stream and that nothing behind them was read; failure means that a call has
-- failed or the stream ended early.
pub recv_full-Received :
    (calls : Calls) (len : ℕ) (incoming : Bytes)
    → IsBounded calls
    → Received calls len incoming (recv_full calls len incoming)
unfolding recv_full
recv_full-Received calls len incoming b =
    recv_loop-Received calls len incoming b (suc len) 0 0 (omega arith) (omega arith) (omega arith)

pub take-append : (s t : Bytes) → take (length s) (s ++ t) ≡ s
take-append [] t = refl
take-append (c ∷ s) t = ap (◌∷◌ c) (take-append s t)

pub drop-append : (s t : Bytes) → drop (length s) (s ++ t) ≡ t
drop-append [] t = refl
drop-append (c ∷ s) t = drop-append s t

-- The peer's view of one transfer: the outcome of receiving, where it has succeeded.
Received-all :
    (calls : Calls) (s t : Bytes) (r : Outcome × Bytes × Bytes)
    → NeverFails calls
    → Received calls (length s) (s ++ t) r
    → r ≡ (done, s, t)
Received-all calls s t (done, got, rest) nf p = rw (p.1, p.2, take-append s t, drop-append s t)
Received-all calls s t (failed, got, rest) nf p = elim p.4 [
  | inl x ↦ absurd (x nf)
  | inr x ↦ absurd (omega (arith, length-append s t))
]
Received-all calls s t (stuck, got, rest) nf p = absurd p

pub Sent-all :
    (calls : Calls) (s : Bytes) (r : Outcome × Bytes)
    → NeverFails calls
    → Sent calls s r
    → r ≡ (done, s)
Sent-all calls s (done, wire) nf p = rw p
Sent-all calls s (failed, wire) nf p = absurd (p.3 nf)
Sent-all calls s (stuck, wire) nf p = absurd p

-- Whatever the two sides' calls make of the pieces, what send_full puts on the wire is what
-- recv_full of the same length reads off it, and the bytes sent later stay in the stream, as long
-- as no call fails.
pub recv_full-send_full :
    (sends recvs : Calls) (buf later : Bytes)
    → IsBounded sends
    → NeverFails sends
    → IsBounded recvs
    → NeverFails recvs
    → (send_full sends buf ≡ (done, buf))
      × (recv_full recvs (length buf) ((send_full sends buf).1 ++ later) ≡ (done, buf, later))
recv_full-send_full sends recvs buf later bs ns br nr =
    let sent : send_full sends buf ≡ (done, buf) =
      Sent-all sends buf _ ns (send_full-Sent sends buf bs) in
    (
      sent,
      rw sent (
          Received-all recvs buf later _ nr
            (recv_full-Received recvs (length buf) (buf ++ later) br)),
    )
