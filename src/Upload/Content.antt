-- ===== src/Upload/Content.antt =====
-- What the loops of handle_puts leave in the stored file, however recv and write cut the pieces.
use wind_cloud_v.Shared.{
  ℕ, zero, suc, ◌+◌, ◌-◌, ◌≤◌, ◌<◌, ◌≡◌, refl, ap, ◌⊎◌, inl, inr, true, false, [], ◌∷◌,
  take-append-drop, ◌++◌, append_assoc, none, some, arith, ltb, length, length-append, length-take,
  length-drop, take, drop, min, Bool-cases, Option-cases,
}
use mathlib.Core.Path.{subst}
use wind_cloud_v.Shared.Text.{Bytes}
use wind_cloud_v.Protocol.Stream.{
  Calls, IsBounded, NeverFails, Outcome, done, failed, stuck, write_file_full, send_full,
}
use wind_cloud_v.Protocol.Stream.Complete.{
  Sent, Sent-all, send_full-Sent, take-add, drop-add, take-append, drop-append, blocked_here,
}
use wind_cloud_v.Upload.{buffer_size}
use wind_cloud_v.Upload.Receive.{write_at, Sink, file_sink, map_sink, receive_loop, receive_content}

-- A sink takes a piece whole, or fails after a proper prefix of it.
abbrev pub IsSink : Sink → Type 0
IsSink sink =
    (k : ℕ) (piece : Bytes)
    → (sink k piece ≡ (done, piece))
      ⊎ ((n : ℕ) × (n < length piece) × (sink k piece ≡ (failed, take n piece)))

abbrev pub NeverRefuses : Sink → Type 0
NeverRefuses sink = (k : ℕ) (piece : Bytes) → sink k piece ≡ (done, piece)

write_at-append :
    (a piece rest : Bytes) {o : ℕ}
    → length a ≡ o
    → write_at o piece (a ++ rest) ≡ a ++ (piece ++ drop (length piece) rest)
unfolding write_at
write_at-append a piece rest e =
    rw (← e, take-append a rest, drop-add (length a) (length piece) (a ++ rest), drop-append a rest)
      refl

-- The old file with n bytes of the stream behind its first `local` bytes.
unfoldable pub filled : ℕ → Bytes → Bytes → ℕ → Bytes
filled local old s n = take local old ++ (take n s ++ drop (local + n) old)

filled_zero : (local : ℕ) (old s : Bytes) → filled local old s 0 ≡ old
unfolding filled
filled_zero local old s =
    let e : local + 0 ≡ local = omega arith in rw e (take-append-drop local old)

module _ (local : ℕ) (old s : Bytes) (h : local ≤ length old) where
  length-front : (n : ℕ) → n ≤ length s → length (take local old ++ take n s) ≡ local + n
  length-front n i =
      omega
        (arith, length-append (take local old) (take n s), length-take local old, length-take n s)

  write_at-filled :
      (n m : ℕ)
      → n ≤ length s
      → m ≤ length (drop n s)
      → write_at (local + n) (take m (drop n s)) (filled local old s n) ≡ filled local old s (n + m)
  unfolding filled
  write_at-filled n m i j =
      let size : length (take m (drop n s)) ≡ m = omega (arith, length-take m (drop n s)) in
      let place : local + (n + m) ≡ local + n + m = omega arith in
      rw
        (
          ← append_assoc (take local old) (take n s) (drop (local + n) old),
          write_at-append (take local old ++ take n s) (take m (drop n s)) (drop (local + n) old)
              (length-front n i),
          size,
          ← drop-add (local + n) m old,
          place,
          take-add n m s,
          append_assoc (take local old) (take n s) (take m (drop n s) ++ drop (local + n + m) old),
          append_assoc (take n s) (take m (drop n s)) (drop (local + n + m) old),
        )
        refl

-- What receiving `remaining` bytes behind the first `local` ones may come to: the outcome, the bytes
-- counted, and the file.
abbrev pub Filled : Sink → Calls → ℕ → ℕ → Bytes → Bytes → Outcome × ℕ × Bytes → Type 0
Filled sink recvs local remaining old s (done, n, content) =
    (n ≤ length s)
    × (content ≡ filled local old s n)
    × ((n ≡ remaining) ⊎ ((n < remaining) × (¬ NeverFails recvs ⊎ (length s < remaining))))
Filled sink recvs local remaining old s (failed, n, content) =
    (m : ℕ) × (m < remaining)
    × (m ≤ length s)
    × (content ≡ filled local old s m)
    × ¬ NeverRefuses sink
Filled sink recvs local remaining old s (stuck, n, content) = ⊥

module _ (sink : Sink) (recvs : Calls) (local remaining fuel k count : ℕ)
    (content incoming : Bytes) where
  receive_loop-end :
      ltb count remaining ≡ false
      → receive_loop sink recvs local remaining (suc fuel) k count content incoming
        ≡ (done, count, content)
  unfolding receive_loop
  receive_loop-end h = ground arith

  receive_loop-closed :
      ltb count remaining ≡ true
      → recvs k (min (min buffer_size (remaining - count)) (length incoming)) ≡ none
      → receive_loop sink recvs local remaining (suc fuel) k count content incoming
        ≡ (done, count, content)
  unfolding receive_loop
  receive_loop-closed h e = rw (receive_loop, h, e) refl

  receive_loop-stored :
      {r : ℕ}
      → ltb count remaining ≡ true
      → recvs k (min (min buffer_size (remaining - count)) (length incoming)) ≡ some r
      → sink k (take (suc r) incoming) ≡ (done, take (suc r) incoming)
      → receive_loop sink recvs local remaining (suc fuel) k count content incoming
        ≡ receive_loop sink recvs local remaining fuel
            (k + 1)
            (count + suc r)
            (write_at (local + count) (take (suc r) incoming) content)
            (drop (suc r) incoming)
  unfolding receive_loop
  receive_loop-stored h e d = rw (receive_loop, h, e, d, d) refl

  receive_loop-refused :
      {r : ℕ} {piece : Bytes}
      → ltb count remaining ≡ true
      → recvs k (min (min buffer_size (remaining - count)) (length incoming)) ≡ some r
      → sink k (take (suc r) incoming) ≡ (failed, piece)
      → receive_loop sink recvs local remaining (suc fuel) k count content incoming
        ≡ (failed, count, write_at (local + count) piece content)
  unfolding receive_loop
  receive_loop-refused h e d = rw (receive_loop, h, e, d, d) refl

differ : (r : Outcome × Bytes) (a b : Bytes) → r ≡ (done, a) → ¬ (r ≡ (failed, b))
differ r a b e e' = cc

pub take-take : (m n : ℕ) (s : Bytes) → m ≤ n → take m (take n s) ≡ take m s
take-take zero n s h = refl
take-take (suc m) zero s h = absurd (omega arith)
take-take (suc m) (suc n) [] h = refl
take-take (suc m) (suc n) (c ∷ s) h = ap (◌∷◌ c) (take-take m n s (omega arith))

module _ (sink : Sink) (recvs : Calls) (local remaining : ℕ) (old s : Bytes) (sinks : IsSink sink)
    (bounded : IsBounded recvs) (h : local ≤ length old) where
  starved :
      (n : ℕ)
      → n < remaining
      → ¬ NeverFails recvs ⊎ (length (drop n s) ≡ 0)
      → ¬ NeverFails recvs ⊎ (length s < remaining)
  starved n i (inl x) = inl x
  starved n i (inr e) = inr (omega (arith, length-drop n s))

  refused :
      (k n m r : ℕ)
      → n ≤ length s
      → suc r ≤ length (drop n s)
      → n + suc r ≤ remaining
      → m < length (take (suc r) (drop n s))
      → sink k (take (suc r) (drop n s)) ≡ (failed, take m (take (suc r) (drop n s)))
      → Filled sink recvs local remaining old s (
        failed,
        n,
        write_at (local + n) (take m (take (suc r) (drop n s))) (filled local old s n),
      )
  refused k n m r j i total less d =
      let size : length (take (suc r) (drop n s)) ≡ suc r =
        omega (arith, length-take (suc r) (drop n s)) in
      (
        n + m,
        omega arith,
        omega (arith, length-drop n s),
        rw (take-take m (suc r) (drop n s) (omega arith))
            (write_at-filled local old s h n m j (omega arith)),
        λ all. differ _ _ _ (all k (take (suc r) (drop n s))) d,
      )

  receive_loop-Filled :
      (fuel k n : ℕ)
      → n ≤ remaining
      → n ≤ length s
      → remaining - n < fuel
      → Filled sink recvs local remaining old s
          (receive_loop sink recvs local remaining fuel k n (filled local old s n) (drop n s))
  receive_loop-Filled zero k n i j f = absurd (omega arith)
  receive_loop-Filled (suc fuel) k n i j f = elim (Bool-cases (ltb n remaining)) [
    | inr less ↦
        rw (receive_loop-end sink recvs local remaining fuel k n _ _ less)
          (j, refl, inl (ground arith))
    | inl more ↦
        elim (Option-cases (recvs k (min (min buffer_size (remaining - n)) (length (drop n s))))) [
          | inl e ↦ rw (receive_loop-closed sink recvs local remaining fuel k n _ _ more e) (
            j,
            refl,
            inr (
              ground arith,
              starved n (ground arith) (blocked_here recvs k _ _ (ground arith) e),
            ),
          )
          | inr (r, e) ↦
              let bound =
                bounded k (min (min buffer_size (remaining - n)) (length (drop n s))) r e in
              let inside : suc r ≤ length (drop n s) = omega arith in
              elim (sinks k (take (suc r) (drop n s))) [
                | inl d ↦
                    rw
                      (
                        receive_loop-stored sink recvs local remaining fuel k n _ _ more e d,
                        write_at-filled local old s h n (suc r) j inside,
                        ← drop-add n (suc r) s,
                      )
                      (receive_loop-Filled fuel (k + 1) (n + suc r) (omega arith)
                        (omega (arith, length-drop n s)) (omega arith))
                | inr (m, less, d) ↦
                    rw (receive_loop-refused sink recvs local remaining fuel k n _ _ more e d)
                      (refused k n m r j inside (omega arith) less d)
              ]
        ]
  ]

-- Receiving always ends within its rounds, and the file then holds its first `local` bytes, the
-- bytes that came, in order, and the old bytes behind them. All that is to come has come, or a
-- recv has failed or the stream has ended; and a refused write is reported.
pub receive_content-Filled :
    (sink : Sink) (recvs : Calls) (local remaining : ℕ) (old s : Bytes)
    → IsSink sink
    → IsBounded recvs
    → local ≤ length old
    → Filled sink recvs local remaining old s (receive_content sink recvs local remaining old s)
unfolding receive_content
receive_content-Filled sink recvs local remaining old s sinks bounded h =
    subst
      (λ c.
        Filled sink recvs local remaining old s
          (receive_loop sink recvs local remaining (suc remaining) 0 0 c s))
      (filled_zero local old s)
      (receive_loop-Filled sink recvs local remaining old s sinks bounded h (suc remaining) 0 0
        (omega arith) (omega arith) (omega arith))

write_loop-result :
    (buf : Bytes) (calls : Calls) (r : Outcome × Bytes)
    → Sent calls buf r
    → (r ≡ (done, buf)) ⊎ ((n : ℕ) × (n < length buf) × (r ≡ (failed, take n buf)))
write_loop-result buf calls (done, wire) p = inl (rw p refl)
write_loop-result buf calls (failed, wire) p = inr (p.0, p.1, rw p.2 refl)
write_loop-result buf calls (stuck, wire) p = absurd p

pub file_sink-IsSink :
    (writes : ℕ → Calls) → ((k : ℕ) → IsBounded (writes k)) → IsSink (file_sink writes)
unfolding file_sink write_file_full send_full
file_sink-IsSink writes bounded k piece =
    write_loop-result piece (writes k) (send_full (writes k) piece)
      (send_full-Sent (writes k) piece (bounded k))

pub map_sink-IsSink : IsSink map_sink
unfolding map_sink
map_sink-IsSink k piece = inl refl

pub file_sink-NeverRefuses :
    (writes : ℕ → Calls)
    → ((k : ℕ) → IsBounded (writes k))
    → ((k : ℕ) → NeverFails (writes k))
    → NeverRefuses (file_sink writes)
unfolding file_sink write_file_full send_full
file_sink-NeverRefuses writes bounded succeeds k piece =
    Sent-all (writes k) piece (send_full (writes k) piece) (succeeds k)
      (send_full-Sent (writes k) piece (bounded k))

pub map_sink-NeverRefuses : NeverRefuses map_sink
unfolding map_sink
map_sink-NeverRefuses k piece = refl
