-- ===== src/Multipart/Merge.antt =====
-- The copy of one part's file into the merged file.
use wind_cloud_v.Shared.{
  ℕ, zero, suc, ◌+◌, ◌<◌, ◌≡◌, refl, ap, ◌∙◌, ◌⊎◌, inl, inr, true, [], ◌∷◌, ◌++◌, none, some, arith,
  length, length-drop, take, drop, min, take-append-drop, Bool-cases, Option-cases,
}
use wind_cloud_v.Shared.Text.{Bytes}
use wind_cloud_v.Protocol.Stream.{
  IsBounded, NeverFails, Outcome, done, failed, stuck, write_file_full,
}
use wind_cloud_v.Upload.Receive.{file_sink}
use wind_cloud_v.Upload.Content.{file_sink-IsSink, file_sink-NeverRefuses}
use wind_cloud_v.Multipart.{MergeDisk, merge_buffer_size, copy_part, copied}

-- No call moves more than it was asked to.
pub record IsBoundedDisk (disk : MergeDisk) : Type 0 where
  pub reads : (i : ℕ) → IsBounded (disk.reads i)
  pub writes : (i k : ℕ) → IsBounded (disk.writes i k)

-- Every call succeeds.
pub record NeverFailsDisk (disk : MergeDisk) : Type 0 where
  pub creates : disk.creates ≡ true
  pub reads : (i : ℕ) → NeverFails (disk.reads i)
  pub ends : (i : ℕ) → disk.ends i ≡ true
  pub writes : (i k : ℕ) → NeverFails (disk.writes i k)

copied-none : (r : Outcome × Bytes) (s : Bytes) → copied r ≡ none → copied (r.0, s) ≡ none
copied-none (done, t) s e = absurd (ground (arith, e))
copied-none (failed, t) s e = refl
copied-none (stuck, t) s e = refl

module _ (disk : MergeDisk) (bounded : IsBoundedDisk disk) (i : ℕ) where
  written :
      (k : ℕ) (piece : Bytes)
      → (write_file_full (disk.writes i k) piece ≡ (done, piece))
        ⊎ ((n : ℕ) × (n < length piece)
            × (write_file_full (disk.writes i k) piece ≡ (failed, take n piece)))
  unfolding file_sink
  written k piece = file_sink-IsSink (disk.writes i) (bounded.writes i) k piece

  refused :
      (k : ℕ) (piece w : Bytes)
      → write_file_full (disk.writes i k) piece ≡ (failed, w)
      → ¬ NeverFailsDisk disk
  unfolding file_sink
  refused k piece w e works =
      let p = file_sink-NeverRefuses (disk.writes i) (bounded.writes i) (works.writes i) k piece in
      absurd (ground (arith, e, p))

  copy_part-more :
      (fuel k c : ℕ) (s : Bytes) (r : ℕ)
      → disk.reads i k (min merge_buffer_size (length (c ∷ s))) ≡ some r
      → write_file_full (disk.writes i k) (take (suc r) (c ∷ s)) ≡ (done, take (suc r) (c ∷ s))
      → let rest = copy_part disk i fuel (k + 1) (drop r s) in
        copy_part disk i (suc fuel) k (c ∷ s) ≡ (rest.0, take (suc r) (c ∷ s) ++ rest.1)
  unfolding copy_part
  copy_part-more fuel k c s r y w =
      let rest = copy_part disk i fuel (k + 1) (drop r s) in
      let opened : copy_part disk i (suc fuel) k (c ∷ s)
          ≡ after (write_file_full (disk.writes i k) (take (suc r) (c ∷ s))) rest =
        rw (copy_part, y) refl in
      opened ∙ ap (λ x. after x rest) w
    where
      after : Outcome × Bytes → Outcome × Bytes → Outcome × Bytes
      after w rest = elim w.0 [
        | done ↦ (rest.0, w.1 ++ rest.1)
        | failed ↦ (failed, w.1)
        | stuck ↦ (stuck, w.1)
      ]

  -- On enough fuel a copy takes everything, or some call has failed.
  pub copy_part-all :
      (fuel k : ℕ) (s : Bytes)
      → length s < fuel
      → (copy_part disk i fuel k s ≡ (done, s))
        ⊎ ((copied (copy_part disk i fuel k s) ≡ none) × ¬ NeverFailsDisk disk)
  unfolding copy_part
  copy_part-all zero k s h = absurd (omega arith)
  copy_part-all (suc fuel) k [] h = elim (Bool-cases (disk.ends i)) [
    | inl y ↦ inl (rw y refl)
    | inr y ↦ inr (rw y refl, λ works. ground (arith, y, works.ends i))
  ]
  copy_part-all (suc fuel) k (c ∷ s) h =
      elim (Option-cases (disk.reads i k (min merge_buffer_size (length (c ∷ s))))) [
        | inl y ↦ inr (rw (copy_part, y) refl, λ works. works.reads i k _ (at_least y))
        | inr (r, y) ↦ elim (written k (take (suc r) (c ∷ s))) [
          | inr (n, less, w) ↦ inr (
            rw (copy_part, y, w) refl,
            refused k (take (suc r) (c ∷ s)) (take n (take (suc r) (c ∷ s))) w,
          )
          | inl w ↦ elim (copy_part-all fuel (k + 1) (drop r s) (omega (arith, length-drop r s))) [
            | inl q ↦ inl (
                copy_part-more fuel k c s r y w
                ∙ rw q (ap (λ t. (done, c ∷ t)) (take-append-drop r s)))
            | inr (q, broke) ↦ inr (
              ap copied (copy_part-more fuel k c s r y w)
                  ∙ copied-none (copy_part disk i fuel (k + 1) (drop r s)) _ q,
              broke,
            )
          ]
        ]
      ]
    where
      at_least :
          disk.reads i k (min merge_buffer_size (suc (length s))) ≡ none
          → disk.reads i k (suc (min 4095 (length s))) ≡ none
      at_least e = ground (arith, e)
