-- ===== src/Protocol/Stream.antt =====
-- send_full and recv_full of src/common/protocol.c, and write_file_full of src/server/file/file_transfer.c,
-- over a descriptor whose calls may move fewer bytes than asked.
pub mod Complete
use wind_cloud_v.Shared.{
  ℕ, zero, suc, ◌+◌, ◌-◌, ◌≤◌, ◌<◌, ◌≡◌, refl, sym, ap, ◌∙◌, ◌⊎◌, inl, inr, Bool, true, false, List,
  [], ◌∷◌, ◌++◌, append-nil, append_assoc, Option, none, some, arith, ltb, leb, if◌then◌else◌,
  length, length-append, length-take, length-drop, take, drop, take-append-drop, Bool-cases,
  Option-cases, ◌≢◌, min, ◌==◌,
}
use wind_cloud_v.Shared.Text.{Bytes, take_all}
use native.Mathlib.Nat.{zero-add, suc-add}

-- What the k-th call returns for a request of n bytes: `none` is an error or a closed peer (a
-- result of at most 0), `some r` means that r + 1 bytes went through.
abbrev pub Calls : Type 0
Calls = ℕ → ℕ → Option ℕ

-- What POSIX promises of send, recv and write: no call moves more than it was asked to.
abbrev pub IsBounded : Calls → Type 0
IsBounded calls = (k n r : ℕ) → calls k n ≡ some r → r < n

pub data Outcome : Type 0 where
  done failed stuck : Outcome

-- The loop of send_full: `total` bytes of `buf` have gone out, and make up `wire`.
send_loop : Calls → Bytes → ℕ → ℕ → ℕ → Bytes → Outcome × Bytes
send_loop calls buf zero k total wire = (stuck, wire)
send_loop calls buf (suc fuel) k total wire = elim (ltb total (length buf)) [
  | false ↦ (done, wire)
  | true ↦ elim (calls k (length buf - total)) [
    | none ↦ (failed, wire)
    | some r ↦
        send_loop calls buf fuel (k + 1) (total + suc r) (wire ++ take (suc r) (drop total buf))
  ]
]

-- Each call moves a byte at least, so one round more than there are bytes is enough.
unfoldable pub send_full : Calls → Bytes → Outcome × Bytes
unfolding send_loop
send_full calls buf = send_loop calls buf (suc (length buf)) 0 0 []

-- write_file_full is the same loop, over `write` in place of `send`.
unfoldable pub write_file_full : Calls → Bytes → Outcome × Bytes
unfolding send_loop
write_file_full calls buf = send_loop calls buf (suc (length buf)) 0 0 []

-- A call of recv hands over bytes that the peer has sent: `incoming` are those not yet read.
recv_loop : Calls → ℕ → ℕ → ℕ → ℕ → Bytes → Bytes → Outcome × Bytes × Bytes
recv_loop calls len zero k total got incoming = (stuck, got, incoming)
recv_loop calls len (suc fuel) k total got incoming = elim (ltb total len) [
  | false ↦ (done, got, incoming)
  | true ↦ elim (calls k (min (len - total) (length incoming))) [
    | none ↦ (failed, got, incoming)
    | some r ↦
        recv_loop calls len fuel (k + 1) (total + suc r) (got ++ take (suc r) incoming)
          (drop (suc r) incoming)
  ]
]

-- The outcome, the bytes in the buffer, and what is left in the stream.
unfoldable pub recv_full : Calls → ℕ → Bytes → Outcome × Bytes × Bytes
unfolding recv_loop
recv_full calls len incoming = recv_loop calls len (suc len) 0 0 [] incoming

-- No call fails that has something to move.
abbrev pub NeverFails : Calls → Type 0
NeverFails calls = (k n : ℕ) → calls k (suc n) ≢ none
