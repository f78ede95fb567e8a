-- ===== src/Upload/Receive.antt =====
-- src/server/file/file_transfer.c: the loops of handle_puts that take what the client sends into the
-- stored file.
use wind_cloud_v.Shared.{
  ℕ, zero, suc, ◌+◌, ◌-◌, true, false, [], ◌++◌, none, some, min, ltb, length, take, drop,
  replicate,
}
use wind_cloud_v.Shared.Text.{Bytes}
use wind_cloud_v.Protocol.Stream.{Calls, Outcome, done, failed, stuck, write_file_full}
use wind_cloud_v.Vfs.{Db}
use wind_cloud_v.Vfs.Entities.{write_name}
use wind_cloud_v.Upload.{buffer_size}

-- `ftruncate` to n bytes: cut, or extended by zeros.
unfoldable pub resize : ℕ → Bytes → Bytes
resize n content = take n content ++ replicate (n - length content) 0

-- A write of `piece` at the position `offset` of the file.
unfoldable pub write_at : ℕ → Bytes → Bytes → Bytes
write_at offset piece content =
    take offset content ++ (piece ++ drop (offset + length piece) content)

-- Where a received piece goes: through `write_file_full`, or straight into the mapped file.
abbrev pub Sink : Type 0
Sink = ℕ → Bytes → Outcome × Bytes

unfoldable pub file_sink : (ℕ → Calls) → Sink
unfolding write_file_full
file_sink writes k piece = write_file_full (writes k) piece

unfoldable pub map_sink : Sink
map_sink k piece = (done, piece)

-- The loop that receives: a recv of at most one buffer, then its bytes into the file behind those
-- that are there. `done` is the end of the loop, with everything received or after a failed recv.
unfoldable pub receive_loop : Sink → Calls → ℕ → ℕ → ℕ → ℕ → ℕ → Bytes → Bytes → Outcome × ℕ × Bytes
unfolding write_at
receive_loop sink recvs local remaining zero k count content incoming = (stuck, count, content)
receive_loop sink recvs local remaining (suc fuel) k count content incoming =
    elim (ltb count remaining) [
      | false ↦ (done, count, content)
      | true ↦ elim (recvs k (min (min buffer_size (remaining - count)) (length incoming))) [
        | none ↦ (done, count, content)
        | some r ↦
            let s = sink k (take (suc r) incoming) in
            elim s.0 [
              | done ↦
                  receive_loop sink recvs local remaining fuel (k + 1) (count + suc r)
                    (write_at (local + count) s.1 content) (drop (suc r) incoming)
              | failed ↦ (failed, count, write_at (local + count) s.1 content)
              | stuck ↦ (stuck, count, write_at (local + count) s.1 content)
            ]
      ]
    ]

-- Each recv brings a byte at least, so one round more than there are bytes to come is enough.
unfoldable pub receive_content : Sink → Calls → ℕ → ℕ → Bytes → Bytes → Outcome × ℕ × Bytes
unfolding receive_loop
receive_content sink recvs local remaining content incoming =
    receive_loop sink recvs local remaining (suc remaining) 0 0 content incoming

abbrev pub content_of : Bytes → Db → Bytes
content_of hash db = elim (db.store hash) [ none ↦ [] | some content ↦ content ]

unfoldable pub put_content : Bytes → Bytes → Db → Db
unfolding write_name
put_content hash content db = record db { store = write_name hash content db.store }
