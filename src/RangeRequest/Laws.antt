-- ===== src/RangeRequest/Laws.antt =====
-- Fields and separators of a range request.
use wind_cloud_v.Shared.{
  ℕ, ◌<◌, ◌≡◌, ◌≢◌, refl, sym, ap, ◌∙◌, false, [], ◌∷◌, ◌++◌, some, arith, length, append-nil,
  length-append,
}
use wind_cloud_v.Shared.Int.{ℤ, pos, negsuc, ltb_ℤ}
use wind_cloud_v.Shared.Decimal.{
  print_ℤ, print_ℕ, print_ℕ-ne-nil, atoll, atoll-print_ℤ, has_byte-print_ℤ,
}
use wind_cloud_v.Shared.Text.{Bytes, is_empty, has_byte, snprintf, snprintf-eq-some}
use wind_cloud_v.Protocol.{cmd_data_len, file_name_len}
use wind_cloud_v.RangeRequest.{
  bar, RangeRequest, build_gets_range_ticket_request, parse_gets_range_ticket_request, skip,
  break_at, strtok_r,
}

break_at-field :
    (c : ℕ) (s rest : Bytes) → has_byte c s ≡ false → break_at c (s ++ c ∷ rest) ≡ (s, rest)
unfolding break_at has_byte
break_at-field c [] rest h = ground arith
break_at-field c (x ∷ s) rest h = ground (arith, break_at-field c s rest)

break_at-last : (c : ℕ) (s : Bytes) → has_byte c s ≡ false → break_at c s ≡ (s, [])
unfolding break_at has_byte
break_at-last c [] h = refl
break_at-last c (x ∷ s) h = ground (arith, break_at-last c s)

-- A field of the request: not empty, and with no separator in it.
unfoldable pub IsField : Bytes → Type 0
IsField s = (is_empty s ≡ false) × (has_byte bar s ≡ false)

strtok_r-field : (s rest : Bytes) → IsField s → strtok_r bar (s ++ bar ∷ rest) ≡ some (s, rest)
unfolding strtok_r skip has_byte IsField
strtok_r-field [] rest f = absurd (ground arith)
strtok_r-field (x ∷ s) rest f = ground (arith, f, break_at-field bar (x ∷ s) rest f.1)

strtok_r-last : (s : Bytes) → IsField s → strtok_r bar s ≡ some (s, [])
unfolding strtok_r skip has_byte IsField
strtok_r-last [] f = absurd (ground arith)
strtok_r-last (x ∷ s) f = ground (arith, f, break_at-last bar (x ∷ s) f.1)

not-is_empty : (s : Bytes) → s ≢ [] → is_empty s ≡ false
not-is_empty [] h = absurd (h refl)
not-is_empty (x ∷ s) h = refl

is_empty-print_ℤ : (a : ℤ) → is_empty (print_ℤ a) ≡ false
unfolding print_ℤ
is_empty-print_ℤ (pos n) = not-is_empty (print_ℕ n) (print_ℕ-ne-nil n)
is_empty-print_ℤ (negsuc n) = refl

print_ℤ-IsField : (a : ℤ) → IsField (print_ℤ a)
unfolding IsField
print_ℤ-IsField a = (is_empty-print_ℤ a, has_byte-print_ℤ bar a refl (λ e. omega arith))

read_number : (a : ℤ) → atoll (print_ℤ a) ≡ a
read_number a = ap atoll (sym (append-nil (print_ℤ a))) ∙ atoll-print_ℤ a [] tt

fits : (size : ℕ) (s : Bytes) → length s < size → snprintf size s ≡ some s
unfolding snprintf
fits size s h = ground arith

-- What the server accepts: fields that fit its buffers and a range that starts at a byte and does
-- not end before it.
pub record IsRequest (r : RangeRequest) : Type 0 where
  pub name_field : IsField r.file_name
  pub ip_field : IsField r.source_ip
  pub port_field : IsField r.source_port
  pub ip_fits : length r.source_ip < 64
  pub port_fits : length r.source_port < 16
  pub starts : ltb_ℤ r.range_start (pos 0) ≡ false
  pub ends : ltb_ℤ r.range_end r.range_start ≡ false

-- The server reads back exactly the request that the client has written, when the request fitted
-- the command's text, none of the three texts in it is empty or holds the separator, the address
-- fits the server's buffers, and the range starts at 0 or later and does not end before its start.
pub parse-build_gets_range_ticket_request :
    (r : RangeRequest) (request : Bytes)
    → IsRequest r
    → build_gets_range_ticket_request r ≡ some request
    → parse_gets_range_ticket_request request ≡ some r
unfolding parse_gets_range_ticket_request build_gets_range_ticket_request
parse-build_gets_range_ticket_request r request v e =
    let tail_port = r.source_ip ++ bar ∷ r.source_port in
    let tail_end = print_ℤ r.range_end ++ bar ∷ tail_port in
    let tail_start = print_ℤ r.range_start ++ bar ∷ tail_end in
    let whole = r.file_name ++ bar ∷ tail_start in
    let (same, room) = snprintf-eq-some cmd_data_len whole e in
    rw
      (
        same,
        fits cmd_data_len whole room,
        strtok_r-field r.file_name tail_start v.name_field,
        fits file_name_len r.file_name
            (omega (arith, length-append r.file_name (bar ∷ tail_start), room)),
        strtok_r-field (print_ℤ r.range_start) tail_end (print_ℤ-IsField r.range_start),
        strtok_r-field (print_ℤ r.range_end) tail_port (print_ℤ-IsField r.range_end),
        strtok_r-field r.source_ip r.source_port v.ip_field,
        fits 64 r.source_ip v.ip_fits,
        strtok_r-last r.source_port v.port_field,
        fits 16 r.source_port v.port_fits,
        read_number r.range_start,
        read_number r.range_end,
        v.starts,
        v.ends,
      )
      refl
