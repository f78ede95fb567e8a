-- ===== src/Protocol/Laws.antt =====
-- The text of a packet, and what is checked on its arrival.
use wind_cloud_v.Shared.{
  ◌⊎◌, inl, inr, ℕ, zero, suc, ◌-◌, ◌≤◌, ◌<◌, ◌≡◌, refl, ap, true, false, [], ◌∷◌, ◌++◌, Option,
  none, some, arith, length, length-append, length-take, length-replicate, take, replicate, set,
}
use wind_cloud_v.Shared.Int.{ℤ, pos, negsuc, pos_part, ltb_ℤ}
use wind_cloud_v.Shared.Text.{Bytes, truncated, length-truncated, has_byte}
use wind_cloud_v.Protocol.{
  CmdType, CommandPacket, c_string, fill, terminate, init_command_packet, recv_command_packet,
  cmd_data_len, cmd_code,
}

-- No NUL stands in a C string.
abbrev pub IsCString : Bytes → Type 0
IsCString s = has_byte 0 s ≡ false

c_string-append-zeros : (s : Bytes) (n : ℕ) → IsCString s → c_string (s ++ replicate n 0) ≡ s
unfolding c_string has_byte
c_string-append-zeros [] zero h = refl
c_string-append-zeros [] (suc n) h = refl
c_string-append-zeros (zero ∷ s) n h = cc
c_string-append-zeros (suc c ∷ s) n h = ap (◌∷◌ (suc c)) (c_string-append-zeros s n (ground arith))

take-IsCString : (n : ℕ) (s : Bytes) → IsCString s → IsCString (take n s)
unfolding has_byte
take-IsCString zero s h = refl
take-IsCString (suc n) [] h = refl
take-IsCString (suc n) (c ∷ s) h = ground (arith, take-IsCString n s)

pub c_string-fill : (n : ℕ) (s : Bytes) → IsCString s → c_string (fill n s) ≡ truncated n s
unfolding fill truncated
c_string-fill n s h = c_string-append-zeros (take (n - 1) s) _ (take-IsCString (n - 1) s h)

length-fill : (n : ℕ) (s : Bytes) → length (fill n s) ≡ n
unfolding fill
length-fill n s = omega (
  arith,
  length-append {0} (take (n - 1) s),
  length-take (n - 1) s,
  length-replicate {A = ℕ} (n - length (take (n - 1) s)) 0,
)

-- The array is cut at the terminator at the latest.
c_string-set : (i : ℕ) (s : Bytes) → length (c_string (set s i 0)) ≤ i
unfolding c_string
c_string-set i [] = omega arith
c_string-set zero (c ∷ s) = omega arith
c_string-set (suc i) (zero ∷ s) = omega arith
c_string-set (suc i) (suc c ∷ s) = omega (arith, c_string-set i s)

set-zero_replicate : (k i : ℕ) → set (replicate k 0) i 0 ≡ replicate {A = ℕ} k 0
set-zero_replicate zero i = refl
set-zero_replicate (suc k) zero = refl
set-zero_replicate (suc k) (suc i) = ap (◌∷◌ 0) (set-zero_replicate k i)

set-zero_padding :
    (s : Bytes) (k i : ℕ) → length s ≤ i → set (s ++ replicate k 0) i 0 ≡ s ++ replicate k 0
set-zero_padding [] k i h = set-zero_replicate k i
set-zero_padding (c ∷ s) k zero h = absurd (omega arith)
set-zero_padding (c ∷ s) k (suc i) h = ap (◌∷◌ c) (set-zero_padding s k i (omega arith))

terminate-fill : (n : ℕ) (s : Bytes) → terminate n (fill n s) ≡ fill n s
unfolding terminate fill
terminate-fill n s =
    set-zero_padding (take (n - 1) s) _ (n - 1) (omega (arith, length-take (n - 1) s))

-- A command packet arrives as it was made: its command, the text cut to 255 bytes, and the length
-- of that text, which the receiver's check accepts.
pub recv_command_packet-init_command_packet :
    (type : CmdType) (s : Bytes)
    → IsCString s
    → (p : CommandPacket) × (recv_command_packet (some (init_command_packet type (some s)))
        ≡ some p)
      × (p.cmd_type ≡ pos (cmd_code type))
      × (c_string p.text ≡ truncated cmd_data_len s)
      × (p.data_len ≡ pos (length (truncated cmd_data_len s)))
unfolding recv_command_packet init_command_packet
recv_command_packet-init_command_packet type s h = (
  init_command_packet type (some s),
  ground (
    arith,
    terminate-fill cmd_data_len s,
    c_string-fill cmd_data_len s h,
    length-truncated cmd_data_len s,
  ),
  refl,
  c_string-fill cmd_data_len s h,
  ap (λ t. pos (length t)) (c_string-fill cmd_data_len s h),
)

length-terminate : (n : ℕ) (s : Bytes) → length (c_string (terminate n s)) ≤ n - 1
unfolding terminate
length-terminate n s = c_string-set (n - 1) s

pos_cases : (a : ℤ) → (a ≡ pos (pos_part a)) ⊎ (ltb_ℤ a (pos 0) ≡ true)
pos_cases (pos n) = inl refl
pos_cases (negsuc n) = inr (ground arith)

-- Whatever a peer sends, an accepted command packet holds a text that ends inside the array of 256
-- bytes, and a length field from 0 to 255.
pub recv_command_packet_bounds :
    (received : Option CommandPacket) {p : CommandPacket}
    → recv_command_packet received ≡ some p
    → (length (c_string p.text) < cmd_data_len)
      × (p.data_len ≡ pos (pos_part p.data_len))
      × (pos_part p.data_len < cmd_data_len)
unfolding recv_command_packet
recv_command_packet_bounds none e = cc
recv_command_packet_bounds (some q) {p} e =
    ground (arith, length-terminate cmd_data_len q.text, pos_cases p.data_len)
