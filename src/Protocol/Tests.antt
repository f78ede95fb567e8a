-- ===== src/Protocol/Tests.antt =====
-- Packets and streams at work: calls that move one byte at a time.
use wind_cloud_v.Shared.{◌<◌, ◌≡◌, refl, ◌++◌, some, length}
use wind_cloud_v.Shared.Int.{pos, pos_part}
use wind_cloud_v.Shared.Text.{codes, has_byte, truncated}
use wind_cloud_v.Protocol.{
  CommandPacket, cd, cmd_code, cmd_data_len, c_string, init_command_packet, recv_command_packet,
  terminate,
}
use wind_cloud_v.Protocol.Laws.{
  IsCString, recv_command_packet-init_command_packet, recv_command_packet_bounds,
}
use wind_cloud_v.Samples.{one_byte, one_byte-IsBounded, one_byte-NeverFails}
use wind_cloud_v.Protocol.Stream.{done, send_full, recv_full}
use wind_cloud_v.Protocol.Stream.Complete.{
  Sent, Received, send_full-Sent, recv_full-Received, recv_full-send_full,
}

send_full-Sent_example : Sent one_byte (codes "abc") (send_full one_byte (codes "abc"))
send_full-Sent_example = send_full-Sent one_byte (codes "abc") one_byte-IsBounded

recv_full-Received_example : Received one_byte 2 (codes "abc") (recv_full one_byte 2 (codes "abc"))
recv_full-Received_example = recv_full-Received one_byte 2 (codes "abc") one_byte-IsBounded

recv_full-send_full_example :
    (send_full one_byte (codes "abc") ≡ (done, codes "abc"))
    × (recv_full one_byte (length (codes "abc")) ((send_full one_byte (codes "abc")).1 ++ codes "d")
        ≡ (done, codes "abc", codes "d"))
recv_full-send_full_example =
    recv_full-send_full one_byte one_byte (codes "abc") (codes "d") one_byte-IsBounded
      one_byte-NeverFails one_byte-IsBounded one_byte-NeverFails

docs-IsCString : IsCString (codes "docs")
unfolding has_byte
docs-IsCString = refl

recv_command_packet-init_command_packet_example :
    (p : CommandPacket) × (recv_command_packet (some (init_command_packet cd (some (codes "docs"))))
      ≡ some p)
    × (p.cmd_type ≡ pos (cmd_code cd))
    × (c_string p.text ≡ truncated cmd_data_len (codes "docs"))
    × (p.data_len ≡ pos (length (truncated cmd_data_len (codes "docs"))))
recv_command_packet-init_command_packet_example =
    recv_command_packet-init_command_packet cd (codes "docs") docs-IsCString

-- A packet whose text has no end.
abbrev packet : CommandPacket
packet = record { cmd_type = pos 2; data_len = pos 3; text = codes "abcd" }

accepted : recv_command_packet (some packet) ≡ some packet
unfolding recv_command_packet terminate
accepted = refl

recv_command_packet_bounds_example :
    (length (c_string packet.text) < cmd_data_len)
    × (packet.data_len ≡ pos (pos_part packet.data_len))
    × (pos_part packet.data_len < cmd_data_len)
recv_command_packet_bounds_example = recv_command_packet_bounds (some packet) accepted
