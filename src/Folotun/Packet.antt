-- ===== src/Folotun/Packet.antt =====
-- main/folotun/frame.go: `Packet`, the errors, and `InspectPacket`.
pub mod Shape
use folo_xray_apple.Prelude.{
  ℕ, ◌+◌, ◌*◌, ◌/◌, ◌%◌, not, ◌||◌, ltb, ◌==◌, if◌then◌else◌, length, Outcome, ok, err, ◌>>=◌, ◌>>◌,
  fail_if, index, Bytes, uint16_in,
}

pub record Packet : Type 0 where
  pub family : ℕ
  pub protocol : ℕ
  pub payload : Bytes

-- One constructor for each error that the file returns, in the order of the source.
pub data FrameError : Type 0 where
  packet_length ipv4_short ipv4_header_length ipv4_total_length : FrameError
  ipv6_short ipv6_total_length unsupported_ip_version : FrameError
  frame_magic frame_version frame_reserved frame_length frame_metadata : FrameError
  eof unexpected_eof stream_broken : FrameError

abbrev pub max_packet_size : ℕ
max_packet_size = 65535

unfoldable pub inspect_ipv4 : Bytes → Outcome FrameError Packet
inspect_ipv4 payload = do
  fail_if (ltb (length payload) 20) ipv4_short
  first ← index payload 0
  let header_size = first % 16 * 4
  fail_if (ltb header_size 20 || ltb (length payload) header_size) ipv4_header_length
  total_size ← uint16_in payload 2 4
  fail_if (not (total_size == length payload)) ipv4_total_length
  protocol ← index payload 9
  ok (record { family = 4; protocol = protocol; payload = payload })

unfoldable pub inspect_ipv6 : Bytes → Outcome FrameError Packet
inspect_ipv6 payload = do
  fail_if (ltb (length payload) 40) ipv6_short
  payload_size ← uint16_in payload 4 6
  fail_if (not (payload_size + 40 == length payload)) ipv6_total_length
  protocol ← index payload 6
  ok (record { family = 6; protocol = protocol; payload = payload })

-- `InspectPacket`; `payload[0] >> 4` is the quotient by 16.
unfoldable pub inspect_packet : Bytes → Outcome FrameError Packet
unfolding inspect_ipv4 inspect_ipv6
inspect_packet payload = do
  fail_if (length payload == 0 || ltb max_packet_size (length payload)) packet_length
  first ← index payload 0
  if first / 16 == 4
      then inspect_ipv4 payload
      else if first / 16 == 6
      then inspect_ipv6 payload
      else err unsupported_ip_version
