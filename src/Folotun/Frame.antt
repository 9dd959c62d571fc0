-- ===== src/Folotun/Frame.antt =====
-- main/folotun/frame.go: `EncodeFrame`, `WriteFrame` and `ReadFrame`.
pub mod RoundTrip
pub mod Canonical
use folo_xray_apple.Prelude.{
  ℕ, List, [], ◌∷◌, ◌++◌, not, ◌||◌, ltb, ◌==◌, if◌then◌else◌, false, length, Outcome, ok, err,
  panic, ◌>>=◌, ◌>>◌, fail_if, index, slice, Bytes, uint32, put_uint32,
}
use folo_xray_apple.Folotun.Packet.{
  Packet, FrameError, max_packet_size, inspect_packet, frame_magic, frame_version, frame_reserved,
  frame_length, frame_metadata,
}
use folo_xray_apple.Folotun.Stream.{Reader, read_full, Write, WriteEnd, write_all}

abbrev pub header_size : ℕ
header_size = 12

-- The twelve bytes that `EncodeFrame` fills in; the flags and the sequence stay zero.
abbrev pub frame_header : Packet → Bytes
frame_header k =
    0x46 ∷ 0x50 ∷ 1 ∷ k.family ∷ k.protocol ∷ 0 ∷ (put_uint32 (length k.payload) ++ 0 ∷ 0 ∷ [])

abbrev pub frame_bytes : Packet → Bytes
frame_bytes k = frame_header k ++ k.payload

unfoldable pub encode_frame : Bytes → Outcome FrameError Bytes
encode_frame payload = do packet ← inspect_packet payload; ok (frame_bytes packet)

-- `WriteFrame`: the error of the encoder, or what the stream took and how the writing ended.
unfoldable pub write_frame : List Write → Bytes → Outcome FrameError (Bytes × WriteEnd)
write_frame ws payload = do frame ← encode_frame payload; ok (write_all ws frame)

-- The checks of `ReadFrame` on a header, up to the length that it announces.
unfoldable pub parse_header : Bytes → Outcome FrameError ℕ
unfolding index slice uint32
parse_header header = do
  magic0 ← index header 0
  magic1 ← index header 1
  fail_if (not (magic0 == 0x46) || not (magic1 == 0x50)) frame_magic
  version ← index header 2
  fail_if (not (version == 1)) frame_version
  flags ← index header 5
  sequence0 ← index header 10
  sequence1 ← index header 11
  fail_if (not (flags == 0) || not (sequence0 == 0) || not (sequence1 == 0)) frame_reserved
  field ← slice header 6 10
  size ← uint32 field
  fail_if (size == 0 || ltb max_packet_size size) frame_length
  ok size

-- The checks of `ReadFrame` on the payload against the header.
unfoldable pub check_payload : Bytes → Bytes → Outcome FrameError Packet
unfolding index
check_payload header payload = do
  packet ← inspect_packet payload
  family ← index header 3
  protocol ← index header 4
  fail_if (not (packet.family == family) || not (packet.protocol == protocol)) frame_metadata
  ok packet

unfoldable pub read_frame : Reader → Outcome FrameError (Packet × Reader)
read_frame r = do
  (header, r1) ← read_full header_size false r
  size ← parse_header header
  (payload, r2) ← read_full size false r1
  packet ← check_payload header payload
  ok (packet, r2)
