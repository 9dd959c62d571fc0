-- ===== src/Folotun/Packet/Shape.antt =====
-- What `InspectPacket` of main/folotun/frame.go accepts, described by the fields of the IP header.
use folo_xray_apple.Prelude.{
  ◌<◌, ◌+◌, ◌*◌, ◌/◌, ◌%◌, ◌≤◌, ◌≡◌, ◌⊎◌, inl, inr, arith, length, ok, err, panic, index-ok,
  uint16_in-ok, ◌↔◌, ◌≢◌, ◌∙◌, ap, sym, Bytes, at, ltb, ◌==◌, ◌||◌, not, if◌then◌else◌,
}
use folo_xray_apple.Folotun.Packet.{
  Packet, FrameError, inspect_ipv4, inspect_ipv6, inspect_packet, max_packet_size,
}

-- A complete IPv4 packet: version 4, a header of at least 20 bytes that fits, and a total length
-- field that is the length of the payload.
pub record IsIpv4 (p : Bytes) : Type 0 where
  pub version : at p 0 / 16 ≡ 4
  pub header : 20 ≤ at p 0 % 16 * 4
  pub fits : at p 0 % 16 * 4 ≤ length p
  pub total : at p 2 * 256 + at p 3 ≡ length p
  pub bounded : length p ≤ max_packet_size

-- A complete IPv6 packet: version 6, the fixed header, and a payload length field that is the rest.
pub record IsIpv6 (p : Bytes) : Type 0 where
  pub version : at p 0 / 16 ≡ 6
  pub header : 40 ≤ length p
  pub total : at p 4 * 256 + at p 5 + 40 ≡ length p
  pub bounded : length p ≤ max_packet_size

abbrev pub ipv4_packet : Bytes → Packet
ipv4_packet p = record { family = 4; protocol = at p 9; payload = p }

abbrev pub ipv6_packet : Bytes → Packet
ipv6_packet p = record { family = 6; protocol = at p 6; payload = p }

-- The IPv4 branch reads in range once the length is checked.
inspect_ipv4-reads :
    (p : Bytes)
    → 20 ≤ length p
    → inspect_ipv4 p ≡ (
        if ltb (at p 0 % 16 * 4) 20 || ltb (length p) (at p 0 % 16 * 4)
        then err FrameError.ipv4_header_length
        else if not (at p 2 * 256 + at p 3 == length p)
        then err FrameError.ipv4_total_length
        else ok (ipv4_packet p))
unfolding inspect_ipv4
inspect_ipv4-reads p h = ground (
  arith,
  index-ok {E = FrameError} p 0 0,
  index-ok {E = FrameError} p 9 0,
  uint16_in-ok {E = FrameError} p 2 4,
)

inspect_ipv6-reads :
    (p : Bytes)
    → 40 ≤ length p
    → inspect_ipv6 p ≡ (
        if not (at p 4 * 256 + at p 5 + 40 == length p)
        then err FrameError.ipv6_total_length
        else ok (ipv6_packet p))
unfolding inspect_ipv6
inspect_ipv6-reads p h =
    ground (arith, index-ok {E = FrameError} p 6 0, uint16_in-ok {E = FrameError} p 4 6)

-- A payload as Go would index it: `payload[0]` is in range unless the payload is empty.
inspect_packet-reads :
    (p : Bytes)
    → 0 < length p
    → length p ≤ max_packet_size
    → inspect_packet p ≡ (
        if at p 0 / 16 == 4
        then inspect_ipv4 p
        else if at p 0 / 16 == 6
        then inspect_ipv6 p
        else err FrameError.unsupported_ip_version)
unfolding inspect_packet
inspect_packet-reads p n b = ground (arith, index-ok {E = FrameError} p 0 0)

inspect_packet-oversized :
    (p : Bytes)
    → (length p ≡ 0) ⊎ (max_packet_size < length p)
    → inspect_packet p ≡ err FrameError.packet_length
unfolding inspect_packet
inspect_packet-oversized p h = ground arith

inspect_ipv4-short : (p : Bytes) → length p < 20 → inspect_ipv4 p ≡ err FrameError.ipv4_short
unfolding inspect_ipv4
inspect_ipv4-short p h = ground arith

inspect_ipv6-short : (p : Bytes) → length p < 40 → inspect_ipv6 p ≡ err FrameError.ipv6_short
unfolding inspect_ipv6
inspect_ipv6-short p h = ground arith

pub inspect_packet-IsIpv4 : (p : Bytes) → IsIpv4 p → inspect_packet p ≡ ok (ipv4_packet p)
inspect_packet-IsIpv4 p v = ground (arith, inspect_packet-reads p, inspect_ipv4-reads p)

pub inspect_packet-IsIpv6 : (p : Bytes) → IsIpv6 p → inspect_packet p ≡ ok (ipv6_packet p)
inspect_packet-IsIpv6 p v = ground (arith, inspect_packet-reads p, inspect_ipv6-reads p)

-- What the inspection returns on success.
abbrev pub Accepted : Bytes → Packet → Type 0
Accepted p k = (IsIpv4 p × (k ≡ ipv4_packet p)) ⊎ (IsIpv6 p × (k ≡ ipv6_packet p))

inspect_packet-Accepted : (p : Bytes) (k : Packet) → inspect_packet p ≡ ok k → Accepted p k
inspect_packet-Accepted p k e = ground (
  arith,
  inspect_packet-oversized p,
  inspect_packet-reads p,
  inspect_ipv4-short p,
  inspect_ipv4-reads p,
  inspect_ipv6-short p,
  inspect_ipv6-reads p,
)

-- `InspectPacket` accepts a payload exactly when it is one complete IPv4 or IPv6 packet whose
-- length field is the length of the payload, and then returns its version, the protocol byte of
-- that version and the payload unchanged.
pub inspect_packet-ok_iff : (p : Bytes) (k : Packet) → (inspect_packet p ≡ ok k) ↔ Accepted p k
inspect_packet-ok_iff p k = (
  inspect_packet-Accepted p k,
  elim [
    | inl (v, e) ↦ inspect_packet-IsIpv4 p v ∙ ap ok (sym e)
    | inr (v, e) ↦ inspect_packet-IsIpv6 p v ∙ ap ok (sym e)
  ],
)

-- `InspectPacket` never indexes or slices out of range, whatever the bytes are.
pub inspect_packet-ne-panic : (p : Bytes) → inspect_packet p ≢ panic
inspect_packet-ne-panic p = ground (
  arith,
  inspect_packet-oversized p,
  inspect_packet-reads p,
  inspect_ipv4-short p,
  inspect_ipv4-reads p,
  inspect_ipv6-short p,
  inspect_ipv6-reads p,
)
