-- ===== src/Tests/Framing.antt =====
-- upstream/xray-core/main/folotun at concrete packets.
use folo_xray_apple.Prelude.{
  Bool, ◌≢◌, ℕ, zero, suc, ◌≤◌, ◌≡◌, ◌≢◌, refl, arith, [], ◌∷◌, ◌++◌, Option, none, length, ok, err,
  panic, text, Bytes, bytes_eq, index, slice, uint16_in, split, trim_space, is_empty,
}
use folo_xray_apple.Hostname.{IsHostname, bad_shape, all_ldh}
use folo_xray_apple.Folotun.Packet.{Packet, inspect_packet, unexpected_eof, ipv4_total_length}
use folo_xray_apple.Folotun.Packet.Shape.{Accepted, inspect_packet-ok_iff, inspect_packet-ne-panic}
use folo_xray_apple.Folotun.Stream.{got, Reader, read_full, wrote, done, write_all}
use folo_xray_apple.Folotun.Stream.Chunks.{contents}
use folo_xray_apple.Folotun.Stream.Delivery.{answers, write_all-answers}
use folo_xray_apple.Folotun.Frame.{
  frame_bytes, encode_frame, write_frame, read_frame, parse_header, check_payload,
}
use folo_xray_apple.Folotun.Frame.RoundTrip.{read_frame-write_frame}
use folo_xray_apple.Folotun.Frame.Canonical.{read_frame-canonical}
use folo_xray_apple.Folotun.Endpoint.{
  validate_endpoint_address, any_forbidden, check_labels, invalid_dns_name,
  max_endpoint_address_length,
}
use folo_xray_apple.Folotun.Endpoint.Dial.{Destination}
use folo_xray_apple.Folotun.Endpoint.Grammar.{validate_endpoint_address-IsHostname_iff}

abbrev no_zeros : ℕ → Bytes
no_zeros zero = []
no_zeros (suc n) = 0 ∷ no_zeros n

-- The smallest UDP packet over IPv4 with no options.
abbrev pub ipv4 : Bytes
ipv4 = 0x45 ∷ 0 ∷ 0 ∷ 20 ∷ 0 ∷ 0 ∷ 0 ∷ 0 ∷ 64 ∷ 17 ∷ no_zeros 10

abbrev ipv6 : Bytes
ipv6 = 0x60 ∷ 0 ∷ 0 ∷ 0 ∷ 0 ∷ 0 ∷ 58 ∷ 64 ∷ no_zeros 32

abbrev ipv4_kept : Packet
ipv4_kept = record { family = 4; protocol = 17; payload = ipv4 }

inspect_ipv4_test : inspect_packet ipv4 ≡ ok ipv4_kept
unfolding inspect_packet index slice uint16_in
inspect_ipv4_test = refl

inspect_ipv6_test : inspect_packet ipv6 ≡ ok (record { family = 6; protocol = 58; payload = ipv6 })
unfolding inspect_packet index slice uint16_in
inspect_ipv6_test = refl

inspect_truncated : inspect_packet (0x45 ∷ 0 ∷ 0 ∷ 21 ∷ no_zeros 16) ≡ err ipv4_total_length
unfolding inspect_packet index slice uint16_in
inspect_truncated = refl

abbrev frame : Bytes
frame = frame_bytes ipv4_kept

-- The writer takes 7 bytes, then 25.
partial_write : write_frame (wrote 7 ∷ wrote 25 ∷ []) ipv4 ≡ ok (frame, done)
unfolding write_frame encode_frame inspect_packet index slice uint16_in write_all
partial_write = refl

-- The reader gets one byte, then the rest and the first byte of what follows.
abbrev cut : Reader
cut =
    got (0x46 ∷ [])
    ∷ got []
    ∷ got (0x50 ∷ 1 ∷ 4 ∷ 17 ∷ 0 ∷ 0 ∷ 0 ∷ 0 ∷ 20 ∷ 0 ∷ 0 ∷ (ipv4 ++ 7 ∷ []))
    ∷ []

cut_test : read_frame cut ≡ ok (ipv4_kept, got (7 ∷ []) ∷ [])
unfolding read_frame read_full parse_header check_payload inspect_packet index slice uint16_in
    is_empty
cut_test = refl

truncated_frame : read_frame (got (0x46 ∷ 0x50 ∷ []) ∷ []) ≡ err unexpected_eof
unfolding read_frame read_full is_empty
truncated_frame = refl

read_frame-write_frame_example :
    (k : Packet) × (r' : Reader) × (inspect_packet ipv4 ≡ ok k)
    × (read_frame cut ≡ ok (k, r'))
    × (contents r' ≡ 7 ∷ [])
    × (k.payload ≡ ipv4)
read_frame-write_frame_example =
    read_frame-write_frame (wrote 7 ∷ wrote 25 ∷ []) ipv4 (7 ∷ []) cut partial_write refl

read_frame-canonical_example : (encode_frame ipv4 ≡ ok frame) × (contents cut ≡ frame ++ 7 ∷ [])
read_frame-canonical_example =
    read_frame-canonical cut (got (7 ∷ []) ∷ []) ipv4_kept (omega arith) cut_test

inspect_packet-ok_iff_example :
    (inspect_packet ipv4 ≡ ok ipv4_kept → Accepted ipv4 ipv4_kept)
    × (Accepted ipv4 ipv4_kept → inspect_packet ipv4 ≡ ok ipv4_kept)
inspect_packet-ok_iff_example = inspect_packet-ok_iff ipv4 ipv4_kept

inspect_packet-ne-panic_example : inspect_packet (0x60 ∷ 0 ∷ []) ≢ panic
inspect_packet-ne-panic_example = inspect_packet-ne-panic (0x60 ∷ 0 ∷ [])

write_all-answers_example : write_all (answers (λ n. n) 20 20) ipv4 ≡ (ipv4, done)
write_all-answers_example =
    write_all-answers (λ n. n) (λ n h. (h, omega arith)) 20 ipv4 (omega arith)

-- The addresses of transport_test.go, with a net.ParseIP that knows no literal.
abbrev no_ip : Bytes → Option Bytes
no_ip s = none

accepts_name : validate_endpoint_address no_ip (text "edge.example.com") ≡ ok tt
unfolding validate_endpoint_address any_forbidden check_labels bad_shape all_ldh split trim_space
    bytes_eq is_empty
accepts_name = refl

rejects_hyphen : validate_endpoint_address no_ip (text "-edge.example.com") ≡ err invalid_dns_name
unfolding validate_endpoint_address any_forbidden check_labels bad_shape all_ldh split trim_space
    bytes_eq is_empty
rejects_hyphen = refl

validate_endpoint_address-IsHostname_iff_example :
    (validate_endpoint_address no_ip (text "edge.example.com") ≡ ok tt
      → (length (text "edge.example.com") ≤ max_endpoint_address_length)
        × IsHostname (text "edge.example.com"))
    × ((length (text "edge.example.com") ≤ max_endpoint_address_length)
          × IsHostname (text "edge.example.com")
        → validate_endpoint_address no_ip (text "edge.example.com") ≡ ok tt)
validate_endpoint_address-IsHostname_iff_example =
    validate_endpoint_address-IsHostname_iff no_ip (text "edge.example.com") refl

-- An address and a port as the whole answer of a dial.
abbrev echo_dial : Bool → Destination Bytes → Destination Bytes
echo_dial running dest = dest
