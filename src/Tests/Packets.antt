-- ===== src/Tests/Packets.antt =====
-- apple-wrapper/netstack.go at concrete packets.
use folo_xray_apple.Prelude.{
  index, ℕ, ◌≡◌, ◌⊎◌, refl, arith, List, map, false, [], ◌∷◌, ◌++◌, none, some, drop, ok, Bytes,
}
use folo_xray_apple.Wrapper.Netstack.{
  Netstack, Parts, parts_length, read_packet, write_netstack_packet, inject_packet, packet_protocol,
  write_packet,
}
use folo_xray_apple.Wrapper.Netstack.Buffers.{contents}
use folo_xray_apple.Wrapper.Netstack.Fifo.{waiting, in_order, read_all, read_all-order}
use folo_xray_apple.Wrapper.Netstack.Front.{read_packet-front}
use folo_xray_apple.Wrapper.Netstack.Injection.{Accepted, Refused, write_packet-answers}

abbrev two_parts : Parts
two_parts = (1 ∷ 2 ∷ []) ∷ (3 ∷ []) ∷ []

abbrev one_part : Parts
one_part = (4 ∷ []) ∷ []

abbrev queued : Netstack
queued = record {
  closed = false;
  pending = none;
  link = two_parts ∷ one_part ∷ [];
  released = [];
  injected = [];
}

abbrev small : Bytes
small = 0 ∷ 0 ∷ []

abbrev large : Bytes
large = 9 ∷ 9 ∷ 9 ∷ 9 ∷ []

read_all-order_example :
    (given : List Bytes) × (m : Netstack) × (read_all (small ∷ large ∷ []) queued ≡ ok (given, m))
    × (given ++ map contents (waiting m) ≡ map contents (waiting queued))
    × (in_order m ≡ in_order queued)
read_all-order_example = read_all-order (small ∷ large ∷ []) queued

read_packet-front_example :
    (m : Netstack) × (read_packet large queued
      ≡ ok (record {
        size = parts_length two_parts;
        error = none;
        buffer = contents two_parts ++ drop (parts_length two_parts) large;
        next = m;
      }))
    × (waiting m ≡ one_part ∷ [])
    × (m.closed ≡ false)
unfolding parts_length
read_packet-front_example =
    read_packet-front large queued two_parts (one_part ∷ []) refl (omega arith) refl (omega arith)

-- A packet without the room of an IPv4 header is refused.
short_test : write_packet (some (0x45 ∷ [])) (some queued) ≡ ok (1, some queued)
unfolding write_packet write_netstack_packet inject_packet packet_protocol index
short_test = refl

write_packet-answers_example :
    ((protocol : ℕ) × Accepted (0x45 ∷ []) queued protocol)
    ⊎ ((status : ℕ) × Refused (0x45 ∷ []) queued status)
write_packet-answers_example = write_packet-answers (0x45 ∷ []) queued
