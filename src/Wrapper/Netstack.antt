-- ===== src/Wrapper/Netstack.antt =====
-- apple-wrapper/netstack.go: the packets that the tunnel injects and reads, and the two calls of
-- apple-wrapper/folo_apple.go around them. The network stack is not code of the repository: a packet of
-- its queue is the list of the slices of AsSlices, and `link` lists the packets that successive calls
-- of link.Read return, nil after the last. `released` and `injected` record, oldest first, the packets
-- of DecRef in `readPacket` and `close` and the arguments of InjectInbound. A buffer of the caller is
-- the list of its bytes, as long as its capacity. The locks are held for the whole of each operation,
-- so an operation is one step.
pub mod Buffers
pub mod Fifo
pub mod Front
pub mod Injection
use folo_xray_apple.Prelude.{
  ℕ, ◌+◌, ◌*◌, ◌/◌, Bool, true, false, not, ◌||◌, List, [], ◌∷◌, ◌++◌, Option, none, some, ltb,
  ◌==◌, if◌then◌else◌, length, take, drop, Outcome, ok, err, panic, ◌>>=◌, index, slice, Bytes,
}
use folo_xray_apple.Wrapper.Engine.{status_ok, status_invalid_argument, status_invalid_state}

abbrev pub max_packet : ℕ
max_packet = 64 * 1024

abbrev pub status_resource_limit : ℕ
status_resource_limit = 9

abbrev pub status_would_block : ℕ
status_would_block = 10

pub data NetstackError : Type 0 where
  packet_too_large malformed stopped would_block empty_buffer : NetstackError

abbrev pub Parts : Type 0
Parts = List Bytes

-- The fields of `netstackRuntime` that packets pass through.
pub record Netstack : Type 0 where
  pub closed : Bool
  pub pending : Option Parts
  pub link : List Parts
  pub released : List Parts
  pub injected : List (ℕ × Bytes)

abbrev pub ipv4_protocol : ℕ
ipv4_protocol = 0x0800

abbrev pub ipv6_protocol : ℕ
ipv6_protocol = 0x86dd

-- The network protocol that `injectPacket` reads off the first byte.
unfoldable pub packet_protocol : Bytes → Outcome NetstackError ℕ
unfolding index
packet_protocol packet = do
  first ← index packet 0
  if first / 16 == 4
      then (if ltb (length packet) 20 then err malformed else ok ipv4_protocol)
      else if first / 16 == 6
      then (if ltb (length packet) 40 then err malformed else ok ipv6_protocol)
      else err malformed

-- `injectPacket`; an error leaves the stack as it is.
unfoldable pub inject_packet : Bytes → Netstack → Outcome NetstackError Netstack
unfolding packet_protocol
inject_packet packet n =
    if length packet == 0 || ltb max_packet (length packet)
    then err packet_too_large
    else if n.closed
    then err stopped
    else (do
      protocol ← packet_protocol packet
      ok (record n { injected = n.injected ++ (protocol, packet) ∷ [] }))

-- The sum of the lengths of the slices.
unfoldable pub parts_length : Parts → ℕ
parts_length [] = 0
parts_length (part ∷ parts) = length part + parts_length parts

-- `offset += copy(dst[offset:], part)` for each slice.
unfoldable pub copy_parts : Bytes → ℕ → Parts → Outcome NetstackError (Bytes × ℕ)
unfolding slice
copy_parts dst offset [] = ok (dst, offset)
copy_parts dst offset (part ∷ parts) = do
  room ← slice dst offset (length dst)
  let count = if ltb (length room) (length part) then length room else length part
  copy_parts (take offset dst ++ (take count part ++ drop count room)) (offset + count) parts

-- What a read leaves: the length and the error that it returns, the buffer and the stack.
pub record ReadEnd : Type 0 where
  pub size : ℕ
  pub error : Option NetstackError
  pub buffer : Bytes
  pub next : Netstack

-- `readPacket` once it has the packet.
unfoldable pub deliver : Bytes → Parts → Netstack → Outcome NetstackError ReadEnd
deliver dst packet n =
    if ltb (length dst) (parts_length packet)
    then ok (record {
      size = parts_length packet;
      error = some packet_too_large;
      buffer = dst;
      next = record n { pending = some packet };
    })
    else (do
      (filled, offset) ← copy_parts dst 0 packet
      ok (record {
        size = offset;
        error = none;
        buffer = filled;
        next = record n { pending = none; released = n.released ++ packet ∷ [] };
      }))

abbrev pub refuse : NetstackError → Bytes → Netstack → Outcome NetstackError ReadEnd
refuse e dst n = ok (record { size = 0; error = some e; buffer = dst; next = n })

-- `n.link.Read()`
unfoldable pub read_link : Bytes → List Parts → Netstack → Outcome NetstackError ReadEnd
read_link dst [] n = refuse would_block dst n
read_link dst (packet ∷ packets) n = deliver dst packet (record n { link = packets })

-- `readPacket` of an open stack, with a buffer.
unfoldable pub open_read : Bytes → Netstack → Outcome NetstackError ReadEnd
unfolding read_link
open_read dst n = elim n.pending [
  | none ↦ read_link dst n.link n
  | some packet ↦ deliver dst packet n
]

-- `readPacket`
unfoldable pub read_packet : Bytes → Netstack → Outcome NetstackError ReadEnd
unfolding open_read
read_packet dst n =
    if length dst == 0
    then refuse empty_buffer dst n
    else if n.closed
    then refuse stopped dst n
    else open_read dst n

abbrev pub pending_list : Option Parts → List Parts
pending_list none = []
pending_list (some packet) = packet ∷ []

-- `close`, on the packets; the work that runs is waited for.
unfoldable pub close : Netstack → Netstack
close n = record n {
  closed = true;
  pending = none;
  released = n.released ++ pending_list n.pending;
}

abbrev pub error_status : NetstackError → ℕ
error_status packet_too_large = status_resource_limit
error_status stopped = status_invalid_state
error_status malformed = status_invalid_argument
error_status would_block = status_invalid_argument
error_status empty_buffer = status_invalid_argument

-- `writeNetstackPacket` over a running stack, or over none.
unfoldable pub write_netstack_packet :
    Bytes → Option Netstack → Outcome NetstackError (ℕ × Option Netstack)
write_netstack_packet packet none = ok (status_invalid_state, none)
write_netstack_packet packet (some n) = elim (inject_packet packet n) [
  | ok next ↦ ok (status_ok, some next)
  | err e ↦ ok (error_status e, some n)
  | panic ↦ panic
]

-- `FoloXrayNetstackWritePacket`: `none` is the nil pointer.
unfoldable pub write_packet :
    Option Bytes → Option Netstack → Outcome NetstackError (ℕ × Option Netstack)
unfolding write_netstack_packet
write_packet none stack = ok (status_invalid_argument, stack)
write_packet (some packet) stack =
    if length packet == 0 || ltb max_packet (length packet)
    then ok (status_invalid_argument, stack)
    else write_netstack_packet packet stack

-- The length and the status of `readNetstackPacket`.
abbrev pub read_status : ReadEnd → ℕ × ℕ
read_status r = elim r.error [
  | none ↦ (r.size, status_ok)
  | some e ↦ elim e [
    | would_block ↦ (0, status_would_block)
    | packet_too_large ↦ (r.size, status_resource_limit)
    | stopped ↦ (0, status_invalid_state)
    | malformed ↦ (0, status_invalid_argument)
    | empty_buffer ↦ (0, status_invalid_argument)
  ]
]

-- `readNetstackPacket` over a running stack, or over none: the length and the status, and what it
-- leaves of the buffer and the stack.
unfoldable pub read_netstack_packet :
    Bytes → Option Netstack → Outcome NetstackError ((ℕ × ℕ) × Bytes × Option Netstack)
read_netstack_packet dst none = ok ((0, status_invalid_state), dst, none)
read_netstack_packet dst (some n) = do
  r ← read_packet dst n
  ok (read_status r, r.buffer, some r.next)

-- `FoloXrayNetstackReadPacket`: without a place for the length or without a buffer nothing is read;
-- a length is stored in all other cases.
unfoldable pub read_packet_into :
    Bool
    → Option Bytes
    → Option Netstack
    → Outcome NetstackError ((Option ℕ × ℕ) × Option Bytes × Option Netstack)
read_packet_into has_length none stack = ok ((none, status_invalid_argument), none, stack)
read_packet_into has_length (some dst) stack =
    if not has_length || length dst == 0 || ltb max_packet (length dst)
    then ok ((none, status_invalid_argument), some dst, stack)
    else (do
      (answer, filled, next) ← read_netstack_packet dst stack
      ok ((some answer.0, answer.1), some filled, next))
