-- ===== src/Wrapper/Netstack/Fifo.antt =====
-- The order in which `readPacket` (apple-wrapper/netstack.go) gives packets away.
use mathlib.Core.List.{append_assoc}
use folo_xray_apple.Prelude.{
  ℕ, ◌≤◌, ◌<◌, ◌+◌, Bool, true, false, List, [], ◌∷◌, ◌++◌, Option, none, some, length, drop, take,
  map, ap, sym, take-length-append, length-append, Outcome, ok, Bytes, ◌≡◌, refl, inl, inr, arith,
  Bool-cases, ltb, ◌∙◌, ◌>>=◌, ltb→lt, ◌==◌,
}
use folo_xray_apple.Wrapper.Netstack.{
  Netstack, NetstackError, packet_too_large, Parts, parts_length, deliver, read_link, open_read,
  read_packet, ReadEnd, pending_list, empty_buffer, stopped, refuse,
}
use folo_xray_apple.Wrapper.Netstack.Buffers.{contents, copy_parts-fits, ltb-false}

-- The packets that a stack still has: the one kept back, and those that are queued.
abbrev pub waiting : Netstack → List Parts
waiting n = pending_list n.pending ++ n.link

-- All packets of a stack, in the order in which they came to its queue.
abbrev pub in_order : Netstack → List Parts
in_order n = n.released ++ waiting n

-- What a delivery of `packet` leaves: the packet in front of the buffer, or the length that it needs.
pub deliver-fits :
    (dst : Bytes) (packet : Parts) (n : Netstack)
    → parts_length packet ≤ length dst
    → deliver dst packet n
      ≡ ok (record {
        size = parts_length packet;
        error = none;
        buffer = contents packet ++ drop (parts_length packet) dst;
        next = record n { pending = none; released = n.released ++ packet ∷ [] };
      })
unfolding deliver
deliver-fits dst packet n fits =
    let none_before : 0 + parts_length packet ≡ parts_length packet = omega arith in
    rw
      (
        ltb-false (length dst) (parts_length packet) fits,
        copy_parts-fits [] dst packet fits,
        none_before,
      )
      refl

pub deliver-over :
    (dst : Bytes) (packet : Parts) (n : Netstack)
    → length dst < parts_length packet
    → deliver dst packet n
      ≡ ok (record {
        size = parts_length packet;
        error = some packet_too_large;
        buffer = dst;
        next = record n { pending = some packet };
      })
unfolding deliver
deliver-over dst packet n over = ground arith

-- What the caller has in its buffer after a read without an error.
abbrev pub given_by : ReadEnd → List Bytes
given_by r = elim r.error [ none ↦ take r.size r.buffer ∷ [] | some e ↦ [] ]

-- A run of reads with buffers of any sizes: the packets that the caller got, and the stack after it.
unfoldable pub read_all : List Bytes → Netstack → Outcome NetstackError (List Bytes × Netstack)
read_all [] n = ok ([], n)
read_all (dst ∷ dsts) n = do
  r ← read_packet dst n
  (given, m) ← read_all dsts r.next
  ok (given_by r ++ given, m)

length-contents : (packet : Parts) → length (contents packet) ≡ parts_length packet
unfolding contents parts_length
length-contents [] = refl
length-contents (part ∷ parts) =
    let all = length-append part (contents parts) in let rest = length-contents parts in omega arith

-- What a read keeps: the order of all packets, and, of those that were there, each was given to the
-- caller whole or is still there.
abbrev Keeps : List Parts → List Parts → ReadEnd → Type 0
Keeps all there r =
    (in_order r.next ≡ all) × (given_by r ++ map contents (waiting r.next) ≡ map contents there)

front-contents :
    (dst : Bytes) (packet : Parts)
    → take (parts_length packet) (contents packet ++ drop (parts_length packet) dst)
      ≡ contents packet
front-contents dst packet =
    ap (λ k. take k (contents packet ++ drop (parts_length packet) dst))
      (sym (length-contents packet))
    ∙ take-length-append (contents packet) (drop (parts_length packet) dst)

deliver-order :
    (dst : Bytes) (packet : Parts) (n : Netstack)
    → (r : ReadEnd) × (deliver dst packet n ≡ ok r)
      × Keeps (n.released ++ (packet ∷ n.link)) (packet ∷ n.link) r
deliver-order dst packet n = elim (Bool-cases (ltb (length dst) (parts_length packet))) [
  | inl over ↦
      (_, deliver-over dst packet n (ltb→lt (length dst) (parts_length packet) over), (refl, refl))
  | inr fits ↦ (
    _,
    deliver-fits dst packet n (ground arith),
    (
      append_assoc n.released (packet ∷ []) n.link,
      ap (λ c. c ∷ map contents n.link) (front-contents dst packet),
    ),
  )
]

open_read-order :
    (dst : Bytes) (closed : Bool) (pending : Option Parts) (link released : List Parts)
    (injected : List (ℕ × Bytes))
    → let n : Netstack = record {
      closed = closed;
      pending = pending;
      link = link;
      released = released;
      injected = injected;
    } in
      (r : ReadEnd) × (open_read dst n ≡ ok r) × Keeps (in_order n) (waiting n) r
unfolding open_read read_link
open_read-order dst closed (some packet) link released injected = deliver-order dst packet _
open_read-order dst closed none [] released injected = (_, refl, (refl, refl))
open_read-order dst closed none (packet ∷ link) released injected = deliver-order dst packet _

refuse-order :
    (e : NetstackError) (dst : Bytes) (n : Netstack)
    → (r : ReadEnd) × (refuse e dst n ≡ ok r) × Keeps (in_order n) (waiting n) r
refuse-order e dst n = (_, refl, (refl, refl))

read_packet-order :
    (dst : Bytes) (n : Netstack)
    → (r : ReadEnd) × (read_packet dst n ≡ ok r) × Keeps (in_order n) (waiting n) r
unfolding read_packet
read_packet-order dst n = elim (Bool-cases (length dst == 0)) [
  | inl e ↦ rw e (refuse-order empty_buffer dst n)
  | inr e ↦ elim (Bool-cases n.closed) [
    | inl c ↦ rw (e, c) (refuse-order stopped dst (record n { closed = true }))
    | inr c ↦ rw (e, c) (open_read-order dst false n.pending n.link n.released n.injected)
  ]
]

-- Whatever buffers the tunnel reads into, no read panics, and no packet is lost, cut, doubled or
-- overtaken: what the successful reads gave to the caller, then the packet kept back and those still
-- queued, are the contents of the packets that were there before, in the same order; and the packets
-- released, kept back and queued are together the same in the same order.
pub read_all-order :
    (dsts : List Bytes) (n : Netstack)
    → (given : List Bytes) × (m : Netstack) × (read_all dsts n ≡ ok (given, m))
      × (given ++ map contents (waiting m) ≡ map contents (waiting n))
      × (in_order m ≡ in_order n)
unfolding read_all
read_all-order [] n = ([], n, refl, refl, refl)
read_all-order (dst ∷ dsts) n =
    let (r, e, (same, whole)) = read_packet-order dst n in
    let (given, m, f, left, kept) = read_all-order dsts r.next in
    (
      given_by r ++ given,
      m,
      rw (e, f) refl,
      append_assoc (given_by r) given (map contents (waiting m))
          ∙ (ap (given_by r ++◌) left ∙ whole),
      kept ∙ same,
    )
