-- ===== src/Wrapper/Netstack/Front.antt =====
-- The packet that a read of apple-wrapper/netstack.go gives away or keeps back.
use folo_xray_apple.Prelude.{
  ℕ, ◌≤◌, ◌<◌, true, false, List, [], ◌∷◌, ◌++◌, Option, none, some, length, drop, Outcome, ok,
  Bytes, ◌≡◌, refl, arith, ltb, ap, ◌==◌,
}
use folo_xray_apple.Wrapper.Engine.{status_ok}
use folo_xray_apple.Wrapper.Netstack.{
  read_packet_into, read_netstack_packet, max_packet, status_resource_limit, Netstack,
  NetstackError, packet_too_large, Parts, parts_length, deliver, read_link, open_read, read_packet,
  ReadEnd,
}
use folo_xray_apple.Wrapper.Netstack.Buffers.{contents}
use folo_xray_apple.Wrapper.Netstack.Fifo.{waiting, deliver-fits, deliver-over}

-- A read that finds `packet` in front and gives it away.
Delivered : Bytes → Parts → List Parts → Outcome NetstackError ReadEnd → Type 0
Delivered dst packet rest end =
    (m : Netstack) × (end
      ≡ ok (record {
        size = parts_length packet;
        error = none;
        buffer = contents packet ++ drop (parts_length packet) dst;
        next = m;
      }))
    × (waiting m ≡ rest)
    × (m.closed ≡ false)

deliver-Delivered :
    (dst : Bytes) (found packet : Parts) (n : Netstack) (rest : List Parts)
    → found ≡ packet
    → n.link ≡ rest
    → parts_length packet ≤ length dst
    → n.closed ≡ false
    → Delivered dst packet rest (deliver dst found n)
unfolding Delivered
deliver-Delivered dst found packet n rest e f fits opened = rw (e) (
  record n { pending = none; released = n.released ++ packet ∷ [] },
  deliver-fits dst packet n fits,
  f,
  opened,
)

open_read-Delivered :
    (dst : Bytes) (pending : Option Parts) (link released : List Parts)
    (injected : List (ℕ × Bytes)) (packet : Parts) (rest : List Parts)
    → let n : Netstack = record {
      closed = false;
      pending = pending;
      link = link;
      released = released;
      injected = injected;
    } in
      waiting n ≡ packet ∷ rest
      → parts_length packet ≤ length dst
      → Delivered dst packet rest (open_read dst n)
unfolding open_read read_link
open_read-Delivered dst (some found) link released injected packet rest first fits =
    let e : found ≡ packet = cc in
    let f : link ≡ rest = cc in
    deliver-Delivered dst found packet
      (record {
        closed = false;
        pending = some found;
        link = link;
        released = released;
        injected = injected;
      })
      rest e f fits refl
open_read-Delivered dst none [] released injected packet rest first fits = cc
open_read-Delivered dst none (found ∷ link) released injected packet rest first fits =
    let e : found ≡ packet = cc in
    let f : link ≡ rest = cc in
    deliver-Delivered dst found packet
      (record {
        closed = false;
        pending = none;
        link = link;
        released = released;
        injected = injected;
      })
      rest e f fits refl

-- On an open stack the next packet, if the buffer holds it, is copied to the front of the buffer, all
-- of its slices in order, and the rest of the buffer stays.
pub read_packet-front :
    (dst : Bytes) (n : Netstack) (packet : Parts) (rest : List Parts)
    → n.closed ≡ false
    → 0 < length dst
    → waiting n ≡ packet ∷ rest
    → parts_length packet ≤ length dst
    → (m : Netstack) × (read_packet dst n
        ≡ ok (record {
          size = parts_length packet;
          error = none;
          buffer = contents packet ++ drop (parts_length packet) dst;
          next = m;
        }))
      × (waiting m ≡ rest)
      × (m.closed ≡ false)
unfolding read_packet Delivered
read_packet-front dst n packet rest opened room first fits =
    let e : (length dst == 0) ≡ false = ground arith in
    rw (e, opened)
      (open_read-Delivered dst n.pending n.link n.released n.injected packet rest first fits)

-- A read that finds `packet` in front and keeps it back.
KeptBack : Bytes → Parts → List Parts → Outcome NetstackError ReadEnd → Type 0
KeptBack dst packet rest end =
    (m : Netstack) × (end
      ≡ ok (record {
        size = parts_length packet;
        error = some packet_too_large;
        buffer = dst;
        next = m;
      }))
    × (waiting m ≡ packet ∷ rest)
    × (m.closed ≡ false)

deliver-KeptBack :
    (dst : Bytes) (found packet : Parts) (n : Netstack) (rest : List Parts)
    → found ≡ packet
    → n.link ≡ rest
    → length dst < parts_length packet
    → n.closed ≡ false
    → KeptBack dst packet rest (deliver dst found n)
unfolding KeptBack
deliver-KeptBack dst found packet n rest e f over opened =
    rw (e) (
      record n { pending = some packet },
      deliver-over dst packet n over,
      ap (◌∷◌ packet) f,
      opened,
    )

open_read-KeptBack :
    (dst : Bytes) (pending : Option Parts) (link released : List Parts)
    (injected : List (ℕ × Bytes)) (packet : Parts) (rest : List Parts)
    → let n : Netstack = record {
      closed = false;
      pending = pending;
      link = link;
      released = released;
      injected = injected;
    } in
      waiting n ≡ packet ∷ rest
      → length dst < parts_length packet
      → KeptBack dst packet rest (open_read dst n)
unfolding open_read read_link
open_read-KeptBack dst (some found) link released injected packet rest first over =
    let e : found ≡ packet = cc in
    let f : link ≡ rest = cc in
    deliver-KeptBack dst found packet
      (record {
        closed = false;
        pending = some found;
        link = link;
        released = released;
        injected = injected;
      })
      rest e f over refl
open_read-KeptBack dst none [] released injected packet rest first over = cc
open_read-KeptBack dst none (found ∷ link) released injected packet rest first over =
    let e : found ≡ packet = cc in
    let f : link ≡ rest = cc in
    deliver-KeptBack dst found packet
      (record {
        closed = false;
        pending = none;
        link = link;
        released = released;
        injected = injected;
      })
      rest e f over refl

read_packet-over :
    (dst : Bytes) (n : Netstack) (packet : Parts) (rest : List Parts)
    → n.closed ≡ false
    → 0 < length dst
    → waiting n ≡ packet ∷ rest
    → length dst < parts_length packet
    → KeptBack dst packet rest (read_packet dst n)
unfolding read_packet
read_packet-over dst n packet rest opened room first over =
    let e : (length dst == 0) ≡ false = ground arith in
    rw (e, opened)
      (open_read-KeptBack dst n.pending n.link n.released n.injected packet rest first over)

-- A read through the ABI whose buffer is too small stores the length that the next packet needs, gives
-- nothing away, and the next read with a buffer of at least that length returns that very packet.
pub read_packet_into-retry :
    (small large : Bytes) (n : Netstack) (packet : Parts) (rest : List Parts)
    → n.closed ≡ false
    → 0 < length small
    → waiting n ≡ packet ∷ rest
    → length small < parts_length packet
    → parts_length packet ≤ length large
    → length large ≤ max_packet
    → (kept after : Netstack) × (read_packet_into true (some small) (some n)
        ≡ ok ((some (parts_length packet), status_resource_limit), some small, some kept))
      × (read_packet_into true (some large) (some kept)
          ≡ ok (
            (some (parts_length packet), status_ok),
            some (contents packet ++ drop (parts_length packet) large),
            some after,
          ))
      × (waiting after ≡ rest)
unfolding read_packet_into read_netstack_packet KeptBack
read_packet_into-retry small large n packet rest opened room first over fits bound =
    let (kept, e, w, c) = read_packet-over small n packet rest opened room first over in
    let (after, f, v, _) = read_packet-front large kept packet rest c (omega arith) w fits in
    let g : (length small == 0) ≡ false = ground arith in
    let h : (length large == 0) ≡ false = ground arith in
    let i : ltb max_packet (length small) ≡ false = ground arith in
    let j : ltb max_packet (length large) ≡ false = ground arith in
    (kept, after, rw (g, i, e) refl, rw (h, j, f) refl, v)
