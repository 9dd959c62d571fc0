-- ===== src/Folotun/Frame/RoundTrip.antt =====
-- `ReadFrame` after `WriteFrame` of main/folotun/frame.go.
use mathlib.Core.List.{append-nil}
use folo_xray_apple.Prelude.{
  ℕ, ◌+◌, ◌*◌, ◌/◌, ◌%◌, ◌≤◌, ◌<◌, ◌≡◌, refl, sym, ap, ◌∙◌, subst, panic, inl, inr, List, ◌++◌,
  arith, length, Outcome, ok, err, false, Bytes,
}
use folo_xray_apple.Folotun.Packet.{Packet, FrameError, inspect_packet, max_packet_size}
use folo_xray_apple.Folotun.Packet.Shape.{Accepted, inspect_packet-ok_iff}
use folo_xray_apple.Folotun.Stream.{Reader, read_full, Write, done, write_all}
use folo_xray_apple.Folotun.Stream.Chunks.{contents, read_full_exact}
use folo_xray_apple.Folotun.Stream.Delivery.{write_all-Delivers}
use folo_xray_apple.Folotun.Frame.{
  header_size, frame_header, frame_bytes, encode_frame, write_frame, parse_header, check_payload,
  read_frame,
}

-- What an accepted packet says of its payload.
pub Accepted-payload :
    (p : Bytes) (k : Packet)
    → Accepted p k
    → (k.payload ≡ p) × (0 < length p) × (length p ≤ max_packet_size)
Accepted-payload p k (inl (v, e)) = ground arith
Accepted-payload p k (inr (v, e)) = ground arith

put_uint32-size :
    (n : ℕ)
    → n ≤ max_packet_size
    → n / 16777216 % 256 * 16777216 + n / 65536 % 256 * 65536 + n / 256 % 256 * 256 + n % 256 ≡ n
put_uint32-size n h = omega arith

parse_header-frame_header :
    (k : Packet)
    → 0 < length k.payload
    → length k.payload ≤ max_packet_size
    → parse_header (frame_header k) ≡ ok (length k.payload)
unfolding parse_header
parse_header-frame_header k n b = ground (arith, put_uint32-size (length k.payload) b)

check_payload-frame_header :
    (p : Bytes) (k : Packet) → inspect_packet p ≡ ok k → check_payload (frame_header k) p ≡ ok k
unfolding check_payload
check_payload-frame_header p k e = ground arith

-- The calls of `ReadFrame`, one after the other.
read_frame_chain :
    (r r1 r2 : Reader) (header payload : Bytes) (size : ℕ) (k : Packet)
    → read_full header_size false r ≡ ok (header, r1)
    → parse_header header ≡ ok size
    → read_full size false r1 ≡ ok (payload, r2)
    → check_payload header payload ≡ ok k
    → read_frame r ≡ ok (k, r2)
unfolding read_frame
read_frame_chain r r1 r2 header payload size k a b c d = ground arith

-- A stream that begins with the frame of an inspected packet: the frame is read, and no byte more.
pub read_frame-frame_bytes :
    (p rest : Bytes) (k : Packet) (r : Reader)
    → inspect_packet p ≡ ok k
    → contents r ≡ frame_bytes k ++ rest
    → (r' : Reader) × (read_frame r ≡ ok (k, r')) × (contents r' ≡ rest)
read_frame-frame_bytes p rest k r e c =
    let (same, n, b) = Accepted-payload p k ((inspect_packet-ok_iff p k).0 e) in
    let (r1, e1, c1) =
      read_full_exact (frame_header k) (k.payload ++ rest) header_size false r refl c in
    let (r2, e2, c2) = read_full_exact k.payload rest (length k.payload) false r1 refl c1 in
    (
      r2,
      read_frame_chain r r1 r2 (frame_header k) k.payload (length k.payload) k e1
          (parse_header-frame_header k (rw same n) (rw same b)) e2
          (subst (λ q. check_payload (frame_header k) q ≡ ok k) (sym same)
            (check_payload-frame_header p k e)),
      c2,
    )

-- What a frame that was written without an error put on the stream.
pub write_frame-sent :
    (ws : List Write) (p : Bytes) {sent : Bytes}
    → write_frame ws p ≡ ok (sent, done)
    → (k : Packet) × (inspect_packet p ≡ ok k) × (sent ≡ frame_bytes k)
unfolding write_frame encode_frame
write_frame-sent ws p {sent} w = inspected (inspect_packet p) refl
  where
    written : (k : Packet) → inspect_packet p ≡ ok k → write_all ws (frame_bytes k) ≡ (sent, done)
    written k e = ground (arith, w)

    whole : (k : Packet) → write_all ws (frame_bytes k) ≡ (sent, done) → sent ≡ frame_bytes k
    whole k e =
        let (left, split, full) = write_all-Delivers ws (frame_bytes k) in
        cc (e, split, full (ap (λ o. o.1) e), append-nil sent)

    inspected :
        (o : Outcome FrameError Packet)
        → inspect_packet p ≡ o
        → (k : Packet) × (inspect_packet p ≡ ok k) × (sent ≡ frame_bytes k)
    inspected (ok k) e = (k, e, whole k (written k e))
    inspected (err why) e = absurd (ground (arith, w))
    inspected panic e = absurd (ground (arith, w))

-- What `WriteFrame` sends through partial writes, followed by any bytes, `ReadFrame` takes off the
-- stream again however the stream cuts it: the packet is the inspected one, and what follows it
-- is untouched.
pub read_frame-write_frame :
    (ws : List Write) (p rest : Bytes) {sent : Bytes} (r : Reader)
    → write_frame ws p ≡ ok (sent, done)
    → contents r ≡ sent ++ rest
    → (k : Packet) × (r' : Reader) × (inspect_packet p ≡ ok k)
      × (read_frame r ≡ ok (k, r'))
      × (contents r' ≡ rest)
      × (k.payload ≡ p)
read_frame-write_frame ws p rest r w c =
    let (k, e, s) = write_frame-sent ws p w in
    let (r', reads, left) = read_frame-frame_bytes p rest k r e (c ∙ ap (λ f. f ++ rest) s) in
    (k, r', e, reads, left, (Accepted-payload p k ((inspect_packet-ok_iff p k).0 e)).0)
