-- ===== src/Folotun/Socket/Loopback.antt =====
-- What comes back from `Echo` of main/folotun/socket.go.
use mathlib.Core.List.{append_assoc}
use folo_xray_apple.Prelude.{Bool, false, List, [], ◌∷◌, ◌++◌, ok, Bytes, ◌≡◌, refl, ◌∙◌, arith}
use folo_xray_apple.Folotun.Packet.{Packet, inspect_packet}
use folo_xray_apple.Folotun.Stream.{Reader, Write, done, write_all}
use folo_xray_apple.Folotun.Stream.Chunks.{contents}
use folo_xray_apple.Folotun.Frame.{frame_bytes, encode_frame, write_frame}
use folo_xray_apple.Folotun.Frame.RoundTrip.{read_frame-frame_bytes}
use folo_xray_apple.Folotun.Socket.{echo, reply, running}

-- The packets, and in each round a context that is not done and a stream that takes the whole frame.
pub data Served : List (Bool × List Write) → List Packet → Type 0 where
  nothing : Served [] []
  next :
      {k : Packet} {ws : List Write} {rounds : List (Bool × List Write)} {ks : List Packet}
      → inspect_packet k.payload ≡ ok k
      → write_all ws (frame_bytes k) ≡ (frame_bytes k, done)
      → Served rounds ks
      → Served ((false, ws) ∷ rounds) (k ∷ ks)

abbrev pub frames : List Packet → Bytes
frames [] = []
frames (k ∷ ks) = frame_bytes k ++ frames ks

write_frame-whole :
    (k : Packet) (ws : List Write)
    → inspect_packet k.payload ≡ ok k
    → write_all ws (frame_bytes k) ≡ (frame_bytes k, done)
    → write_frame ws k.payload ≡ ok (frame_bytes k, done)
unfolding write_frame encode_frame
write_frame-whole k ws e w = ground (arith, e, w)

-- Of a stream that begins with the frames of packets, however it is cut, Echo sends back exactly
-- these frames, byte by byte and in order, and goes on, as long as it is not cancelled and the stream
-- takes what is written.
pub echo-frames :
    {rounds : List (Bool × List Write)} {ks : List Packet} (rest : Bytes) (r : Reader)
    → Served rounds ks
    → contents r ≡ frames ks ++ rest
    → echo rounds r ≡ record { sent = frames ks; echoed = ks; end = running }
unfolding echo reply
echo-frames rest r nothing c = refl
echo-frames rest r (next {k} {ws} {rounds} {ks} e w served) c =
    let (r', reads, left) =
      read_frame-frame_bytes k.payload (frames ks ++ rest) k r e
        (c ∙ append_assoc (frame_bytes k) (frames ks) rest) in
    let later = echo-frames rest r' served left in
    rw (echo, reads, write_frame-whole k ws e w, later) refl
