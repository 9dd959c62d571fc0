-- ===== src/Folotun/Frame/Canonical.antt =====
-- The frames that `ReadFrame` of main/folotun/frame.go accepts.
use mathlib.Core.Path.{ap₂, ◌≡⟨◌⟩◌, ◌∎}
use folo_xray_apple.Prelude.{
  ℕ, ◌+◌, ◌*◌, ◌/◌, ◌%◌, ◌<◌, ◌≡◌, refl, sym, ap, ◌∙◌, [], ◌∷◌, ◌++◌, arith, length, ok, false,
  >>=-returns, index-ok, subst, Bytes, at, All, All-append,
}
use folo_xray_apple.Folotun.Packet.{Packet, FrameError, inspect_packet}
use folo_xray_apple.Folotun.Packet.Shape.{inspect_packet-ok_iff}
use folo_xray_apple.Folotun.Stream.{Reader, read_full}
use folo_xray_apple.Folotun.Stream.Chunks.{contents, read_full-splits}
use folo_xray_apple.Folotun.Frame.RoundTrip.{Accepted-payload}
use folo_xray_apple.Folotun.Frame.{
  header_size, frame_header, frame_bytes, encode_frame, parse_header, check_payload, read_frame,
}

-- Every element is a byte.
abbrev pub AreBytes : Bytes → Type 0
AreBytes = All (λ b. b < 256)

abbrev header_list : (a b c d e f g h i j k l : ℕ) → Bytes
header_list a b c d e f g h i j k l = a ∷ b ∷ c ∷ d ∷ e ∷ f ∷ g ∷ h ∷ i ∷ j ∷ k ∷ l ∷ []

abbrev header_of : Bytes → Bytes
header_of h =
    header_list (at h 0) (at h 1) (at h 2) (at h 3) (at h 4) (at h 5) (at h 6) (at h 7) (at h 8)
      (at h 9) (at h 10) (at h 11)

twelve : (h : Bytes) → length h ≡ header_size → h ≡ header_of h
twelve (a ∷ b ∷ c ∷ d ∷ e ∷ f ∷ g ∷ h ∷ i ∷ j ∷ k ∷ l ∷ []) n = refl
twelve _ n = absurd (omega arith)

-- What the checks of a header establish.
parse_header-fields :
    (a b c d e f g h i j k l size : ℕ)
    → parse_header (header_list a b c d e f g h i j k l) ≡ ok size
    → (a ≡ 0x46)
      × (b ≡ 0x50)
      × (c ≡ 1)
      × (f ≡ 0)
      × (k ≡ 0)
      × (l ≡ 0)
      × (size ≡ g * 16777216 + h * 65536 + i * 256 + j)
unfolding parse_header
parse_header-fields a b c d e f g h i j k l size parsed = ground arith

digits_unique :
    (g h i j n : ℕ)
    → g < 256
    → h < 256
    → i < 256
    → j < 256
    → n ≡ g * 16777216 + h * 65536 + i * 256 + j
    → (n / 16777216 % 256 ≡ g) × (n / 65536 % 256 ≡ h) × (n / 256 % 256 ≡ i) × (n % 256 ≡ j)
digits_unique g h i j n p q r s e = omega arith

parse_header-frame_header :
    (h : Bytes) (size : ℕ) (p : Packet)
    → length h ≡ header_size
    → AreBytes h
    → parse_header h ≡ ok size
    → length p.payload ≡ size
    → p.family ≡ at h 3
    → p.protocol ≡ at h 4
    → h ≡ frame_header p
parse_header-frame_header (a ∷ b ∷ c ∷ d ∷ e ∷ f ∷ g ∷ h ∷ i ∷ j ∷ k ∷ l ∷ []) size p len bytes
      parsed n fam proto =
    let fields = parse_header-fields a b c d e f g h i j k l size parsed in
    let digits =
      digits_unique g h i j (length p.payload) (omega arith) (omega arith) (omega arith)
        (omega arith) (n ∙ fields.6) in
    ground (arith, fields, digits)
parse_header-frame_header _ size p len bytes parsed n fam proto = absurd (omega arith)

check_payload-eq :
    (h payload : Bytes) (p : Packet)
    → length h ≡ header_size
    → check_payload h payload ≡ ok p
    → (inspect_packet payload ≡ ok p) × (p.family ≡ at h 3) × (p.protocol ≡ at h 4)
unfolding check_payload
check_payload-eq h payload p len e =
    ground (arith, index-ok {E = FrameError} h 3 0, index-ok {E = FrameError} h 4 0)

-- The calls of a `ReadFrame` that returns.
record Steps (r r' : Reader) (k : Packet) : Type 0 where
  header : Bytes
  payload : Bytes
  size : ℕ
  r1 : Reader
  read_header : read_full header_size false r ≡ ok (header, r1)
  parsed : parse_header header ≡ ok size
  read_payload : read_full size false r1 ≡ ok (payload, r')
  checked : check_payload header payload ≡ ok k

read_frame-Steps : (r r' : Reader) (k : Packet) → read_frame r ≡ ok (k, r') → Steps r r' k
unfolding read_frame
read_frame-Steps r r' k e =
    let ((h, r1), e1, f1) = >>=-returns (read_full header_size false r) _ e in
    let (size, e2, f2) = >>=-returns (parse_header h) _ f1 in
    let ((payload, r2), e3, f3) = >>=-returns (read_full size false r1) _ f2 in
    let (p, e4, f4) = >>=-returns (check_payload h payload) _ f3 in
    record {
      header = h;
      payload = payload;
      size = size;
      r1 = r1;
      read_header = e1;
      parsed = e2;
      read_payload = e3 ∙ cc (f4);
      checked = e4 ∙ cc (f4);
    }

Steps-canonical :
    (r r' : Reader) (k : Packet)
    → AreBytes (contents r)
    → Steps r r' k
    → (encode_frame k.payload ≡ ok (frame_bytes k)) × (contents r ≡ frame_bytes k ++ contents r')
unfolding encode_frame
Steps-canonical r r' k bytes s = (ground (arith, inspected, same), whole)
  where
    open s use {header, payload, size, r1, read_header, parsed, read_payload, checked}

    first : (length header ≡ header_size) × (contents r ≡ header ++ contents r1)
    first = read_full-splits header_size false r r1 header read_header

    second : (length payload ≡ size) × (contents r1 ≡ payload ++ contents r')
    second = read_full-splits size false r1 r' payload read_payload

    inspected :
        (inspect_packet payload ≡ ok k) × (k.family ≡ at header 3) × (k.protocol ≡ at header 4)
    inspected = check_payload-eq header payload k first.0 checked

    same : k.payload ≡ payload
    same = (Accepted-payload payload k ((inspect_packet-ok_iff payload k).0 inspected.0)).0

    head : header ≡ frame_header k
    head =
        parse_header-frame_header header size k first.0
          (All-append (λ b. b < 256) header (contents r1) (subst AreBytes first.1 bytes)).0 parsed
          (ap length same ∙ second.0) inspected.1 inspected.2

    whole : contents r ≡ frame_bytes k ++ contents r'
    whole =
        contents r
        ≡⟨ first.1 ⟩ header ++ contents r1
        ≡⟨ ap₂ ◌++◌ head second.1 ⟩ frame_header k ++ (payload ++ contents r')
        ≡⟨ ap (λ q. frame_header k ++ (q ++ contents r')) (sym same) ⟩
          frame_bytes k ++ contents r' ∎

-- `ReadFrame` accepts no other bytes than those that `EncodeFrame` makes of the packet it returns,
-- and takes exactly those bytes off the stream.
pub read_frame-canonical :
    (r r' : Reader) (k : Packet)
    → AreBytes (contents r)
    → read_frame r ≡ ok (k, r')
    → (encode_frame k.payload ≡ ok (frame_bytes k)) × (contents r ≡ frame_bytes k ++ contents r')
read_frame-canonical r r' k bytes e = Steps-canonical r r' k bytes (read_frame-Steps r r' k e)
