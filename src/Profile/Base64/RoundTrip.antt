-- ===== src/Profile/Base64/RoundTrip.antt =====
-- Keys written in one of the encodings of main/folojson/folojson.go are read again.
use folo_xray_apple.Prelude.{
  ℕ, ◌+◌, ◌-◌, ◌*◌, ◌/◌, ◌%◌, ◌<◌, ◌≡◌, ◌≢◌, refl, arith, Bool, true, false, [], ◌∷◌, ltb, ◌==◌,
  if◌then◌else◌, ok, Bytes, All, is_empty,
}
use folo_xray_apple.Profile.Base64.{
  sextet, one_byte, two_bytes, three_bytes, last_four, next_four, decode_symbols, strip_breaks,
  decode_base64, decode_url_base64,
}
use folo_xray_apple.Profile.Base64.Order.{decode_url_base64-ok_iff}

-- The symbol of a number below 64.
unfoldable pub symbol : Bool → ℕ → ℕ
symbol url v =
    if ltb v 26
    then v + b'A'
    else if ltb v 52
    then v - 26 + b'a'
    else if ltb v 62
    then v - 52 + b'0'
    else if v == 62
    then (if url then b'-' else b'+')
    else if url
    then b'_'
    else b'/'

-- The padding, where the encoding has it.
abbrev pub pad : Bool → Bytes → Bytes
pad padded s = if padded then s else []

-- Base 64 of RFC 4648: three bytes in four symbols, one or two last bytes in two or three.
unfoldable pub encode_base64 : Bool → Bool → Bytes → Bytes
encode_base64 url padded [] = []
encode_base64 url padded (x ∷ []) =
    symbol url (x / 4) ∷ symbol url (x % 4 * 16) ∷ pad padded (b'=' ∷ b'=' ∷ [])
encode_base64 url padded (x ∷ y ∷ []) =
    symbol url (x / 4)
    ∷ symbol url (x % 4 * 16 + y / 16)
    ∷ symbol url (y % 16 * 4)
    ∷ pad padded (b'=' ∷ [])
encode_base64 url padded (x ∷ y ∷ z ∷ r) =
    symbol url (x / 4)
    ∷ symbol url (x % 4 * 16 + y / 16)
    ∷ symbol url (y % 16 * 4 + z / 64)
    ∷ symbol url (z % 64)
    ∷ encode_base64 url padded r

sextet-symbol : (url : Bool) (v : ℕ) → v < 64 → sextet url (symbol url v) ≡ ok v
unfolding sextet symbol
sextet-symbol true v h = ground arith
sextet-symbol false v h = ground arith

-- A symbol is no padding and no line break.
symbol-ne :
    (url : Bool) (v : ℕ)
    → v < 64
    → (symbol url v ≢ b'=') × (symbol url v ≢ 10) × (symbol url v ≢ 13)
unfolding symbol
symbol-ne true v h = ground arith
symbol-ne false v h = ground arith

strip_breaks-symbol :
    (url : Bool) (v : ℕ) (s : Bytes)
    → v < 64
    → strip_breaks (symbol url v ∷ s) ≡ symbol url v ∷ strip_breaks s
unfolding strip_breaks
strip_breaks-symbol url v s h = ground (arith, symbol-ne url v h)

one_byte-symbol :
    (url : Bool) (x : ℕ)
    → x < 256
    → one_byte url (symbol url (x / 4)) (symbol url (x % 4 * 16)) ≡ ok (x ∷ [])
unfolding one_byte
one_byte-symbol url x h =
    let whole : x / 4 * 4 + x % 4 * 16 / 16 ≡ x = omega arith in
    rw
      (sextet-symbol url (x / 4) (omega arith), sextet-symbol url (x % 4 * 16) (omega arith), whole)
      refl

two_bytes-symbol :
    (url : Bool) (x y : ℕ)
    → x < 256
    → y < 256
    → two_bytes url
        (symbol url (x / 4))
        (symbol url (x % 4 * 16 + y / 16))
        (symbol url (y % 16 * 4))
      ≡ ok (x ∷ y ∷ [])
unfolding two_bytes
two_bytes-symbol url x y h k =
    let first : x / 4 * 4 + (x % 4 * 16 + y / 16) / 16 ≡ x = omega arith in
    let second : (x % 4 * 16 + y / 16) % 16 * 16 + y % 16 * 4 / 4 ≡ y = omega arith in
    rw
      (
        sextet-symbol url (x / 4) (omega arith),
        sextet-symbol url (x % 4 * 16 + y / 16) (omega arith),
        sextet-symbol url (y % 16 * 4) (omega arith),
        first,
        second,
      )
      refl

three_bytes-symbol :
    (url : Bool) (x y z : ℕ)
    → x < 256
    → y < 256
    → z < 256
    → three_bytes url
        (symbol url (x / 4))
        (symbol url (x % 4 * 16 + y / 16))
        (symbol url (y % 16 * 4 + z / 64))
        (symbol url (z % 64))
      ≡ ok (x ∷ y ∷ z ∷ [])
unfolding three_bytes
three_bytes-symbol url x y z h k l =
    let first : x / 4 * 4 + (x % 4 * 16 + y / 16) / 16 ≡ x = omega arith in
    let second : (x % 4 * 16 + y / 16) % 16 * 16 + (y % 16 * 4 + z / 64) / 4 ≡ y = omega arith in
    let third : (y % 16 * 4 + z / 64) % 4 * 64 + z % 64 ≡ z = omega arith in
    rw
      (
        sextet-symbol url (x / 4) (omega arith),
        sextet-symbol url (x % 4 * 16 + y / 16) (omega arith),
        sextet-symbol url (y % 16 * 4 + z / 64) (omega arith),
        sextet-symbol url (z % 64) (omega arith),
        first,
        second,
        third,
      )
      refl

strip_breaks-pad :
    (padded : Bool) (s : Bytes) → strip_breaks s ≡ s → strip_breaks (pad padded s) ≡ pad padded s
strip_breaks-pad true s h = h
strip_breaks-pad false s h = unfold strip_breaks in refl

strip_breaks-encode_base64 :
    (url padded : Bool) (bytes : Bytes)
    → All (λ b. b < 256) bytes
    → strip_breaks (encode_base64 url padded bytes) ≡ encode_base64 url padded bytes
unfolding encode_base64
strip_breaks-encode_base64 url padded [] h = unfold strip_breaks in refl
strip_breaks-encode_base64 url padded (x ∷ []) h =
    rw
      (
        strip_breaks-symbol url (x / 4) _ (omega arith),
        strip_breaks-symbol url (x % 4 * 16) _ (omega arith),
        strip_breaks-pad padded (b'=' ∷ b'=' ∷ []) (unfold strip_breaks in refl),
      )
      refl
strip_breaks-encode_base64 url padded (x ∷ y ∷ []) h =
    rw
      (
        strip_breaks-symbol url (x / 4) _ (omega arith),
        strip_breaks-symbol url (x % 4 * 16 + y / 16) _ (omega arith),
        strip_breaks-symbol url (y % 16 * 4) _ (omega arith),
        strip_breaks-pad padded (b'=' ∷ []) (unfold strip_breaks in refl),
      )
      refl
strip_breaks-encode_base64 url padded (x ∷ y ∷ z ∷ r) h =
    rw
      (
        strip_breaks-symbol url (x / 4) _ (omega arith),
        strip_breaks-symbol url (x % 4 * 16 + y / 16) _ (omega arith),
        strip_breaks-symbol url (y % 16 * 4 + z / 64) _ (omega arith),
        strip_breaks-symbol url (z % 64) _ (omega arith),
        strip_breaks-encode_base64 url padded r h.1.1.1,
      )
      refl

symbol-padding : (url : Bool) (v : ℕ) → v < 64 → (symbol url v == b'=') ≡ false
symbol-padding url v h = ground (arith, symbol-ne url v h)

decode_symbols-encode_base64 :
    (url padded : Bool) (bytes : Bytes)
    → All (λ b. b < 256) bytes
    → decode_symbols url padded (encode_base64 url padded bytes) ≡ ok bytes
unfolding encode_base64 decode_symbols last_four next_four is_empty
decode_symbols-encode_base64 url padded [] h = refl
decode_symbols-encode_base64 url true (x ∷ []) h = one_byte-symbol url x h.0
decode_symbols-encode_base64 url false (x ∷ []) h = one_byte-symbol url x h.0
decode_symbols-encode_base64 url true (x ∷ y ∷ []) h =
    rw (symbol-padding url (y % 16 * 4) (omega arith)) (two_bytes-symbol url x y h.0 h.1.0)
decode_symbols-encode_base64 url false (x ∷ y ∷ []) h = two_bytes-symbol url x y h.0 h.1.0
decode_symbols-encode_base64 url padded (x ∷ y ∷ z ∷ r) h =
    let more = decode_symbols-encode_base64 url padded r h.1.1.1 in
    ground (
      arith,
      symbol-padding url (z % 64) (omega arith),
      three_bytes-symbol url x y z h.0 h.1.0 h.1.1.0,
    )

-- Bytes written in any of the four encodings of RFC 4648, `decodeURLBase64` reads again.
pub decode_url_base64-encode_base64 :
    (url padded : Bool) (bytes : Bytes)
    → All (λ b. b < 256) bytes
    → decode_url_base64 (encode_base64 url padded bytes) ≡ ok bytes
unfolding decode_base64
decode_url_base64-encode_base64 url padded bytes h =
    (decode_url_base64-ok_iff (encode_base64 url padded bytes) bytes).1 (
      url,
      padded,
      rw (strip_breaks-encode_base64 url padded bytes h)
          (decode_symbols-encode_base64 url padded bytes h),
    )
