-- ===== src/Profile/Base64.antt =====
-- base64.Encoding.DecodeString of the Go library, not strict: the four encodings differ in the two
-- last symbols (`url`) and in the padding (`padded`). `decodeURLBase64` of main/folojson/folojson.go
-- tries them in turn.
pub mod Agree
pub mod NoPanic
pub mod Order
pub mod RoundTrip
use folo_xray_apple.Prelude.{
  ℕ, ◌+◌, ◌-◌, ◌*◌, ◌/◌, ◌%◌, Bool, true, false, List, [], ◌∷◌, ◌++◌, ◌&&◌, ◌||◌, leb, ◌==◌,
  if◌then◌else◌, Outcome, ok, err, panic, ◌>>=◌, ◌>>◌, fail_if, Bytes, is_empty, not,
}
use folo_xray_apple.Profile.Hex.{Corrupt, corrupt}

-- The number of a symbol in the alphabet.
unfoldable pub sextet : Bool → ℕ → Outcome Corrupt ℕ
sextet url c =
    if leb b'A' c && leb c b'Z'
    then ok (c - b'A')
    else if leb b'a' c && leb c b'z'
    then ok (c - b'a' + 26)
    else if leb b'0' c && leb c b'9'
    then ok (c - b'0' + 52)
    else if c == (if url then b'-' else b'+')
    then ok 62
    else if c == (if url then b'_' else b'/')
    then ok 63
    else err corrupt

-- One, two or three bytes of two, three or four symbols.
unfoldable pub one_byte : Bool → ℕ → ℕ → Outcome Corrupt Bytes
unfolding sextet
one_byte url a b = do x ← sextet url a; y ← sextet url b; ok ((x * 4 + y / 16) ∷ [])

unfoldable pub two_bytes : Bool → ℕ → ℕ → ℕ → Outcome Corrupt Bytes
unfolding one_byte sextet
two_bytes url a b c = do
  x ← sextet url a
  y ← sextet url b
  z ← sextet url c
  ok ((x * 4 + y / 16) ∷ (y % 16 * 16 + z / 4) ∷ [])

unfoldable pub three_bytes : Bool → ℕ → ℕ → ℕ → ℕ → Outcome Corrupt Bytes
unfolding sextet
three_bytes url a b c d = do
  x ← sextet url a
  y ← sextet url b
  z ← sextet url c
  w ← sextet url d
  ok ((x * 4 + y / 16) ∷ (y % 16 * 16 + z / 4) ∷ (z % 4 * 64 + w) ∷ [])

-- Four symbols at the end of which stands padding; nothing may follow.
unfoldable pub last_four : Bool → ℕ → ℕ → ℕ → Bytes → Outcome Corrupt Bytes
last_four url a b c r = do
  fail_if (not (is_empty r)) corrupt
  if c == b'=' then one_byte url a b else two_bytes url a b c

-- Four symbols, and what the symbols after them decode to.
unfoldable pub next_four : Bool → ℕ → ℕ → ℕ → ℕ → Outcome Corrupt Bytes → Outcome Corrupt Bytes
next_four url a b c d rest = do front ← three_bytes url a b c d; more ← rest; ok (front ++ more)

-- Symbols with no line break between them; padding ends the text.
unfoldable pub decode_symbols : Bool → Bool → Bytes → Outcome Corrupt Bytes
unfolding one_byte two_bytes three_bytes last_four next_four
decode_symbols url padded [] = ok []
decode_symbols url padded (a ∷ []) = err corrupt
decode_symbols url padded (a ∷ b ∷ []) = if padded then err corrupt else one_byte url a b
decode_symbols url padded (a ∷ b ∷ c ∷ []) = if padded then err corrupt else two_bytes url a b c
decode_symbols url padded (a ∷ b ∷ c ∷ d ∷ r) =
    let rest = decode_symbols url padded r in
    if padded && d == b'=' then last_four url a b c r else next_four url a b c d rest

-- DecodeString skips '\r' and '\n' wherever they stand.
unfoldable pub strip_breaks : Bytes → Bytes
strip_breaks [] = []
strip_breaks (c ∷ cs) = if c == 10 || c == 13 then strip_breaks cs else c ∷ strip_breaks cs

unfoldable pub decode_base64 : Bool → Bool → Bytes → Outcome Corrupt Bytes
unfolding decode_symbols strip_breaks
decode_base64 url padded s = decode_symbols url padded (strip_breaks s)

-- The loop of `decodeURLBase64`: the first decoder that succeeds.
unfoldable pub first_decoded : List (Bool × Bool) → Bytes → Outcome Corrupt Bytes
first_decoded [] s = err corrupt
first_decoded ((url, padded) ∷ decoders) s = elim (decode_base64 url padded s) [
  | ok decoded ↦ ok decoded
  | err e ↦ first_decoded decoders s
  | panic ↦ panic
]

-- RawURLEncoding, URLEncoding, RawStdEncoding, StdEncoding.
abbrev pub decoders : List (Bool × Bool)
decoders = (true, false) ∷ (true, true) ∷ (false, false) ∷ (false, true) ∷ []

-- `decodeURLBase64`
unfoldable pub decode_url_base64 : Bytes → Outcome Corrupt Bytes
unfolding first_decoded
decode_url_base64 s = first_decoded decoders s
