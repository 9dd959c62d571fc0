-- ===== src/Profile/Hex.antt =====
-- hex.DecodeString of the Go library, as main/folojson/folojson.go uses it: digits of either case, two
-- to a byte.
use folo_xray_apple.Prelude.{
  ℕ, zero, suc, ◌+◌, ◌-◌, ◌*◌, ◌≤◌, ◌<◌, ◌≡◌, refl, ◌⊎◌, inl, inr, arith, [], ◌∷◌, ◌&&◌, leb,
  if◌then◌else◌, length, Outcome, ok, err, >>=-returns, ◌>>=◌, Bytes, All,
}

pub data Corrupt : Type 0 where
  corrupt : Corrupt

-- A digit of either case.
abbrev pub IsHexDigit : ℕ → Type 0
IsHexDigit c = ((b'0' ≤ c) × (c ≤ b'9')) ⊎ ((b'a' ≤ c) × (c ≤ b'f')) ⊎ ((b'A' ≤ c) × (c ≤ b'F'))

unfoldable pub hex_digit : ℕ → Outcome Corrupt ℕ
hex_digit c =
    if leb b'0' c && leb c b'9'
    then ok (c - b'0')
    else if leb b'a' c && leb c b'f'
    then ok (c - b'a' + 10)
    else if leb b'A' c && leb c b'F'
    then ok (c - b'A' + 10)
    else err corrupt

unfoldable pub decode_hex : Bytes → Outcome Corrupt Bytes
unfolding hex_digit
decode_hex [] = ok []
decode_hex (a ∷ []) = err corrupt
decode_hex (a ∷ b ∷ r) = do
  high ← hex_digit a
  low ← hex_digit b
  more ← decode_hex r
  ok ((high * 16 + low) ∷ more)

-- The text of `n` bytes in digits.
pub record IsHexText (n : ℕ) (s : Bytes) : Type 0 where
  pub size : length s ≡ 2 * n
  pub digits : All IsHexDigit s

hex_digit-IsHexDigit : (c : ℕ) → IsHexDigit c → (v : ℕ) × (hex_digit c ≡ ok v) × (v < 16)
unfolding hex_digit
hex_digit-IsHexDigit c (inl h) = (c - b'0', ground arith, ground arith)
hex_digit-IsHexDigit c (inr (inl h)) = (c - b'a' + 10, ground arith, ground arith)
hex_digit-IsHexDigit c (inr (inr h)) = (c - b'A' + 10, ground arith, ground arith)

IsHexDigit-hex_digit : (c v : ℕ) → hex_digit c ≡ ok v → IsHexDigit c
unfolding hex_digit
IsHexDigit-hex_digit c v h = ground arith

-- Digits, twice as many as bytes, decode, and to bytes.
pub decode_hex-IsHexText :
    (n : ℕ) (s : Bytes)
    → IsHexText n s
    → (bytes : Bytes) × (decode_hex s ≡ ok bytes) × (length bytes ≡ n) × All (λ b. b < 256) bytes
unfolding decode_hex
decode_hex-IsHexText zero [] h = ([], refl, refl, tt)
decode_hex-IsHexText (suc n) [] h = absurd (omega (arith, h.size))
decode_hex-IsHexText n (a ∷ []) h = absurd (omega (arith, h.size))
decode_hex-IsHexText zero (a ∷ b ∷ r) h = absurd (omega (arith, h.size))
decode_hex-IsHexText (suc n) (a ∷ b ∷ r) h =
    let (x, e, bound) = hex_digit-IsHexDigit a h.digits.0 in
    let (y, f, low) = hex_digit-IsHexDigit b h.digits.1.0 in
    let (more, g, size, each) =
      decode_hex-IsHexText n r (record { size = omega (arith, h.size); digits = h.digits.1.1 }) in
    ((x * 16 + y) ∷ more, rw (e, f, g) refl, omega (arith, size), (omega arith, each))

-- And only they do.
pub IsHexText-decode_hex : (s bytes : Bytes) → decode_hex s ≡ ok bytes → IsHexText (length bytes) s
unfolding decode_hex
IsHexText-decode_hex [] bytes h = ground arith
IsHexText-decode_hex (a ∷ []) bytes h = cc
IsHexText-decode_hex (a ∷ b ∷ r) bytes h =
    let (x, e, h1) = >>=-returns (hex_digit a) _ h in
    let (y, f, h2) = >>=-returns (hex_digit b) _ h1 in
    let (more, g, h3) = >>=-returns (decode_hex r) _ h2 in
    let rest = IsHexText-decode_hex r more g in
    let size : length bytes ≡ suc (length more) = ground arith in
    record {
      size = omega (arith, rest.size, size);
      digits = (IsHexDigit-hex_digit a x e, (IsHexDigit-hex_digit b y f, rest.digits));
    }
