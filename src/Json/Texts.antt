-- ===== src/Json/Texts.antt =====
-- Strings and numbers are read as they were written.
use folo_xray_apple.Prelude.{
  ℕ, zero, suc, ◌+◌, ◌*◌, ◌/◌, ◌%◌, ◌<◌, ◌≤◌, ◌≡◌, refl, ap, ◌∙◌, arith, true, false, Bool-cases,
  inl, inr, [], ◌∷◌, ◌++◌, some, ok, ltb, ◌==◌, Bytes, length, is_ascii, length-append, ltb→lt,
  lt→ltb,
}
use mathlib.Core.List.{append_assoc}
use folo_xray_apple.Json.{digits, hex_of, escape_byte, escape, write_string}
use folo_xray_apple.Json.Read.{
  is_digit, read_digits, hex_value, read_point, read_escape, read_char, read_string, read_key,
}

pub hex_value-hex_of : (d : ℕ) → d < 16 → hex_value (hex_of d) ≡ d
unfolding hex_value
hex_value-hex_of d small = ground arith

pub read_char-plain :
    (c : ℕ) (r : Bytes)
    → (c == b'"') ≡ false
    → (c == 92) ≡ false
    → ltb c 32 ≡ false
    → read_char (c ∷ r) ≡ ok (some c, r)
unfolding read_char
read_char-plain c r a b d = rw (a, b, d) refl

pub read_point-hex_of :
    (c : ℕ) (r : Bytes)
    → c < 128
    → read_point (b'0' ∷ b'0' ∷ hex_of (c / 16) ∷ hex_of (c % 16) ∷ r) ≡ ok (some c, r)
unfolding read_point
read_point-hex_of c r small =
    let high : c / 16 < 16 = omega arith in
    let low : c % 16 < 16 = omega arith in
    let whole : c / 16 * 16 + c % 16 ≡ c = omega arith in
    rw (hex_value-hex_of (c / 16) high, hex_value-hex_of (c % 16) low, whole, lt→ltb c 128 small)
      refl

pub read_char-escape_byte :
    (c : ℕ) (r : Bytes) → c < 128 → read_char (escape_byte c ++ r) ≡ ok (some c, r)
unfolding read_char escape_byte read_escape
read_char-escape_byte c r small = ground (arith, read_point-hex_of c r small)

pub is_ascii-split : (c : ℕ) (s : Bytes) → is_ascii (c ∷ s) ≡ true → (c < 128) × (is_ascii s ≡ true)
unfolding is_ascii
is_ascii-split c s h = ground (arith, ltb→lt c 128)

pub read_string-escape :
    (fuel : ℕ) (s r : Bytes)
    → length s < fuel
    → is_ascii s ≡ true
    → read_string fuel (escape s ++ b'"' ∷ r) ≡ ok (s, r)
unfolding read_string escape read_char
read_string-escape zero s r enough plain = absurd (omega arith)
read_string-escape (suc fuel) [] r enough plain = refl
read_string-escape (suc fuel) (c ∷ s) r enough plain =
    let both = is_ascii-split c s plain in
    let inner = read_string-escape fuel s r (omega arith) both.1 in
    rw
      (
        append_assoc (escape_byte c) (escape s) (b'"' ∷ r),
        read_char-escape_byte c (escape s ++ b'"' ∷ r) both.0,
        inner,
      )
      refl

pub length-escape : (s : Bytes) → length s ≤ length (escape s)
unfolding escape
length-escape [] = omega arith
length-escape (c ∷ s) =
    let first : 1 ≤ length (escape_byte c) = some_bytes c in
    let rest = length-escape s in let all = length-append (escape_byte c) (escape s) in omega arith
  where
    some_bytes : (c : ℕ) → 1 ≤ length (escape_byte c)
    some_bytes c = ground arith

pub write_string-escape :
    (wide : Bytes → Bytes) (s r : Bytes)
    → is_ascii s ≡ true
    → write_string wide s ++ r ≡ b'"' ∷ escape s ++ b'"' ∷ r
unfolding write_string
write_string-escape wide s r plain = rw (plain, append_assoc (escape s) (b'"' ∷ []) r) refl

pub read_string-whole :
    (s r : Bytes)
    → is_ascii s ≡ true
    → read_string (suc (length (escape s ++ b'"' ∷ r))) (escape s ++ b'"' ∷ r) ≡ ok (s, r)
read_string-whole s r plain =
    let size = length-escape s in
    let whole = length-append (escape s) (b'"' ∷ r) in
    read_string-escape (suc (length (escape s ++ b'"' ∷ r))) s r (omega arith) plain

pub read_key-write_string :
    (wide : Bytes → Bytes) (s r : Bytes)
    → is_ascii s ≡ true
    → read_key (write_string wide s ++ r) ≡ ok (s, r)
unfolding read_key
read_key-write_string wide s r plain =
    ap read_key (write_string-escape wide s r plain) ∙ read_string-whole s r plain

pub smaller : (n fuel : ℕ) → ltb n 10 ≡ false → n < suc fuel → n / 10 < fuel
smaller n fuel big enough = ground arith

pub read_digits-digits :
    (fuel n : ℕ) (r : Bytes) → n < fuel → read_digits 0 (digits fuel n ++ r) ≡ read_digits n r
unfolding read_digits digits
read_digits-digits zero n r enough = absurd (omega arith)
read_digits-digits (suc fuel) n r enough = elim (Bool-cases (ltb n 10)) [
  | inl one ↦ rw one (ground arith)
  | inr more ↦
      let front =
        read_digits-digits fuel (n / 10) ((b'0' + n % 10) ∷ r) (smaller n fuel more enough) in
      rw (more, append_assoc (digits fuel (n / 10)) ((b'0' + n % 10) ∷ []) r, front) (ground arith)
]

pub digits-first :
    (fuel n : ℕ) → n < fuel → (c : ℕ) × (r : Bytes) × (digits fuel n ≡ c ∷ r) × (is_digit c ≡ true)
unfolding digits
digits-first zero n enough = absurd (omega arith)
digits-first (suc fuel) n enough = elim (Bool-cases (ltb n 10)) [
  | inl one ↦ rw one (b'0' + n, [], refl, ground arith)
  | inr more ↦
      let (c, r, e, d) = digits-first fuel (n / 10) (smaller n fuel more enough) in
      rw (more, e) (c, _, refl, d)
]
