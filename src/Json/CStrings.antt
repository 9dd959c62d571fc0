-- ===== src/Json/CStrings.antt =====
-- C strings end at their first byte of 0, and a text of json.Marshal has none.
use folo_xray_apple.Prelude.{
  ℕ, zero, suc, ◌+◌, ◌/◌, ◌%◌, ◌<◌, ◌≡◌, refl, sym, ap, ◌∙◌, arith, true, false, Bool-cases, inl,
  inr, [], ◌∷◌, ◌++◌, ltb, ◌==◌, if◌then◌else◌, Bytes, is_ascii, ℤ, pos, negsuc,
}
use mathlib.Core.List.{append_assoc, append-nil}
use folo_xray_apple.Json.{
  Json, number, string, object, Members, no_members, member, digits, write_number, hex_of,
  escape_byte, escape, write_string, write_json, write_rest,
}
use folo_xray_apple.Json.Texts.{is_ascii-split}
use folo_xray_apple.Json.RoundTrip.{all_ascii, all_ascii_of, all_ascii-split}

-- `C.CString`
unfoldable pub c_string : Bytes → Bytes
c_string s = s ++ 0 ∷ []

-- What a caller in C reads.
unfoldable pub read_c : Bytes → Bytes
read_c [] = []
read_c (c ∷ r) = let rest = read_c r in if c == 0 then [] else c ∷ rest

-- A text without a byte of 0.
abbrev Passes : Bytes → Type 0
Passes s = (r : Bytes) → read_c (s ++ r) ≡ s ++ read_c r

both-Passes : (a b : Bytes) → Passes a → Passes b → Passes (a ++ b)
both-Passes a b p q r =
    ap read_c (append_assoc a b r)
    ∙ p (b ++ r)
    ∙ ap (a ++◌) (q r)
    ∙ sym (append_assoc a b (read_c r))

front-Passes : (c : ℕ) (s : Bytes) → (c == 0) ≡ false → Passes s → Passes (c ∷ s)
unfolding read_c
front-Passes c s e p r = rw e (ap (c ∷◌) (p r))

none-Passes : Passes []
none-Passes r = refl

digits-Passes : (fuel n : ℕ) → Passes (digits fuel n)
unfolding digits
digits-Passes zero n = none-Passes
digits-Passes (suc fuel) n = elim (Bool-cases (ltb n 10)) [
  | inl one ↦ rw one (front-Passes (b'0' + n) [] (ground arith) none-Passes)
  | inr more ↦ rw more (
      both-Passes (digits fuel (n / 10)) ((b'0' + n % 10) ∷ []) (digits-Passes fuel (n / 10))
        (front-Passes (b'0' + n % 10) [] (ground arith) none-Passes))
]

write_number-Passes : (z : ℤ) → Passes (write_number z)
unfolding write_number
write_number-Passes (pos n) = digits-Passes (suc n) n
write_number-Passes (negsuc n) = front-Passes b'-' _ refl (digits-Passes (suc (suc n)) (suc n))

hex_of-pos : (d : ℕ) → (hex_of d == 0) ≡ false
hex_of-pos d = ground arith

escape_byte-Passes : (c : ℕ) → c < 128 → Passes (escape_byte c)
unfolding escape_byte read_c
escape_byte-Passes c small r =
    let high = hex_of-pos (c / 16) in let low = hex_of-pos (c % 16) in ground arith

escape-Passes : (s : Bytes) → is_ascii s ≡ true → Passes (escape s)
unfolding escape
escape-Passes [] plain = none-Passes
escape-Passes (c ∷ s) plain =
    let parts = is_ascii-split c s plain in
    both-Passes (escape_byte c) (escape s) (escape_byte-Passes c parts.0) (escape-Passes s parts.1)

write_string-Passes :
    (wide : Bytes → Bytes) (s : Bytes) → is_ascii s ≡ true → Passes (write_string wide s)
unfolding write_string
write_string-Passes wide s plain = rw plain (
    front-Passes b'"' (escape s ++ b'"' ∷ []) refl (
      both-Passes (escape s) (b'"' ∷ []) (escape-Passes s plain)
        (front-Passes b'"' [] refl none-Passes)))

member-Passes : (k v m : Bytes) → Passes k → Passes v → Passes m → Passes (k ++ (b':' ∷ (v ++ m)))
member-Passes k v m at_k at_v at_m =
    both-Passes k (b':' ∷ (v ++ m)) at_k
      (front-Passes b':' (v ++ m) refl (both-Passes v m at_v at_m))

mutual
  unfolding write_json all_ascii

  write_json-Passes :
      (wide : Bytes → Bytes) (j : Json) → all_ascii j ≡ true → Passes (write_json wide j)
  write_json-Passes wide (number z) plain = write_number-Passes z
  write_json-Passes wide (string s) plain = write_string-Passes wide s plain
  write_json-Passes wide (object no_members) plain =
      front-Passes b'{' (b'}' ∷ []) refl (front-Passes b'}' [] refl none-Passes)
  write_json-Passes wide (object (member k v m)) plain =
      let parts = all_ascii-split k v m plain in
      front-Passes b'{' _ refl (
        member-Passes (write_string wide k) (write_json wide v) (write_rest wide m)
          (write_string-Passes wide k parts.0) (write_json-Passes wide v parts.1)
          (write_rest-Passes wide m parts.2))

  write_rest-Passes :
      (wide : Bytes → Bytes) (m : Members) → all_ascii_of m ≡ true → Passes (write_rest wide m)
  write_rest-Passes wide no_members plain = front-Passes b'}' [] refl none-Passes
  write_rest-Passes wide (member k v m) plain =
      let parts = all_ascii-split k v m plain in
      front-Passes b',' _ refl (
        member-Passes (write_string wide k) (write_json wide v) (write_rest wide m)
          (write_string-Passes wide k parts.0) (write_json-Passes wide v parts.1)
          (write_rest-Passes wide m parts.2))

-- Where all strings are of ASCII, a caller in C reads the whole text of json.Marshal.
pub read_c-write_json :
    (wide : Bytes → Bytes) (j : Json)
    → all_ascii j ≡ true
    → read_c (c_string (write_json wide j)) ≡ write_json wide j
unfolding c_string read_c
read_c-write_json wide j plain =
    write_json-Passes wide j plain (0 ∷ []) ∙ append-nil (write_json wide j)
