-- ===== src/Json/Read.antt =====
-- A reader of JSON texts without white space, arrays, literals and numbers with a fraction or an
-- exponent; an escape of a code point above 0x7f is refused.
use folo_xray_apple.Prelude.{
  ℕ, zero, suc, ◌+◌, ◌-◌, ◌*◌, Bool, ◌&&◌, ◌||◌, [], ◌∷◌, Option, none, some, ltb, leb, ◌==◌,
  if◌then◌else◌, Bytes, length, Outcome, ok, err, ◌>>=◌, ℤ, pos, negsuc,
}
use folo_xray_apple.Json.{Json, number, string, object, Members, no_members, member}

pub data NotJson : Type 0 where
  not_json : NotJson

abbrev pub is_digit : ℕ → Bool
is_digit c = leb b'0' c && leb c b'9'

-- The digits in front, after a number that was read so far.
unfoldable pub read_digits : ℕ → Bytes → ℕ × Bytes
read_digits n [] = (n, [])
read_digits n (c ∷ r) =
    let more = read_digits (n * 10 + (c - b'0')) r in if is_digit c then more else (n, c ∷ r)

abbrev pub negated : ℕ → ℤ
negated zero = pos 0
negated (suc n) = negsuc n

-- The digit of a hexadecimal text.
unfoldable pub hex_value : ℕ → ℕ
hex_value c = if ltb c b'a' then c - b'0' else c - b'a' + 10

-- The four digits after `\u`.
unfoldable pub read_point : Bytes → Outcome NotJson (Option ℕ × Bytes)
unfolding hex_value
read_point (a ∷ b ∷ c ∷ d ∷ r) =
    let point = hex_value c * 16 + hex_value d in
    if a == b'0' && b == b'0' && ltb point 128 then ok (some point, r) else err not_json
read_point r = err not_json

-- What stands after a backslash.
unfoldable pub read_escape : Bytes → Outcome NotJson (Option ℕ × Bytes)
unfolding read_point
read_escape [] = err not_json
read_escape (e ∷ r) =
    if e == b'"' || e == 92 || e == b'/'
    then ok (some e, r)
    else if e == b'b'
    then ok (some 8, r)
    else if e == b'f'
    then ok (some 12, r)
    else if e == b'n'
    then ok (some 10, r)
    else if e == b'r'
    then ok (some 13, r)
    else if e == b't'
    then ok (some 9, r)
    else if e == b'u'
    then read_point r
    else err not_json

-- One byte of a string, or none at its closing quote.
unfoldable pub read_char : Bytes → Outcome NotJson (Option ℕ × Bytes)
unfolding read_escape
read_char [] = err not_json
read_char (c ∷ r) =
    if c == b'"'
    then ok (none, r)
    else if c == 92
    then read_escape r
    else if ltb c 32
    then err not_json
    else ok (some c, r)

-- A string after its opening quote, of fewer bytes than the fuel.
unfoldable pub read_string : (fuel : ℕ) → Bytes → Outcome NotJson (Bytes × Bytes)
unfolding read_char
read_string zero r = err not_json
read_string (suc fuel) r = do
  (c, after) ← read_char r
  elim c [
    | none ↦ ok ([], after)
    | some b ↦ do (s, rest) ← read_string fuel after; ok (b ∷ s, rest)
  ]

-- A byte that is required.
abbrev pub expect : ℕ → Bytes → Outcome NotJson Bytes
expect c [] = err not_json
expect c (d ∷ r) = if d == c then ok r else err not_json

unfoldable pub read_key : Bytes → Outcome NotJson (Bytes × Bytes)
unfolding read_string
read_key r = do opened ← expect b'"' r; read_string (suc (length opened)) opened

unfoldable mutual
  pub read_value : (fuel : ℕ) → Bytes → Outcome NotJson (Json × Bytes)
  read_value zero r = err not_json
  read_value (suc fuel) [] = err not_json
  read_value (suc fuel) (c ∷ r) =
      let members = read_members fuel r in
      if c == b'"'
      then (do (s, rest) ← read_string (suc (length r)) r; ok (string s, rest))
      else if c == b'{'
      then (do (m, rest) ← members; ok (object m, rest))
      else if c == b'-'
      then ok (number (negated (read_digits 0 r).0), (read_digits 0 r).1)
      else if is_digit c
      then ok (number (pos (read_digits 0 (c ∷ r)).0), (read_digits 0 (c ∷ r)).1)
      else err not_json

  -- The members after the opening brace.
  pub read_members : (fuel : ℕ) → Bytes → Outcome NotJson (Members × Bytes)
  read_members zero r = err not_json
  read_members (suc fuel) [] = err not_json
  read_members (suc fuel) (c ∷ r) =
      let first = read_member fuel (c ∷ r) in if c == b'}' then ok (no_members, r) else first

  -- A member and those after it.
  pub read_member : (fuel : ℕ) → Bytes → Outcome NotJson (Members × Bytes)
  read_member zero r = err not_json
  read_member (suc fuel) r = do
    (k, at_colon) ← read_key r
    at_value ← expect b':' at_colon
    (v, at_rest) ← read_value fuel at_value
    (m, rest) ← read_more fuel at_rest
    ok (member k v m, rest)

  -- The members after one.
  pub read_more : (fuel : ℕ) → Bytes → Outcome NotJson (Members × Bytes)
  read_more zero r = err not_json
  read_more (suc fuel) [] = err not_json
  read_more (suc fuel) (c ∷ r) =
      let next = read_member fuel r in
      if c == b'}' then ok (no_members, r) else if c == b',' then next else err not_json

-- A whole text.
unfoldable pub read_json : Bytes → Outcome NotJson Json
unfolding read_value
read_json r = do
  (j, rest) ← read_value (suc (length r)) r
  elim rest [ [] ↦ ok j | x ∷ xs ↦ err not_json ]
