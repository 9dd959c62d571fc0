-- ===== src/Json.antt =====
-- What encoding/json of the Go library makes of the values that apple-wrapper/folo_apple.go gives to
-- json.Marshal, and a reader of that text, by the grammar of JSON.
pub mod Read
pub mod Texts
pub mod Room
pub mod RoundTrip
pub mod CStrings
use folo_xray_apple.Prelude.{
  ℕ, zero, suc, ◌+◌, ◌-◌, ◌/◌, ◌%◌, Bool, ◌||◌, List, [], ◌∷◌, ◌++◌, ltb, ◌==◌, if◌then◌else◌,
  Bytes, text, is_ascii, ℤ, pos, negsuc,
}

mutual
  pub data Json : Type 0 where
    number : ℤ → Json
    string : Bytes → Json
    object : Members → Json

  -- The members of an object in order.
  pub data Members : Type 0 where
    no_members : Members
    member : Bytes → Json → Members → Members

-- The decimal digits of a number, which has fewer than `fuel`.
unfoldable pub digits : (fuel n : ℕ) → Bytes
digits zero n = []
digits (suc fuel) n =
    let front = digits fuel (n / 10) in
    if ltb n 10 then (b'0' + n) ∷ [] else front ++ (b'0' + n % 10) ∷ []

unfoldable pub write_number : ℤ → Bytes
unfolding digits
write_number (pos n) = digits (suc n) n
write_number (negsuc n) = b'-' ∷ digits (suc (suc n)) (suc n)

abbrev pub hex_of : ℕ → ℕ
hex_of d = if ltb d 10 then b'0' + d else b'a' + d - 10

-- A byte of ASCII in a string: `\b`, `\f`, `\n`, `\r`, `\t` and the other controls are escaped, and so
-- are the signs that HTML reads.
unfoldable pub escape_byte : ℕ → Bytes
escape_byte c =
    if c == b'"' || c == 92
    then 92 ∷ c ∷ []
    else if c == 8
    then 92 ∷ b'b' ∷ []
    else if c == 12
    then 92 ∷ b'f' ∷ []
    else if c == 10
    then 92 ∷ b'n' ∷ []
    else if c == 13
    then 92 ∷ b'r' ∷ []
    else if c == 9
    then 92 ∷ b't' ∷ []
    else if ltb c 32 || c == b'<' || c == b'>' || c == b'&'
    then 92 ∷ b'u' ∷ b'0' ∷ b'0' ∷ hex_of (c / 16) ∷ hex_of (c % 16) ∷ []
    else c ∷ []

unfoldable pub escape : Bytes → Bytes
unfolding escape_byte
escape [] = []
escape (c ∷ s) = escape_byte c ++ escape s

-- A string in quotes; `wide` is what becomes of a string with a byte above 0x7f.
unfoldable pub write_string : (Bytes → Bytes) → Bytes → Bytes
unfolding escape
write_string wide s = b'"' ∷ (if is_ascii s then escape s else wide s) ++ b'"' ∷ []

module _ (wide : Bytes → Bytes) where
  unfoldable mutual
    -- json.Marshal
    pub write_json : Json → Bytes
    write_json (number z) = write_number z
    write_json (string s) = write_string wide s
    write_json (object no_members) = b'{' ∷ b'}' ∷ []
    write_json (object (member k v rest)) =
        b'{' ∷ write_string wide k ++ (b':' ∷ (write_json v ++ write_rest rest))

    pub write_rest : Members → Bytes
    write_rest no_members = b'}' ∷ []
    write_rest (member k v rest) =
        b',' ∷ write_string wide k ++ (b':' ∷ (write_json v ++ write_rest rest))
