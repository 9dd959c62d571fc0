-- ===== src/Prelude/Trim.antt =====
-- strings.TrimSpace over the UTF-8 bytes of a string. The white space of Unicode has 25 code points;
-- a byte that belongs to no valid encoding is no white space.
use Prim.Native.Nat.{ℕ, zero, suc}
use mathlib.Core.Path.{◌≡◌, refl}
use mathlib.Core.Bool.{Bool, ◌&&◌, ◌||◌}
use mathlib.Core.List.{[], ◌∷◌, reverse, reverse-reverse}
use folo_xray_apple.Prelude.Bools.{leb, ◌==◌, if◌then◌else◌}
use folo_xray_apple.Prelude.Text.{Bytes}

abbrev between : ℕ → ℕ → ℕ → Bool
between first last b = leb first b && leb b last

-- `asciiSpace`: \t \n \v \f \r and the space.
unfoldable pub ascii_space : ℕ → Bool
ascii_space c = between 9 13 c || c == 32

-- U+0085 and U+00A0.
abbrev two_byte_space : ℕ → ℕ → Bool
two_byte_space a b = a == 0xc2 && (b == 0x85 || b == 0xa0)

-- U+1680, U+2000 to U+200A, U+2028, U+2029, U+202F, U+205F and U+3000.
abbrev three_byte_space : ℕ → ℕ → ℕ → Bool
three_byte_space a b c =
    (a == 0xe1 && b == 0x9a && c == 0x80)
    || (a == 0xe2 && b == 0x80 && (between 0x80 0x8a c || c == 0xa8 || c == 0xa9 || c == 0xaf))
    || (a == 0xe2 && b == 0x81 && c == 0x9f)
    || (a == 0xe3 && b == 0x80 && c == 0x80)

-- The width of the white space at the front, 0 if there is none.
unfoldable pub space_front : Bytes → ℕ
unfolding ascii_space
space_front [] = 0
space_front (a ∷ []) = if ascii_space a then 1 else 0
space_front (a ∷ b ∷ []) = if ascii_space a then 1 else if two_byte_space a b then 2 else 0
space_front (a ∷ b ∷ c ∷ r) =
    if ascii_space a
    then 1
    else if two_byte_space a b
    then 2
    else if three_byte_space a b c
    then 3
    else 0

-- The same at the end of a string, given its bytes from the last to the first.
unfoldable pub space_back : Bytes → ℕ
unfolding ascii_space
space_back [] = 0
space_back (a ∷ []) = if ascii_space a then 1 else 0
space_back (b ∷ a ∷ []) = if ascii_space b then 1 else if two_byte_space a b then 2 else 0
space_back (c ∷ b ∷ a ∷ r) =
    if ascii_space c
    then 1
    else if two_byte_space b c
    then 2
    else if three_byte_space a b c
    then 3
    else 0

-- Drops `skip` bytes, and then white space for as long as there is some.
unfoldable pub trim_by : (Bytes → ℕ) → ℕ → Bytes → Bytes
trim_by width skip [] = []
trim_by width (suc skip) (c ∷ cs) = trim_by width skip cs
trim_by width zero (c ∷ cs) = elim (width (c ∷ cs)) [
  | zero ↦ c ∷ cs
  | suc skip ↦ trim_by width skip cs
]

-- `strings.TrimSpace`
unfoldable pub trim_space : Bytes → Bytes
unfolding trim_by space_front space_back
trim_space s = reverse (trim_by space_back 0 (reverse (trim_by space_front 0 s)))

trim_by_nothing : (width : Bytes → ℕ) (s : Bytes) → width s ≡ 0 → trim_by width 0 s ≡ s
unfolding trim_by
trim_by_nothing width [] h = refl
trim_by_nothing width (c ∷ cs) h = rw (trim_by, h)

-- A string with no white space at either end is left as it is.
pub trim_space_id : (s : Bytes) → space_front s ≡ 0 → space_back (reverse s) ≡ 0 → trim_space s ≡ s
unfolding trim_space
trim_space_id s front back =
    rw (trim_by_nothing space_front s front, trim_by_nothing space_back (reverse s) back)
      (reverse-reverse s)

-- A space in front is trimmed.
trim_by-space : (s : Bytes) → trim_by space_front 0 (32 ∷ s) ≡ trim_by space_front 0 s
unfolding trim_by space_front
trim_by-space [] = refl
trim_by-space (a ∷ []) = refl
trim_by-space (a ∷ b ∷ s) = refl

pub trim_space_front : (s : Bytes) → trim_space (32 ∷ s) ≡ trim_space s
unfolding trim_space
trim_space_front s = rw (trim_by-space s) refl
