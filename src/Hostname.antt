-- ===== src/Hostname.antt =====
-- The DNS names that `ValidateEndpointAddress` (main/folotun/transport.go) and `validServerName`
-- (main/folojson/folojson.go) describe, as a grammar, and the test of one label that both make.
pub mod Ends
pub mod Labels
use folo_xray_apple.Prelude.{
  ℕ, ◌+◌, ◌-◌, ◌≤◌, ◌<◌, ◌≡◌, refl, ◌≢◌, ◌⊎◌, arith, Bool, true, false, not, ◌&&◌, ◌||◌, List, [],
  ◌∷◌, leb, ltb, ◌==◌, length, at, All, Bytes, join,
}

-- A letter or a digit of ASCII.
abbrev pub IsAlnum : ℕ → Type 0
IsAlnum c = ((b'a' ≤ c) × (c ≤ b'z')) ⊎ ((b'A' ≤ c) × (c ≤ b'Z')) ⊎ ((b'0' ≤ c) × (c ≤ b'9'))

abbrev pub IsLdh : ℕ → Type 0
IsLdh c = (c ≡ b'-') ⊎ IsAlnum c

-- One label: letters, digits and inner hyphens, at most 63 bytes.
pub record IsLabel (label : Bytes) : Type 0 where
  pub ne : label ≢ []
  pub short : length label ≤ 63
  pub ldh : All IsLdh label
  pub first : at label 0 ≢ b'-'
  pub last : at label (length label - 1) ≢ b'-'

-- A name: labels joined by dots.
pub record IsHostname (s : Bytes) : Type 0 where
  pub labels : List Bytes
  pub some_label : labels ≢ []
  pub each : All IsLabel labels
  pub joined : s ≡ join b'.' labels

-- `r == '-' || r >= 'a' && r <= 'z' || r >= 'A' && r <= 'Z' || r >= '0' && r <= '9'`
unfoldable pub ldh_byte : ℕ → Bool
ldh_byte r =
    r == b'-'
    || (leb b'a' r && leb r b'z')
    || (leb b'A' r && leb r b'Z')
    || (leb b'0' r && leb r b'9')

unfoldable pub all_ldh : Bytes → Bool
unfolding ldh_byte
all_ldh [] = true
all_ldh (c ∷ cs) = ldh_byte c && all_ldh cs

-- `label == "" || len(label) > 63 || label[0] == '-' || label[len(label)-1] == '-'`; the last two
-- are reached only if the label has a first byte.
unfoldable pub bad_shape : Bytes → Bool
bad_shape [] = true
bad_shape (c ∷ cs) =
    ltb 63 (length (c ∷ cs)) || c == b'-' || at (c ∷ cs) (length (c ∷ cs) - 1) == b'-'

pub all_ldh-All : (label : Bytes) → all_ldh label ≡ true → All IsLdh label
unfolding all_ldh
all_ldh-All [] h = tt
all_ldh-All (c ∷ cs) h = (ground arith, all_ldh-All cs (ground arith))

pub All-all_ldh : (label : Bytes) → All IsLdh label → all_ldh label ≡ true
unfolding all_ldh
All-all_ldh [] h = refl
All-all_ldh (c ∷ cs) h = ground (arith, All-all_ldh cs h.1)

-- The two tests of a label decide the grammar.
pub all_ldh-IsLabel :
    (label : Bytes) → bad_shape label ≡ false → all_ldh label ≡ true → IsLabel label
unfolding bad_shape
all_ldh-IsLabel [] b a = cc
all_ldh-IsLabel (c ∷ cs) b a = ground (arith, all_ldh-All (c ∷ cs) a)

pub IsLabel-bad_shape : (label : Bytes) → IsLabel label → bad_shape label ≡ false
unfolding bad_shape
IsLabel-bad_shape [] l = absurd (l.ne refl)
IsLabel-bad_shape (c ∷ cs) l = ground arith
