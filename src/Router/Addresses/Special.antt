-- ===== src/Router/Addresses/Special.antt =====
-- The addresses that `IsPrivateIP` (apple-wrapper/router/compact_cidr.go) keeps off the proxy, as
-- prefixes of the 32-bit address.
use folo_xray_apple.Prelude.{
  refl, ◌++◌, ◌∙◌, bytes_eq, ℕ, ◌+◌, ◌*◌, ◌/◌, ◌<◌, ◌≡◌, arith, Bool, true, false, ◌&&◌, ◌||◌, [],
  ◌∷◌, some, ◌==◌,
}
use folo_xray_apple.Router.Ip.{v4_in_v6_prefix, is_unspecified, ip_equal}
use folo_xray_apple.Router.Addresses.{is_private_ip}

-- a.b.c.d as a number.
abbrev pub ipv4_value : ℕ → ℕ → ℕ → ℕ → ℕ
ipv4_value a b c d = a * 16777216 + b * 65536 + c * 256 + d

-- A prefix: its first address, and the number of its addresses.
abbrev pub in_prefix : ℕ → ℕ → ℕ → Bool
in_prefix v first size = v / size == first / size

-- RFC 1122, 1918, 6598, 3927, 5771 and 919.
abbrev pub is_special_ipv4 : ℕ → Bool
is_special_ipv4 v =
    in_prefix v (ipv4_value 0 0 0 0) 1
    || in_prefix v (ipv4_value 10 0 0 0) 16777216
    || in_prefix v (ipv4_value 100 64 0 0) 4194304
    || in_prefix v (ipv4_value 127 0 0 0) 16777216
    || in_prefix v (ipv4_value 169 254 0 0) 65536
    || in_prefix v (ipv4_value 172 16 0 0) 1048576
    || in_prefix v (ipv4_value 192 168 0 0) 65536
    || in_prefix v (ipv4_value 224 0 0 0) 256
    || in_prefix v (ipv4_value 255 255 255 255) 1

-- Each prefix, as the tests of the bytes that the code makes.
module _ (a b c d : ℕ) (p : a < 256) (q : b < 256) (r : c < 256) (s : d < 256) where
  prefix_one_byte :
      (k : ℕ) → in_prefix (ipv4_value a b c d) (ipv4_value k 0 0 0) 16777216 ≡ (a == k)
  prefix_one_byte k = ground arith

  prefix_two_bytes :
      (k l : ℕ)
      → l < 256
      → in_prefix (ipv4_value a b c d) (ipv4_value k l 0 0) 65536 ≡ (a == k && b == l)
  prefix_two_bytes k l h = ground arith

  prefix_three_bytes :
      (k : ℕ)
      → in_prefix (ipv4_value a b c d) (ipv4_value k 0 0 0) 256 ≡ (a == k && b == 0 && c == 0)
  prefix_three_bytes k = ground arith

  prefix_shared :
      in_prefix (ipv4_value a b c d) (ipv4_value 100 64 0 0) 4194304 ≡ (a == 100 && b / 64 == 1)
  prefix_shared = ground arith

  prefix_private :
      in_prefix (ipv4_value a b c d) (ipv4_value 172 16 0 0) 1048576 ≡ (a == 172 && b / 16 == 1)
  prefix_private = ground arith

  prefix_zero :
      in_prefix (ipv4_value a b c d) (ipv4_value 0 0 0 0) 1
      ≡ (a == 0 && (b == 0 && (c == 0 && (d == 0 && true))))
  prefix_zero = ground arith

  prefix_broadcast :
      in_prefix (ipv4_value a b c d) (ipv4_value 255 255 255 255) 1
      ≡ (a == 255 && b == 255 && c == 255 && d == 255)
  prefix_broadcast = ground arith

reorder :
    (u x s l k m n g w : Bool)
    → (l || k || g || (x || m || n) || (u || false) || (s || w))
      ≡ (u || x || s || l || k || m || n || g || w)
reorder u x s l k m n g w = ground arith

is_unspecified-long :
    (a b c d : ℕ)
    → is_unspecified (v4_in_v6_prefix ++ a ∷ b ∷ c ∷ d ∷ []) ≡ is_unspecified (a ∷ b ∷ c ∷ d ∷ [])
unfolding is_unspecified ip_equal bytes_eq
is_unspecified-long a b c d = refl

is_private_ip-short :
    (a b c d : ℕ)
    → a < 256
    → b < 256
    → c < 256
    → d < 256
    → is_private_ip (some (a ∷ b ∷ c ∷ d ∷ [])) ≡ is_special_ipv4 (ipv4_value a b c d)
unfolding is_private_ip
is_private_ip-short a b c d p q r s =
    rw
      (
        prefix_zero a b c d p q r s,
        prefix_one_byte a b c d p q r s 10,
        prefix_shared a b c d p q r s,
        prefix_one_byte a b c d p q r s 127,
        prefix_two_bytes a b c d p q r s 169 254 (omega arith),
        prefix_private a b c d p q r s,
        prefix_two_bytes a b c d p q r s 192 168 (omega arith),
        prefix_three_bytes a b c d p q r s 224,
        prefix_broadcast a b c d p q r s,
      )
      (reorder (a == 0 && (b == 0 && (c == 0 && (d == 0 && true)))) (a == 10)
        (a == 100 && b / 64 == 1) (a == 127) (a == 169 && b == 254) (a == 172 && b / 16 == 1)
        (a == 192 && b == 168) (a == 224 && b == 0 && c == 0)
        (a == 255 && b == 255 && c == 255 && d == 255))

-- The long form is tested like the short one.
is_private_ip-long :
    (a b c d : ℕ)
    → is_private_ip (some (v4_in_v6_prefix ++ a ∷ b ∷ c ∷ d ∷ []))
      ≡ is_private_ip (some (a ∷ b ∷ c ∷ d ∷ []))
unfolding is_private_ip
is_private_ip-long a b c d = rw (is_unspecified-long a b c d) refl

-- For an IPv4 address, in its form of 4 bytes as well as in the one of 16 bytes that net.ParseIP makes,
-- `IsPrivateIP` holds exactly for 0.0.0.0, 255.255.255.255 and the addresses of 10/8, 100.64/10, 127/8,
-- 169.254/16, 172.16/12, 192.168/16 and 224.0.0/24.
pub is_private_ip-ipv4 :
    (a b c d : ℕ)
    → a < 256
    → b < 256
    → c < 256
    → d < 256
    → (is_private_ip (some (a ∷ b ∷ c ∷ d ∷ [])) ≡ is_special_ipv4 (ipv4_value a b c d))
      × (is_private_ip (some (v4_in_v6_prefix ++ a ∷ b ∷ c ∷ d ∷ []))
          ≡ is_special_ipv4 (ipv4_value a b c d))
is_private_ip-ipv4 a b c d p q r s =
    let short = is_private_ip-short a b c d p q r s in (short, is_private_ip-long a b c d ∙ short)
