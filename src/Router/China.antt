-- ===== src/Router/China.antt =====
-- apple-wrapper/router/china_ip.go. The two tables of china_ip_data.go are generated, so they are
-- parameters here: lists of a first and a last address, in order.
pub mod Ranges
pub mod Wide
use folo_xray_apple.Prelude.{
  ℕ, ◌+◌, ◌*◌, ◌-◌, Bool, true, false, not, ◌&&◌, ◌||◌, List, [], ◌∷◌, Option, none, some, ltb, leb,
  ◌==◌, if◌then◌else◌, length, get_or, take, drop, Bytes,
}
use folo_xray_apple.Router.Ip.{Ip, to4}
use folo_xray_apple.Router.Search.{sort_search}

-- A 128-bit address as its upper and its lower half.
abbrev pub Wide : Type 0
Wide = ℕ × ℕ

abbrev pub Ranges4 : Type 0
Ranges4 = List (ℕ × ℕ)

abbrev pub Ranges6 : Type 0
Ranges6 = List (Wide × Wide)

-- binary.BigEndian over the whole slice.
abbrev pub big_endian : ℕ → Bytes → ℕ
big_endian acc [] = acc
big_endian acc (b ∷ bs) = big_endian (acc * 256 + b) bs

-- The default is never read: sort.Search tests places below the length only.
abbrev pub range4 : Ranges4 → ℕ → ℕ × ℕ
range4 ranges i = get_or ranges i (0, 0)

abbrev pub range6 : Ranges6 → ℕ → Wide × Wide
range6 ranges i = get_or ranges i ((0, 0), (0, 0))

unfoldable pub is_china_ipv4 : Ranges4 → ℕ → Bool
is_china_ipv4 ranges ip =
    let n = length ranges in
    let idx = sort_search n (λ i. leb ip (range4 ranges i).1) in
    ltb idx n && leb (range4 ranges idx).0 ip

-- `endHi > hi`, or the same upper half and `endLo >= lo`.
abbrev pub ends_from : Wide → Wide → Bool
ends_from (hi, lo) (end_hi, end_lo) =
    if ltb hi end_hi then true else if end_hi == hi then leb lo end_lo else false

-- `startHi < hi || (startHi == hi && startLo <= lo)`
abbrev pub starts_to : Wide → Wide → Bool
starts_to (hi, lo) (start_hi, start_lo) = ltb start_hi hi || (start_hi == hi && leb start_lo lo)

unfoldable pub is_china_wide : Ranges6 → Wide → Bool
is_china_wide ranges ip =
    let n = length ranges in
    let idx = sort_search n (λ i. ends_from ip (range6 ranges i).1) in
    ltb idx n && starts_to ip (range6 ranges idx).0

-- `IsChinaIPv6`
unfoldable pub is_china_ipv6 : Ranges6 → Ip → Bool
unfolding is_china_wide
is_china_ipv6 ranges ip =
    if not (length ip == 16)
    then false
    else is_china_wide ranges (big_endian 0 (take 8 ip), big_endian 0 (drop 8 ip))

-- `IsChinaIP`
unfoldable pub is_china_ip : Ranges4 → Ranges6 → Option Ip → Bool
unfolding is_china_ipv4 is_china_ipv6 to4
is_china_ip ranges4 ranges6 none = false
is_china_ip ranges4 ranges6 (some ip) = elim (to4 ip) [
  | some ip4 ↦ is_china_ipv4 ranges4 (big_endian 0 ip4)
  | none ↦ if length ip == 16 then is_china_ipv6 ranges6 ip else false
]
