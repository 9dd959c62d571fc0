-- ===== src/Router/Ip.antt =====
-- net.IP of the Go library, as apple-wrapper/router uses it: an address is a byte slice of length 4
-- or 16 (or any other length, for a slice that is no address).
use Prim.Native.Nat.{bit_and}
use folo_xray_apple.Prelude.{
  ℕ, zero, suc, ◌/◌, ◌%◌, Bool, true, false, ◌&&◌, ◌||◌, [], ◌∷◌, ◌++◌, Option, none, some, ◌==◌,
  if◌then◌else◌, length, take, drop, at, Bytes, bytes_eq,
}

abbrev pub Ip : Type 0
Ip = Bytes

abbrev pub zeros : ℕ → Bytes
zeros zero = []
zeros (suc n) = 0 ∷ zeros n

-- The sixteen-byte form of an IPv4 address starts with these bytes.
abbrev pub v4_in_v6_prefix : Bytes
v4_in_v6_prefix = zeros 10 ++ 0xff ∷ 0xff ∷ []

abbrev pub ipv6_loopback : Ip
ipv6_loopback = zeros 15 ++ 1 ∷ []

abbrev pub ipv4_zero : Ip
ipv4_zero = v4_in_v6_prefix ++ zeros 4

-- `ip.To4()`
unfoldable pub to4 : Ip → Option Ip
unfolding bytes_eq
to4 ip =
    if length ip == 4
    then some ip
    else if length ip == 16 && bytes_eq (take 12 ip) v4_in_v6_prefix
    then some (drop 12 ip)
    else none

-- `ip.Equal(x)`
unfoldable pub ip_equal : Ip → Ip → Bool
unfolding bytes_eq
ip_equal ip x =
    if length ip == length x
    then bytes_eq ip x
    else if length ip == 4 && length x == 16
    then bytes_eq (take 12 x) v4_in_v6_prefix && bytes_eq ip (drop 12 x)
    else if length ip == 16 && length x == 4
    then bytes_eq (take 12 ip) v4_in_v6_prefix && bytes_eq (drop 12 ip) x
    else false

-- The bits `b & mask` for the masks of the tests below: the upper bits as a quotient, the lower
-- ones as a remainder.
unfoldable pub is_loopback : Ip → Bool
unfolding to4 ip_equal
is_loopback ip = elim (to4 ip) [ some ip4 ↦ at ip4 0 == 127 | none ↦ ip_equal ip ipv6_loopback ]

-- `ip[0] == 0xfe && ip[1]&0xc0 == 0x80`
unfoldable pub is_link_local_unicast : Ip → Bool
unfolding to4
is_link_local_unicast ip = elim (to4 ip) [
  | some ip4 ↦ at ip4 0 == 169 && at ip4 1 == 254
  | none ↦ length ip == 16 && at ip 0 == 0xfe && at ip 1 / 64 == 2
]

-- `ip[0] == 0xff && ip[1]&0x0f == 0x02`
unfoldable pub is_link_local_multicast : Ip → Bool
unfolding to4
is_link_local_multicast ip = elim (to4 ip) [
  | some ip4 ↦ at ip4 0 == 224 && at ip4 1 == 0 && at ip4 2 == 0
  | none ↦ length ip == 16 && at ip 0 == 0xff && at ip 1 % 16 == 2
]

-- `ip4[1]&0xf0 == 16` and `ip[0]&0xfe == 0xfc`
unfoldable pub is_private : Ip → Bool
unfolding to4
is_private ip = elim (to4 ip) [
  | some ip4 ↦
      at ip4 0 == 10
      || (at ip4 0 == 172 && at ip4 1 / 16 == 1)
      || (at ip4 0 == 192 && at ip4 1 == 168)
  | none ↦ length ip == 16 && at ip 0 / 2 == 126
]

unfoldable pub is_unspecified : Ip → Bool
unfolding ip_equal
is_unspecified ip = ip_equal ip ipv4_zero || ip_equal ip (zeros 16)

pub record IpNet : Type 0 where
  pub ip : Ip
  pub mask : Bytes

-- `net.CIDRMask(8*n, 8*n)`: the mask of a single address.
abbrev pub full_mask : ℕ → Bytes
full_mask zero = []
full_mask (suc n) = 0xff ∷ full_mask n

-- `networkNumberAndMask`, from the address in its short form; nil is the empty slice.
abbrev network_number : IpNet → Ip
network_number n = elim (to4 n.ip) [
  | some ip4 ↦ ip4
  | none ↦ if length n.ip == 16 then n.ip else []
]

abbrev network_and_mask : Ip → Bytes → Bytes × Bytes
network_and_mask ip mask =
    if length ip == 0
    then ([], [])
    else if length mask == 4
    then if length ip == 4 then (ip, mask) else ([], [])
    else if length mask == 16
    then (ip, if length ip == 4 then drop 12 mask else mask)
    else ([], [])

-- The loop of `Contains`; the three slices have one length.
unfoldable pub same_network : Bytes → Bytes → Bytes → Bool
same_network (n ∷ ns) (m ∷ ms) (i ∷ is) = bit_and n m == bit_and i m && same_network ns ms is
same_network _ _ _ = true

abbrev short_form : Ip → Ip
short_form ip = elim (to4 ip) [ some ip4 ↦ ip4 | none ↦ ip ]

-- `n.Contains(ip)`
unfoldable pub net_contains : IpNet → Ip → Bool
unfolding to4 same_network
net_contains n ip =
    let (nn, m) = network_and_mask (network_number n) n.mask in
    if length (short_form ip) == length nn then same_network nn m (short_form ip) else false
