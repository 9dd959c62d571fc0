-- ===== src/Router/Addresses.antt =====
-- apple-wrapper/router/compact_cidr.go. A nil net.IP is `none`; `parse_cidr` and `parse_ip` stand for
-- the network of net.ParseCIDR and for net.ParseIP. The mutex is held for the whole of each
-- operation, so an operation is one step.
pub mod Special
use folo_xray_apple.Prelude.{
  Bool, true, false, ◌&&◌, ◌||◌, List, [], ◌∷◌, ◌++◌, Option, none, some, ◌==◌, ◌/◌, if◌then◌else◌,
  at, Bytes,
}
use folo_xray_apple.Router.Ip.{
  Ip, IpNet, to4, is_loopback, is_link_local_unicast, is_link_local_multicast, is_private,
  is_unspecified, full_mask, net_contains,
}
use folo_xray_apple.Router.Rules.{RouteAction}

pub record CidrRule : Type 0 where
  pub ip_net : IpNet
  pub action : RouteAction

abbrev pub IpMatcher : Type 0
IpMatcher = List CidrRule

module _ (parse_cidr : Bytes → Option IpNet) (parse_ip : Bytes → Option Ip) where
  -- The network of a rule text: a CIDR, or a single address with a full mask.
  unfoldable pub rule_net : Bytes → Option IpNet
  unfolding to4
  rule_net cidr = elim (parse_cidr cidr) [
    | some n ↦ some n
    | none ↦ elim (parse_ip cidr) [
      | none ↦ none
      | some ip ↦ elim (to4 ip) [
        | some ip4 ↦ some (record { ip = ip4; mask = full_mask 4 })
        | none ↦ some (record { ip = ip; mask = full_mask 16 })
      ]
    ]
  ]

  -- `AddCIDR`. Its error is dropped by the only caller: a text that does not parse adds nothing.
  unfoldable pub add_cidr : IpMatcher → Bytes → RouteAction → IpMatcher
  add_cidr m cidr action = elim (rule_net cidr) [
    | none ↦ m
    | some n ↦ m ++ record { ip_net = n; action = action } ∷ []
  ]

unfoldable pub match_rules : IpMatcher → Ip → Option RouteAction
match_rules [] ip = none
match_rules (r ∷ rs) ip =
    let rest = match_rules rs ip in if net_contains r.ip_net ip then some r.action else rest

-- `Match`; `(ActionProxy, false)` is `none`.
unfoldable pub match_ip : IpMatcher → Option Ip → Option RouteAction
unfolding match_rules
match_ip m none = none
match_ip m (some ip) = match_rules m ip

-- `ip4[0] == 100 && (ip4[1]&0xC0) == 64`, and the broadcast address.
unfoldable pub is_shared_or_broadcast : Ip → Bool
unfolding to4
is_shared_or_broadcast ip = elim (to4 ip) [
  | some ip4 ↦
      (at ip4 0 == 100 && at ip4 1 / 64 == 1)
      || (at ip4 0 == 255 && at ip4 1 == 255 && at ip4 2 == 255 && at ip4 3 == 255)
  | none ↦ false
]

-- `IsPrivateIP`
unfoldable pub is_private_ip : Option Ip → Bool
unfolding is_loopback is_link_local_unicast is_link_local_multicast is_private is_unspecified
    is_shared_or_broadcast
is_private_ip none = false
is_private_ip (some ip) =
    is_loopback ip
    || is_link_local_unicast ip
    || is_link_local_multicast ip
    || is_private ip
    || is_unspecified ip
    || is_shared_or_broadcast ip
