-- ===== src/Router/Decision.antt =====
-- apple-wrapper/router/router.go: `NewRouter` and `Route`. The mode is written once, before the router
-- is shared, so a read of it under the lock is a plain read.
pub mod Table
pub mod Routing
pub mod Overrides
pub mod AddressRules
use folo_xray_apple.Prelude.{
  ℕ, Bool, true, false, not, ◌&&◌, List, [], ◌∷◌, Option, none, some, if◌then◌else◌, text, Bytes,
  bytes_eq, is_empty, trim_space,
}
use folo_xray_apple.Router.Rules.{RouteAction, proxy, direct, block, or_else}
use folo_xray_apple.Router.Domains.{DomainMatcher, new_domain_matcher, add_suffix, match_domain}
use folo_xray_apple.Router.Ip.{Ip, IpNet}
use folo_xray_apple.Router.Addresses.{IpMatcher, add_cidr, match_ip, is_private_ip}
use folo_xray_apple.Router.China.{Ranges4, Ranges6, is_china_ip}
use folo_xray_apple.Router.Builtin.{builtin_direct_suffixes, builtin_block_suffixes}

-- What the package takes from elsewhere: strings.ToLower beyond ASCII, net.ParseCIDR, net.ParseIP,
-- and the generated tables of china_ip_data.go.
pub record Env : Type 0 where
  pub wide_lower : Bytes → Bytes
  pub parse_cidr : Bytes → Option IpNet
  pub parse_ip : Bytes → Option Ip
  pub china4 : Ranges4
  pub china6 : Ranges6

-- A `RouteMode` is a string; these three have a meaning.
abbrev pub mode_rule : Bytes
mode_rule = text "rule"

abbrev pub mode_global : Bytes
mode_global = text "global"

abbrev pub mode_direct : Bytes
mode_direct = text "direct"

pub record Config : Type 0 where
  pub mode : Bytes
  pub custom_direct_domains : List Bytes
  pub custom_proxy_domains : List Bytes
  pub custom_block_domains : List Bytes
  pub custom_direct_ips : List Bytes
  pub custom_proxy_ips : List Bytes
  pub custom_block_ips : List Bytes

pub record Router : Type 0 where
  pub mode : Bytes
  pub domain_matcher : DomainMatcher
  pub ip_matcher : IpMatcher

module _ (env : Env) where
  -- `for _, d := range domains { dm.AddSuffix(d, action) }`
  unfoldable pub add_suffixes : DomainMatcher → List Bytes → RouteAction → DomainMatcher
  add_suffixes m [] action = m
  add_suffixes m (d ∷ ds) action = add_suffixes (add_suffix env.wide_lower m d action) ds action

  -- `for _, cidr := range cidrs { _ = im.AddCIDR(cidr, action) }`
  unfoldable pub add_cidrs : IpMatcher → List Bytes → RouteAction → IpMatcher
  add_cidrs m [] action = m
  add_cidrs m (c ∷ cs) action =
      add_cidrs (add_cidr env.parse_cidr env.parse_ip m c action) cs action

  unfoldable pub effective_mode : Bytes → Bytes
  effective_mode mode = if is_empty mode then mode_rule else mode

  unfoldable pub new_domains : Config → DomainMatcher
  unfolding effective_mode
  new_domains cfg =
      let blocked = add_suffixes new_domain_matcher cfg.custom_block_domains block in
      let directed = add_suffixes blocked cfg.custom_direct_domains direct in
      let custom = add_suffixes directed cfg.custom_proxy_domains proxy in
      if bytes_eq (effective_mode cfg.mode) mode_rule
      then add_suffixes (add_suffixes custom builtin_block_suffixes block) builtin_direct_suffixes
          direct
      else custom

  unfoldable pub new_addresses : Config → IpMatcher
  new_addresses cfg =
      add_cidrs (add_cidrs (add_cidrs [] cfg.custom_block_ips block) cfg.custom_direct_ips direct)
        cfg.custom_proxy_ips proxy

  -- `NewRouter`
  unfoldable pub new_router : Config → Router
  new_router cfg = record {
    mode = effective_mode cfg.mode;
    domain_matcher = new_domains cfg;
    ip_matcher = new_addresses cfg;
  }

  -- The IP part of `Route`.
  unfoldable pub route_ip : Router → Option Ip → RouteAction
  route_ip r none = proxy
  route_ip r (some ip) = elim (match_ip r.ip_matcher (some ip)) [
    | some action ↦ action
    | none ↦
        if bytes_eq r.mode mode_rule && is_china_ip env.china4 env.china6 (some ip)
        then direct
        else proxy
  ]

  -- The domain part of `Route`.
  unfoldable pub route_domain : Router → Bytes → Option RouteAction
  route_domain r domain =
      let clean = trim_space domain in
      if not (is_empty clean) then match_domain env.wide_lower r.domain_matcher clean else none

  -- `Route`; the port has no part in the decision.
  unfoldable pub route : Router → Bytes → Option Ip → ℕ → RouteAction
  unfolding route_ip route_domain
  route r domain ip port =
      if is_private_ip ip
      then direct
      else if bytes_eq r.mode mode_global
      then proxy
      else if bytes_eq r.mode mode_direct
      then direct
      else elim (route_domain r domain) [ some action ↦ action | none ↦ route_ip r ip ]
