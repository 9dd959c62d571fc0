-- ===== src/Router/Decision/AddressRules.antt =====
-- The address rules after `NewRouter` (apple-wrapper/router/router.go).
use folo_xray_apple.Prelude.{
  ◌≡◌, refl, sym, arith, Bool, false, ◌||◌, List, [], ◌∷◌, ◌++◌, Option, none, some, if◌then◌else◌,
  Bytes, Option-cases, inl, inr, bytes_eq, ap,
}
use folo_xray_apple.Router.Rules.{RouteAction, proxy, direct, block, or_else}
use folo_xray_apple.Router.Ip.{Ip, net_contains}
use folo_xray_apple.Router.Addresses.{IpMatcher, rule_net, add_cidr, match_rules, match_ip}
use folo_xray_apple.Router.China.{is_china_ip}
use folo_xray_apple.Router.Decision.{
  Env, Config, add_cidrs, new_addresses, new_router, route_ip, effective_mode, mode_rule,
}

-- Some rule text of the list parses to a network that contains the address.
abbrev pub covers_ip : Env → Ip → List Bytes → Bool
covers_ip env ip [] = false
covers_ip env ip (c ∷ cs) =
    (elim (rule_net env.parse_cidr env.parse_ip c) [ none ↦ false | some n ↦ net_contains n ip ])
    || covers_ip env ip cs

match_rules-append :
    (m n : IpMatcher) (ip : Ip)
    → match_rules (m ++ n) ip ≡ or_else (match_rules m ip) (match_rules n ip)
unfolding match_rules
match_rules-append [] n ip = refl
match_rules-append (r ∷ m) n ip = ground (arith, match_rules-append m n ip)

or_else-none : (o : Option RouteAction) → or_else o none ≡ o
or_else-none none = refl
or_else-none (some a) = refl

module _ (env : Env) (ip : Ip) where
  match_rules-add_cidr :
      (m : IpMatcher) (c : Bytes) (a : RouteAction)
      → match_rules (add_cidr env.parse_cidr env.parse_ip m c a) ip
        ≡ or_else (match_rules m ip) (if covers_ip env ip (c ∷ []) then some a else none)
  unfolding add_cidr match_rules
  match_rules-add_cidr m c a = elim (Option-cases (rule_net env.parse_cidr env.parse_ip c)) [
    | inl unparsed ↦ rw (add_cidr, unparsed) (sym (or_else-none (match_rules m ip)))
    | inr (n, parsed) ↦
        rw (add_cidr, parsed)
          (ground (arith, match_rules-append m (record { ip_net = n; action = a } ∷ []) ip))
  ]

  match_rules-add_cidrs :
      (m : IpMatcher) (cs : List Bytes) (a : RouteAction)
      → match_rules (add_cidrs env m cs a) ip
        ≡ or_else (match_rules m ip) (if covers_ip env ip cs then some a else none)
  unfolding add_cidrs
  match_rules-add_cidrs m [] a = ground arith
  match_rules-add_cidrs m (c ∷ cs) a = ground (
    arith,
    match_rules-add_cidrs (add_cidr env.parse_cidr env.parse_ip m c a) cs a,
    match_rules-add_cidr m c a,
  )

-- The first rule that contains an address decides, so a custom block rule comes before a direct
-- rule, and a direct rule before a proxy rule; texts that do not parse count for nothing.
pub match_rules-new_addresses :
    (env : Env) (cfg : Config) (ip : Ip)
    → match_rules (new_addresses env cfg) ip ≡ (
        if covers_ip env ip cfg.custom_block_ips
        then some block
        else if covers_ip env ip cfg.custom_direct_ips
        then some direct
        else if covers_ip env ip cfg.custom_proxy_ips
        then some proxy
        else none)
unfolding new_addresses match_rules
match_rules-new_addresses env cfg ip = ground (
  arith,
  match_rules-add_cidrs env ip [] cfg.custom_block_ips block,
  match_rules-add_cidrs env ip (add_cidrs env [] cfg.custom_block_ips block) cfg.custom_direct_ips
      direct,
  match_rules-add_cidrs env ip
      (add_cidrs env (add_cidrs env [] cfg.custom_block_ips block) cfg.custom_direct_ips direct)
      cfg.custom_proxy_ips proxy,
)

-- Where the address sends a destination in rule mode: the custom rules in the order block, direct,
-- proxy, then the Chinese ranges, which go direct; anything else, also no address, is proxied.
abbrev pub address_action : Env → Config → Option Ip → RouteAction
address_action env cfg none = proxy
address_action env cfg (some ip) =
    if covers_ip env ip cfg.custom_block_ips
    then block
    else if covers_ip env ip cfg.custom_direct_ips
    then direct
    else if covers_ip env ip cfg.custom_proxy_ips
    then proxy
    else if is_china_ip env.china4 env.china6 (some ip)
    then direct
    else proxy

pub route_ip-new_router :
    (env : Env) (cfg : Config) (ip : Option Ip)
    → effective_mode env cfg.mode ≡ mode_rule
    → route_ip env (new_router env cfg) ip ≡ address_action env cfg ip
unfolding route_ip new_router bytes_eq match_ip
route_ip-new_router env cfg none mode = refl
route_ip-new_router env cfg (some ip) mode =
    ground (arith, match_rules-new_addresses env cfg ip, ap (λ m. bytes_eq m mode_rule) mode)
