-- ===== src/Tests/Routing.antt =====
-- apple-wrapper/router at the inputs of router_test.go and china_ip_test.go.
use folo_xray_apple.Router.Ip.{v4_in_v6_prefix, Ip, IpNet, to4, net_contains}
use folo_xray_apple.Prelude.{
  ◌++◌, ◌≡◌, ◌⊎◌, inr, refl, arith, true, false, [], ◌∷◌, Option, none, some, text, Bytes, bytes_eq,
  is_empty, to_lower, trim_space, if◌then◌else◌,
}
use folo_xray_apple.Router.Rules.{direct, block, Table, lookup, insert}
use folo_xray_apple.Router.Domains.{normal, add_suffix, match_suffixes, match_suffix, match_domain}
use folo_xray_apple.Router.Domains.Longest.{match_suffix-none}
use folo_xray_apple.Router.Addresses.{rule_net, add_cidr, match_rules, is_private_ip}
use folo_xray_apple.Router.Addresses.Special.{is_private_ip-ipv4}
use folo_xray_apple.Router.China.{Ranges4, Ranges6, is_china_ipv4, is_china_wide}
use folo_xray_apple.Router.China.Ranges.{is_china_ipv4-in_some_range}
use folo_xray_apple.Router.China.Wide.{is_china_wide-in_some_range}
use folo_xray_apple.Router.Builtin.{builtin_direct_suffixes, builtin_block_suffixes}
use folo_xray_apple.Router.Decision.{
  Env, Config, mode_rule, effective_mode, add_suffixes, add_cidrs, new_domains, new_addresses,
  new_router, route,
}
use folo_xray_apple.Router.Decision.Table.{suffix_action, lookup-new_domains}
use folo_xray_apple.Router.Decision.AddressRules.{address_action, match_rules-new_addresses}
use folo_xray_apple.Router.Decision.Routing.{looked_up, RuledBy, NotRuled, route_rule_mode}
use folo_xray_apple.Router.Decision.Overrides.{route_builtin_direct}

-- Lower case beyond ASCII is not met below.
abbrev same : Bytes → Bytes
same s = s

-- The first rows of the tables of china_ip_data.go.
abbrev china4 : Ranges4
china4 =
    (0x01000100, 0x010001ff)
    ∷ (0x01000200, 0x010003ff)
    ∷ (0x01000800, 0x01000fff)
    ∷ (0x01002000, 0x01003fff)
    ∷ []

abbrev china6 : Ranges6
china6 = ((0x2001025000000000, 0), (0x20010253ffffffff, 0xffffffffffffffff)) ∷ []

-- A parser of two rule texts.
abbrev parse_cidr : Bytes → Option IpNet
parse_cidr s =
    if bytes_eq s (text "203.0.113.0/24")
    then some (record { ip = 203 ∷ 0 ∷ 113 ∷ 0 ∷ []; mask = 255 ∷ 255 ∷ 255 ∷ 0 ∷ [] })
    else none

abbrev pub env : Env
env = record {
  wide_lower = same;
  parse_cidr = parse_cidr;
  parse_ip = λ s. none;
  china4 = china4;
  china6 = china6;
}

abbrev custom : Config
custom = record {
  mode = mode_rule;
  custom_direct_domains = text "custom-direct.com" ∷ [];
  custom_proxy_domains = text "apple.com" ∷ [];
  custom_block_domains = text ".Custom-Block.com " ∷ [];
  custom_direct_ips = [];
  custom_proxy_ips = text "203.0.113.0/24" ∷ [];
  custom_block_ips = text "no address" ∷ text "203.0.113.0/24" ∷ [];
}

abbrev public_ip : Option Ip
public_ip = some (203 ∷ 0 ∷ 113 ∷ 9 ∷ [])

public_ip_test : is_private_ip public_ip ≡ false
unfolding is_private_ip
public_ip_test = refl

subdomain_test : route env (new_router env custom) (text "sub.custom-block.com") none 443 ≡ block
unfolding route new_router new_domains add_suffixes add_suffix new_addresses add_cidrs add_cidr
    rule_net normal to_lower trim_space is_empty bytes_eq insert lookup match_domain match_suffix
    match_suffixes is_private_ip builtin_direct_suffixes builtin_block_suffixes effective_mode
subdomain_test = refl

-- The custom proxy rule for apple.com has no effect.
route_builtin_direct_example :
    route env (new_router env custom) (text "Apple.com") public_ip 443 ≡ direct
unfolding effective_mode is_empty normal to_lower trim_space bytes_eq builtin_direct_suffixes
route_builtin_direct_example =
    route_builtin_direct env custom (text "Apple.com") public_ip 443 refl public_ip_test (λ e. cc)
      refl

lookup-new_domains_example :
    lookup (text "apple.com") (new_domains env custom).suffixes
    ≡ suffix_action env custom (text "apple.com")
lookup-new_domains_example = lookup-new_domains env custom (text "apple.com") (λ e. cc)

match_rules-new_addresses_example :
    match_rules (new_addresses env custom) (203 ∷ 0 ∷ 113 ∷ 9 ∷ []) ≡ some block
unfolding rule_net to4 net_contains bytes_eq
match_rules-new_addresses_example = match_rules-new_addresses env custom (203 ∷ 0 ∷ 113 ∷ 9 ∷ [])

abbrev table : Table
table = (text "com", direct) ∷ (text "example.com", block) ∷ []

table_test : match_suffix table (text "a.example.com") ≡ some block
unfolding match_suffix match_suffixes lookup bytes_eq is_empty
table_test = refl

table_miss : match_suffix table (text "example.org") ≡ none
unfolding match_suffix match_suffixes lookup bytes_eq is_empty
table_miss = refl

match_suffix-none_example : lookup (text "org") table ≡ none
match_suffix-none_example =
    match_suffix-none table (text "example.org") (text "org") table_miss (λ e. cc)
      (inr (text "example", refl))

is_private_ip-ipv4_example :
    (is_private_ip (some (100 ∷ 64 ∷ 0 ∷ 1 ∷ [])) ≡ true)
    × (is_private_ip (some (v4_in_v6_prefix ++ 100 ∷ 64 ∷ 0 ∷ 1 ∷ [])) ≡ true)
is_private_ip-ipv4_example =
    is_private_ip-ipv4 100 64 0 1 (omega arith) (omega arith) (omega arith) (omega arith)

is_china_ipv4-in_some_range_example : is_china_ipv4 china4 0x01000900 ≡ true
is_china_ipv4-in_some_range_example = is_china_ipv4-in_some_range china4 0x01000900 (omega arith)

is_china_wide-in_some_range_example : is_china_wide china6 (0x2001025012345678, 5) ≡ true
is_china_wide-in_some_range_example =
    is_china_wide-in_some_range china6 (0x2001025012345678, 5) (omega arith) (omega arith)
      (omega arith)

route_rule_mode_example :
    RuledBy env custom
      (looked_up env (text "www.apple.com"))
      (route env (new_router env custom) (text "www.apple.com") public_ip 443)
    ⊎ (NotRuled env custom (looked_up env (text "www.apple.com"))
        × (route env (new_router env custom) (text "www.apple.com") public_ip 443
            ≡ address_action env custom public_ip))
unfolding effective_mode is_empty
route_rule_mode_example =
    route_rule_mode env custom (text "www.apple.com") public_ip 443 refl public_ip_test
