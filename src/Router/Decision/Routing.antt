-- ===== src/Router/Decision/Routing.antt =====
-- What `Route` (apple-wrapper/router/router.go) answers for a router that `NewRouter` made.
use folo_xray_apple.Prelude.{
  ℕ, ◌≤◌, ◌≡◌, ◌≢◌, ◌⊎◌, inl, inr, refl, sym, ap, ◌∙◌, subst, arith, true, false, [], ◌∷◌, Option,
  none, some, length, Bytes, Bool-cases, Option-cases, bytes_eq, is_empty, trim_space, to_lower,
}
use folo_xray_apple.Router.Rules.{RouteAction, lookup, or_else}
use folo_xray_apple.Router.Domains.{
  DomainMatcher, normal, match_suffix, match_suffixes, match_keywords, match_domain,
}
use folo_xray_apple.Router.Domains.Longest.{
  Covers, Longest, match_suffix-Longest, match_suffix-none,
}
use folo_xray_apple.Router.Ip.{Ip}
use folo_xray_apple.Router.Addresses.{is_private_ip}
use folo_xray_apple.Router.Decision.{
  Env, Config, mode_rule, mode_global, mode_direct, effective_mode, new_domains, new_router,
  route_ip, route_domain, route,
}
use folo_xray_apple.Router.Decision.AddressRules.{address_action, route_ip-new_router}
use folo_xray_apple.Router.Decision.Table.{
  suffix_action, lookup-new_domains, OnlySuffixes, new_domains-OnlySuffixes,
}

-- The domain that `Route` looks up.
abbrev pub looked_up : Env → Bytes → Bytes
looked_up env domain = normal env.wide_lower (trim_space domain)

-- The longest suffix with a rule that is the domain or a parent of it decides.
pub record RuledBy (env : Env) (cfg : Config) (d : Bytes) (a : RouteAction) : Type 0 where
  pub suffix : Bytes
  pub suffix_ne : suffix ≢ []
  pub covering : Covers suffix d
  pub decides : suffix_action env cfg suffix ≡ some a
  pub longest :
      (s : Bytes) (b : RouteAction)
      → s ≢ []
      → Covers s d
      → suffix_action env cfg s ≡ some b
      → length s ≤ length suffix

-- No suffix with a rule is the domain or a parent of it.
abbrev pub NotRuled : Env → Config → Bytes → Type 0
NotRuled env cfg d = (s : Bytes) → s ≢ [] → Covers s d → suffix_action env cfg s ≡ none

nil_empty : is_empty [] ≡ true
unfolding is_empty
nil_empty = refl

normal-nil : (env : Env) → normal env.wide_lower [] ≡ []
unfolding normal to_lower trim_space
normal-nil env = refl

is_empty-eq : (s : Bytes) → is_empty s ≡ true → s ≡ []
unfolding is_empty
is_empty-eq [] h = refl
is_empty-eq (c ∷ cs) h = cc

match_suffix-nil :
    (m : DomainMatcher) (s : Bytes)
    → OnlySuffixes m
    → is_empty s ≡ true
    → match_suffix m.suffixes s ≡ none
unfolding match_suffix match_suffixes
match_suffix-nil m s o h =
    subst (λ z. match_suffix m.suffixes z ≡ none) (sym (is_empty-eq s h)) (ground (arith, o.2))

match_keywords-nil :
    (m : DomainMatcher) (s : Bytes) → OnlySuffixes m → match_keywords m.keywords s ≡ none
unfolding match_keywords
match_keywords-nil m s o = ap (λ k. match_keywords k s) o.1

lookup-exact : (m : DomainMatcher) (s : Bytes) → OnlySuffixes m → lookup s m.exact ≡ none
unfolding lookup
lookup-exact m s o = ap (lookup s) o.0

or_else-none : (o : Option RouteAction) → or_else o none ≡ o
or_else-none none = refl
or_else-none (some a) = refl

match_domain-match_suffix :
    (env : Env) (m : DomainMatcher) (s : Bytes)
    → OnlySuffixes m
    → match_domain env.wide_lower m s ≡ match_suffix m.suffixes (normal env.wide_lower s)
unfolding match_domain
match_domain-match_suffix env m s o =
    let d = normal env.wide_lower s in
    ground (
      arith,
      match_suffix-nil m d o,
      match_keywords-nil m d o,
      lookup-exact m d o,
      or_else-none (match_suffix m.suffixes d),
    )

module _ (env : Env) (cfg : Config) (domain : Bytes) where
  -- Only the table of suffixes has a say.
  route_domain-match_suffix :
      route_domain env (new_router env cfg) domain
      ≡ match_suffix (new_domains env cfg).suffixes (looked_up env domain)
  unfolding route_domain new_router
  route_domain-match_suffix = elim (Bool-cases (is_empty (trim_space domain))) [
    | inr filled ↦ rw filled (
        match_domain-match_suffix env (new_domains env cfg) (trim_space domain)
          (new_domains-OnlySuffixes env cfg))
    | inl empty ↦ rw empty (
        sym (
          ap (λ z. match_suffix (new_domains env cfg).suffixes (normal env.wide_lower z))
            (is_empty-eq (trim_space domain) empty)
          ∙ ap (match_suffix (new_domains env cfg).suffixes) (normal-nil env)
          ∙ match_suffix-nil (new_domains env cfg) [] (new_domains-OnlySuffixes env cfg)
              (nil_empty)))
  ]

  RuledBy-Longest :
      (a : RouteAction)
      → Longest Covers (new_domains env cfg).suffixes (looked_up env domain) a
      → RuledBy env cfg (looked_up env domain) a
  RuledBy-Longest a l = record {
    suffix = l.suffix;
    suffix_ne = ne;
    covering = l.covering;
    decides = sym (lookup-new_domains env cfg l.suffix ne) ∙ l.registered;
    longest = λ s b n c e. l.longest s b n c (lookup-new_domains env cfg s n ∙ e);
  }
    where
      ne : l.suffix ≢ []
      ne e = cc (
        l.registered,
        ap (λ z. lookup z (new_domains env cfg).suffixes) e,
        (new_domains-OnlySuffixes env cfg).2,
      )

module _ (env : Env) (cfg : Config) (domain : Bytes) (ip : Option Ip) (port : ℕ)
    (mode : effective_mode env cfg.mode ≡ mode_rule) (public : is_private_ip ip ≡ false) where
  route_by_domain :
      (a : RouteAction)
      → route_domain env (new_router env cfg) domain ≡ some a
      → route env (new_router env cfg) domain ip port ≡ a
  unfolding route new_router bytes_eq
  route_by_domain a e =
      ground (arith, ap (λ m. bytes_eq m mode_global) mode, ap (λ m. bytes_eq m mode_direct) mode)

  route_by_ip :
      route_domain env (new_router env cfg) domain ≡ none
      → route env (new_router env cfg) domain ip port ≡ route_ip env (new_router env cfg) ip
  unfolding route new_router bytes_eq
  route_by_ip e =
      ground (arith, ap (λ m. bytes_eq m mode_global) mode, ap (λ m. bytes_eq m mode_direct) mode)

-- In rule mode a destination that is not private goes where the rule of the longest suffix sends
-- it that is the looked-up domain or a parent of it; where no such suffix has a rule, the custom
-- address rules decide, block before direct before proxy, then a Chinese address goes direct, and
-- anything else is proxied.
pub route_rule_mode :
    (env : Env) (cfg : Config) (domain : Bytes) (ip : Option Ip) (port : ℕ)
    → effective_mode env cfg.mode ≡ mode_rule
    → is_private_ip ip ≡ false
    → RuledBy env cfg (looked_up env domain) (route env (new_router env cfg) domain ip port)
      ⊎ (NotRuled env cfg (looked_up env domain)
          × (route env (new_router env cfg) domain ip port ≡ address_action env cfg ip))
route_rule_mode env cfg domain ip port mode public =
    let t = (new_domains env cfg).suffixes in
    let d = looked_up env domain in
    elim (Option-cases (match_suffix t d)) [
      | inr (a, found) ↦
          let here =
            route_by_domain env cfg domain ip port mode public a
              (route_domain-match_suffix env cfg domain ∙ found) in
          inl (
            subst (RuledBy env cfg d) (sym here)
              (RuledBy-Longest env cfg domain a (match_suffix-Longest t d a found)))
      | inl missing ↦ inr (
        λ s n c. sym (lookup-new_domains env cfg s n) ∙ match_suffix-none t d s missing n c,
        route_by_ip env cfg domain ip port mode public
              (route_domain-match_suffix env cfg domain ∙ missing)
            ∙ route_ip-new_router env cfg ip mode,
      )
    ]
