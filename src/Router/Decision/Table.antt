-- ===== src/Router/Decision/Table.antt =====
-- What the table of suffixes holds after `NewRouter` (apple-wrapper/router/router.go).
use folo_xray_apple.Prelude.{
  ◌≡◌, ◌≢◌, refl, arith, Bool, false, ◌&&◌, ◌||◌, List, [], ◌∷◌, Option, none, some, if◌then◌else◌,
  Bytes, Bool-cases, inl, inr, bytes_eq, bytes_eq_iff, is_empty,
}
use folo_xray_apple.Router.Rules.{RouteAction, proxy, direct, block, lookup, lookup-insert}
use folo_xray_apple.Router.Domains.{DomainMatcher, new_domain_matcher, trim_dot, normal, add_suffix}
use folo_xray_apple.Router.Builtin.{builtin_direct_suffixes, builtin_block_suffixes}
use folo_xray_apple.Router.Decision.{
  Env, Config, mode_rule, effective_mode, add_suffixes, new_domains,
}

-- The suffix that a rule text registers, in lower case, trimmed and without a leading dot.
abbrev pub suffix_of : Env → Bytes → Bytes
suffix_of env d = trim_dot (normal env.wide_lower d)

-- Some text of the list registers this suffix.
abbrev pub registers : Env → Bytes → List Bytes → Bool
registers env s [] = false
registers env s (d ∷ ds) = bytes_eq (suffix_of env d) s || registers env s ds

module _ (env : Env) where
  lookup-add_suffix :
      (m : DomainMatcher) (d s : Bytes) (a : RouteAction)
      → is_empty s ≡ false
      → lookup s (add_suffix env.wide_lower m d a).suffixes
        ≡ (if bytes_eq (suffix_of env d) s then some a else lookup s m.suffixes)
  unfolding add_suffix
  lookup-add_suffix m d s a n =
      ground
        (arith, bytes_eq_iff (suffix_of env d) s, lookup-insert (suffix_of env d) s a m.suffixes)

  lookup-add_suffixes :
      (m : DomainMatcher) (ds : List Bytes) (s : Bytes) (a : RouteAction)
      → is_empty s ≡ false
      → lookup s (add_suffixes env m ds a).suffixes
        ≡ (if registers env s ds then some a else lookup s m.suffixes)
  unfolding add_suffixes
  lookup-add_suffixes m [] s a n = refl
  lookup-add_suffixes m (d ∷ ds) s a n = ground (
    arith,
    lookup-add_suffixes (add_suffix env.wide_lower m d a) ds s a n,
    lookup-add_suffix m d s a n,
  )

-- Who has the last word on a suffix: the built-in rules in rule mode, direct before block, and then
-- the custom proxy, direct and block domains, in this order.
abbrev pub suffix_action : Env → Config → Bytes → Option RouteAction
suffix_action env cfg s =
    if bytes_eq (effective_mode env cfg.mode) mode_rule && registers env s builtin_direct_suffixes
    then some direct
    else if bytes_eq (effective_mode env cfg.mode) mode_rule
        && registers env s builtin_block_suffixes
    then some block
    else if registers env s cfg.custom_proxy_domains
    then some proxy
    else if registers env s cfg.custom_direct_domains
    then some direct
    else if registers env s cfg.custom_block_domains
    then some block
    else none

-- `NewRouter` registers for each suffix the action of the last rule about it: a built-in rule
-- replaces every custom rule, and a custom proxy rule replaces a custom block rule.
pub lookup-new_domains :
    (env : Env) (cfg : Config) (s : Bytes)
    → s ≢ []
    → lookup s (new_domains env cfg).suffixes ≡ suffix_action env cfg s
unfolding new_domains lookup is_empty
lookup-new_domains env cfg [] n = absurd (n refl)
lookup-new_domains env cfg (c ∷ cs) n = ground (
  arith,
  lookup-add_suffixes env m0 cfg.custom_block_domains s block refl,
  lookup-add_suffixes env m1 cfg.custom_direct_domains s direct refl,
  lookup-add_suffixes env m2 cfg.custom_proxy_domains s proxy refl,
  lookup-add_suffixes env m3 builtin_block_suffixes s block refl,
  lookup-add_suffixes env m4 builtin_direct_suffixes s direct refl,
)
  where
    s : Bytes
    s = c ∷ cs

    m0 : DomainMatcher
    m0 = new_domain_matcher

    m1 : DomainMatcher
    m1 = add_suffixes env m0 cfg.custom_block_domains block

    m2 : DomainMatcher
    m2 = add_suffixes env m1 cfg.custom_direct_domains direct

    m3 : DomainMatcher
    m3 = add_suffixes env m2 cfg.custom_proxy_domains proxy

    m4 : DomainMatcher
    m4 = add_suffixes env m3 builtin_block_suffixes block

-- Only suffixes are ever added, and never the empty one.
abbrev pub OnlySuffixes : DomainMatcher → Type 0
OnlySuffixes m = (m.exact ≡ []) × (m.keywords ≡ []) × (lookup [] m.suffixes ≡ none)

module _ (env : Env) where
  add_suffix-OnlySuffixes :
      (m : DomainMatcher) (d : Bytes) (a : RouteAction)
      → OnlySuffixes m
      → OnlySuffixes (add_suffix env.wide_lower m d a)
  unfolding add_suffix is_empty
  add_suffix-OnlySuffixes m d a o =
      ground
        (arith, bytes_eq_iff (suffix_of env d) [], lookup-insert (suffix_of env d) [] a m.suffixes)

  add_suffixes-OnlySuffixes :
      (m : DomainMatcher) (ds : List Bytes) (a : RouteAction)
      → OnlySuffixes m
      → OnlySuffixes (add_suffixes env m ds a)
  unfolding add_suffixes
  add_suffixes-OnlySuffixes m [] a o = o
  add_suffixes-OnlySuffixes m (d ∷ ds) a o =
      add_suffixes-OnlySuffixes (add_suffix env.wide_lower m d a) ds a
        (add_suffix-OnlySuffixes m d a o)

  pub new_domains-OnlySuffixes : (cfg : Config) → OnlySuffixes (new_domains env cfg)
  unfolding new_domains lookup
  new_domains-OnlySuffixes cfg =
      let custom = add_suffixes-OnlySuffixes _ cfg.custom_proxy_domains proxy (
        add_suffixes-OnlySuffixes _ cfg.custom_direct_domains direct (
          add_suffixes-OnlySuffixes new_domain_matcher cfg.custom_block_domains block
            (refl, refl, refl))) in
      elim (Bool-cases (bytes_eq (effective_mode env cfg.mode) mode_rule)) [
        | inl rule ↦ rw rule (
            add_suffixes-OnlySuffixes _ builtin_direct_suffixes direct
              (add_suffixes-OnlySuffixes _ builtin_block_suffixes block custom))
        | inr other ↦ rw other custom
      ]
