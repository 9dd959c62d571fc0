-- ===== src/Router/Decision/Overrides.antt =====
-- Custom rules against the built-in ones, and the modes that ignore rules
-- (apple-wrapper/router/router.go).
use folo_xray_apple.Prelude.{
  ℕ, ◌≤◌, ◌≡◌, ◌≢◌, ◌↔◌, inl, inr, refl, ap, arith, true, false, [], ◌∷◌, Option, some, length,
  Bytes, bytes_eq, is_empty, if◌then◌else◌, length-append,
}
use folo_xray_apple.Router.Rules.{proxy, direct}
use folo_xray_apple.Router.Domains.Longest.{Covers}
use folo_xray_apple.Router.Ip.{Ip}
use folo_xray_apple.Router.Addresses.{is_private_ip}
use folo_xray_apple.Router.Builtin.{builtin_direct_suffixes}
use folo_xray_apple.Router.Decision.{
  Env, Config, mode_rule, mode_global, effective_mode, new_router, route,
}
use folo_xray_apple.Router.Decision.Table.{suffix_action, registers}
use folo_xray_apple.Router.Decision.Routing.{looked_up, route_rule_mode}

Covers-shorter : (s d : Bytes) → Covers s d → length d ≤ length s → d ≡ s
Covers-shorter s d (inl same) h = same
Covers-shorter s d (inr (front, later)) h =
    absurd (omega (arith, ap length later, length-append front (b'.' ∷ s)))

-- In rule mode, whatever the custom rules are, a public destination whose looked-up domain is one
-- of the built-in direct suffixes goes direct: a custom proxy or block rule for it has no effect.
pub route_builtin_direct :
    (env : Env) (cfg : Config) (domain : Bytes) (ip : Option Ip) (port : ℕ)
    → effective_mode env cfg.mode ≡ mode_rule
    → is_private_ip ip ≡ false
    → looked_up env domain ≢ []
    → registers env (looked_up env domain) builtin_direct_suffixes ≡ true
    → route env (new_router env cfg) domain ip port ≡ direct
unfolding bytes_eq
route_builtin_direct env cfg domain ip port mode public filled builtin =
    let d = looked_up env domain in
    let own : suffix_action env cfg d ≡ some direct =
      ground (arith, ap (λ m. bytes_eq m mode_rule) mode) in
    elim (route_rule_mode env cfg domain ip port mode public) [
      | inl r ↦
          let same =
            Covers-shorter r.suffix d r.covering (r.longest d direct filled (inl refl) own) in
          cc (r.decides, own, ap (suffix_action env cfg) same)
      | inr (unruled, _) ↦ absurd (cc (own, unruled d filled (inl refl)))
    ]

route_in_global :
    (env : Env) (cfg : Config) (domain : Bytes) (ip : Option Ip) (port : ℕ)
    → cfg.mode ≡ mode_global
    → route env (new_router env cfg) domain ip port ≡ (if is_private_ip ip then direct else proxy)
unfolding route new_router effective_mode bytes_eq is_empty
route_in_global env cfg domain ip port mode =
    ground (arith, ap (λ m. bytes_eq (effective_mode env m) mode_global) mode)

-- In global mode exactly the private destinations go direct, and all others to the proxy.
pub route_global :
    (env : Env) (cfg : Config) (domain : Bytes) (ip : Option Ip) (port : ℕ)
    → cfg.mode ≡ mode_global
    → ((route env (new_router env cfg) domain ip port ≡ direct) ↔ (is_private_ip ip ≡ true))
      × ((route env (new_router env cfg) domain ip port ≡ proxy) ↔ (is_private_ip ip ≡ false))
route_global env cfg domain ip port mode =
    ground (arith, route_in_global env cfg domain ip port mode)
