-- ===== src/Profile/Build/Whole.antt =====
-- `Config.Build` of main/folojson/folojson.go against the three profiles of the wrapper.
use folo_xray_apple.Prelude.{
  pos, ◌≡◌, refl, sym, ◌∙◌, ◌↔◌, ◌⊎◌, inl, inr, arith, false, [], ◌∷◌, Option, none, some, ok, text,
  bytes_eq, bytes_eq-eq, bytes_eq_refl, is_empty-eq, is_empty_nil, Outcome-cases,
}
use folo_xray_apple.Profile.Config.{
  Outbound, Routing, Config, Handler, dispatcher, inbound_manager, outbound_manager, stats_manager,
  CoreConfig,
}
use folo_xray_apple.Profile.Build.{
  Lib, build_vless, build_trojan, build_vmess, build_outbound, check_protocol, check_routing, build,
}
use folo_xray_apple.Profile.Build.Accepts.{IsVless, IsTrojan, IsVmess}
use folo_xray_apple.Profile.Build.Builders.{build_vless_iff, build_trojan_iff, build_vmess_iff}

-- The routing modes that the router knows, or none at all.
pub HasRoutingMode : Option Routing → Type 0
HasRoutingMode none = Unit {0}
HasRoutingMode (some r) =
    (r.mode ≡ []) ⊎ ((r.mode ≡ text "rule") ⊎ ((r.mode ≡ text "global") ⊎ (r.mode ≡ text "direct")))

nil-trojan : bytes_eq [] (text "trojan") ≡ false
unfolding bytes_eq
nil-trojan = refl

nil-vmess : bytes_eq [] (text "vmess") ≡ false
unfolding bytes_eq
nil-vmess = refl

vmess-trojan : bytes_eq (text "vmess") (text "trojan") ≡ false
unfolding bytes_eq
vmess-trojan = refl

module _ {Address Uuid : Type 0} (lib : Lib Address Uuid) where
  -- The version tells the protocol, and the outbound is a profile of it.
  pub IsProfile : Config → Handler Address → Type 0
  IsProfile c h =
      ((c.version ≡ pos 1) × (c.outbound.protocol ≡ []) × IsVless lib c.outbound h)
      ⊎ (((c.version ≡ pos 2) × (c.outbound.protocol ≡ text "trojan") × IsTrojan lib c.outbound h)
          ⊎ ((c.version ≡ pos 3) × (c.outbound.protocol ≡ text "vmess") × IsVmess lib c.outbound h))

  pub record IsAccepted (c : Config) (k : CoreConfig Address) : Type 0 where
    pub server : Handler Address
    pub mode : c.mode ≡ text "tun"
    pub routing : HasRoutingMode c.routing
    pub profile : IsProfile c server
    pub made : k ≡ record {
      apps = dispatcher ∷ inbound_manager ∷ outbound_manager ∷ stats_manager ∷ [];
      inbound = [];
      outbound = server ∷ [];
    }

  check_routing-HasRoutingMode : (r : Option Routing) → check_routing r ≡ ok tt → HasRoutingMode r
  unfolding check_routing HasRoutingMode
  check_routing-HasRoutingMode none h = tt
  check_routing-HasRoutingMode (some r) h = ground (
    arith,
    is_empty-eq r.mode,
    bytes_eq-eq r.mode (text "rule"),
    bytes_eq-eq r.mode (text "global"),
    bytes_eq-eq r.mode (text "direct"),
  )

  HasRoutingMode-check_routing : (r : Option Routing) → HasRoutingMode r → check_routing r ≡ ok tt
  unfolding check_routing HasRoutingMode
  HasRoutingMode-check_routing none h = refl
  HasRoutingMode-check_routing (some r) h = ground (
    arith,
    is_empty_nil,
    bytes_eq_refl (text "rule"),
    bytes_eq_refl (text "global"),
    bytes_eq_refl (text "direct"),
  )

  -- The builder that a protocol leads to.
  build_outbound-vless : (o : Outbound) → o.protocol ≡ [] → build_outbound lib o ≡ build_vless lib o
  unfolding build_outbound
  build_outbound-vless o e = ground (arith, nil-trojan, nil-vmess)

  build_outbound-trojan :
      (o : Outbound) → o.protocol ≡ text "trojan" → build_outbound lib o ≡ build_trojan lib o
  unfolding build_outbound
  build_outbound-trojan o e = ground (arith, bytes_eq_refl (text "trojan"))

  build_outbound-vmess :
      (o : Outbound) → o.protocol ≡ text "vmess" → build_outbound lib o ≡ build_vmess lib o
  unfolding build_outbound
  build_outbound-vmess o e = ground (arith, vmess-trojan, bytes_eq_refl (text "vmess"))

  build_outbound-IsProfile :
      (c : Config) (h : Handler Address)
      → check_protocol c.version c.outbound.protocol ≡ ok tt
      → ((c.version ≡ pos 1) ⊎ ((c.version ≡ pos 2) ⊎ (c.version ≡ pos 3)))
      → build_outbound lib c.outbound ≡ ok h
      → IsProfile c h
  unfolding check_protocol IsProfile
  build_outbound-IsProfile c h p (inl e) b =
      let none_given : c.outbound.protocol ≡ [] = ground (arith, is_empty-eq c.outbound.protocol) in
      let built = build_outbound-vless c.outbound none_given in
      inl (e, none_given, (build_vless_iff lib c.outbound h).0 (sym built ∙ b))
  build_outbound-IsProfile c h p (inr (inl e)) b =
      let given : c.outbound.protocol ≡ text "trojan" =
        ground (arith, bytes_eq-eq c.outbound.protocol (text "trojan")) in
      let built = build_outbound-trojan c.outbound given in
      inr (inl (e, given, (build_trojan_iff lib c.outbound h).0 (sym built ∙ b)))
  build_outbound-IsProfile c h p (inr (inr e)) b =
      let given : c.outbound.protocol ≡ text "vmess" =
        ground (arith, bytes_eq-eq c.outbound.protocol (text "vmess")) in
      let built = build_outbound-vmess c.outbound given in
      inr (inr (e, given, (build_vmess_iff lib c.outbound h).0 (sym built ∙ b)))

  IsProfile-build_outbound :
      (c : Config) (h : Handler Address)
      → IsProfile c h
      → (check_protocol c.version c.outbound.protocol ≡ ok tt)
        × (build_outbound lib c.outbound ≡ ok h)
        × ((c.version ≡ pos 1) ⊎ ((c.version ≡ pos 2) ⊎ (c.version ≡ pos 3)))
  unfolding check_protocol IsProfile
  IsProfile-build_outbound c h (inl (e, p, v)) = (
    ground (arith, is_empty_nil),
    build_outbound-vless c.outbound p ∙ (build_vless_iff lib c.outbound h).1 v,
    inl e,
  )
  IsProfile-build_outbound c h (inr (inl (e, p, v))) = (
    ground (arith, bytes_eq_refl (text "trojan")),
    build_outbound-trojan c.outbound p ∙ (build_trojan_iff lib c.outbound h).1 v,
    inr (inl e),
  )
  IsProfile-build_outbound c h (inr (inr (e, p, v))) = (
    ground (arith, bytes_eq_refl (text "vmess")),
    build_outbound-vmess c.outbound p ∙ (build_vmess_iff lib c.outbound h).1 v,
    inr (inr e),
  )

  -- `Config.Build` accepts exactly the three profiles: version 1 with VLESS and REALITY, version 2 with
  -- Trojan and TLS, version 3 with VMess and TLS, each in mode "tun" over TCP to a named endpoint, with a
  -- routing mode that the router knows; Trojan has no UUID, flow, encryption or REALITY, VMess no
  -- password, flow or REALITY, while VLESS may have a password and a server name, which are not used. It
  -- makes of each the configuration with this one server, tagged "proxy", and no inbound.
  pub build-ok_iff : (c : Config) (k : CoreConfig Address) → (build lib c ≡ ok k) ↔ IsAccepted c k
  unfolding build
  build-ok_iff c k = (
    λ e. elim (Outcome-cases (build_outbound lib c.outbound)) [
      | inr bad ↦ ground arith
      | inl (h, b) ↦
          let protocol : check_protocol c.version c.outbound.protocol ≡ ok tt = ground arith in
          let known : (c.version ≡ pos 1) ⊎ ((c.version ≡ pos 2) ⊎ (c.version ≡ pos 3)) =
            ground arith in
          let routed : check_routing c.routing ≡ ok tt = ground arith in
          record {
            server = h;
            mode = ground (arith, bytes_eq-eq c.mode (text "tun"));
            routing = check_routing-HasRoutingMode c.routing routed;
            profile = build_outbound-IsProfile c h protocol known b;
            made = ground arith;
          }
    ],
    λ a.
        let (protocol, built, known) = IsProfile-build_outbound c a.server a.profile in
        let routed = HasRoutingMode-check_routing c.routing a.routing in
        ground (arith, bytes_eq_refl (text "tun")),
  )
