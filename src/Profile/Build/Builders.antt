-- ===== src/Profile/Build/Builders.antt =====
-- The three builders of main/folojson/folojson.go against the profiles that they are for.
use folo_xray_apple.Prelude.{
  is_empty-eq, is_empty_nil, ◌≡◌, ◌↔◌, inl, inr, arith, ok, text, bytes_eq-eq, bytes_eq_refl,
  Outcome-cases, Option-cases,
}
use folo_xray_apple.Profile.Config.{Outbound, Handler}
use folo_xray_apple.Profile.Build.{
  Lib, xrv, parse_vmess_security, build_reality, check_endpoint, build_vless, build_trojan,
  build_vmess,
}
use folo_xray_apple.Profile.Build.Accepts.{
  IsVless, IsTrojan, IsVmess, build_reality-IsReality, IsReality-build_reality,
  check_endpoint-IsEndpoint, IsEndpoint-check_endpoint,
}

module _ {Address Uuid : Type 0} (lib : Lib Address Uuid) where
  build_vless-IsVless :
      (o : Outbound) (h : Handler Address) → build_vless lib o ≡ ok h → IsVless lib o h
  unfolding build_vless
  build_vless-IsVless o h e = elim (Outcome-cases (check_endpoint lib o)) [
    | inr bad ↦ ground arith
    | inl (address, reads) ↦ elim (Outcome-cases (lib.parse_uuid o.uuid)) [
      | inr bad ↦ ground arith
      | inl (id, known) ↦ elim (Option-cases o.reality) [
        | inl missing ↦ ground arith
        | inr (reality, present) ↦ elim (Outcome-cases (build_reality reality)) [
          | inr bad ↦ ground arith
          | inl (settings, built) ↦ record {
            address = address;
            id = id;
            reality = reality;
            settings = settings;
            endpoint = check_endpoint-IsEndpoint lib o address reads;
            uuid = known;
            flow = ground (arith, bytes_eq-eq o.flow xrv);
            encryption = ground (arith, bytes_eq-eq o.encryption (text "none"));
            transport = ground (arith, bytes_eq-eq o.transport (text "tcp"));
            security = ground (arith, bytes_eq-eq o.security (text "reality"));
            has_reality = present;
            reality_settings = build_reality-IsReality reality settings built;
            made = ground arith;
          }
        ]
      ]
    ]
  ]

  IsVless-build_vless :
      (o : Outbound) (h : Handler Address) → IsVless lib o h → build_vless lib o ≡ ok h
  unfolding build_vless
  IsVless-build_vless o h v =
      let e = IsEndpoint-check_endpoint lib o v.address v.endpoint in
      let r = IsReality-build_reality v.reality v.settings v.reality_settings in
      ground (
        arith,
        bytes_eq_refl xrv,
        bytes_eq_refl (text "none"),
        bytes_eq_refl (text "tcp"),
        bytes_eq_refl (text "reality"),
      )

  build_trojan-IsTrojan :
      (o : Outbound) (h : Handler Address) → build_trojan lib o ≡ ok h → IsTrojan lib o h
  unfolding build_trojan
  build_trojan-IsTrojan o h e = elim (Outcome-cases (check_endpoint lib o)) [
    | inr bad ↦ ground arith
    | inl (address, reads) ↦ record {
      address = address;
      endpoint = check_endpoint-IsEndpoint lib o address reads;
      password = ground arith;
      short = ground arith;
      server_name = ground arith;
      transport = ground (arith, bytes_eq-eq o.transport (text "tcp"));
      security = ground (arith, bytes_eq-eq o.security (text "tls"));
      uuid = ground (arith, is_empty-eq o.uuid);
      flow = ground (arith, is_empty-eq o.flow);
      encryption = ground (arith, is_empty-eq o.encryption);
      reality = ground arith;
      made = ground arith;
    }
  ]

  IsTrojan-build_trojan :
      (o : Outbound) (h : Handler Address) → IsTrojan lib o h → build_trojan lib o ≡ ok h
  unfolding build_trojan
  IsTrojan-build_trojan o h t =
      let e = IsEndpoint-check_endpoint lib o t.address t.endpoint in
      ground (arith, bytes_eq_refl (text "tcp"), bytes_eq_refl (text "tls"), is_empty_nil)

  build_vmess-IsVmess :
      (o : Outbound) (h : Handler Address) → build_vmess lib o ≡ ok h → IsVmess lib o h
  unfolding build_vmess
  build_vmess-IsVmess o h e = elim (Outcome-cases (check_endpoint lib o)) [
    | inr bad ↦ ground arith
    | inl (address, reads) ↦ elim (Outcome-cases (lib.parse_uuid o.uuid)) [
      | inr bad ↦ ground arith
      | inl (id, known) ↦ elim (Outcome-cases (parse_vmess_security o.encryption)) [
        | inr bad ↦ ground arith
        | inl (kind, approved) ↦ record {
          address = address;
          id = id;
          kind = kind;
          endpoint = check_endpoint-IsEndpoint lib o address reads;
          uuid = known;
          approved = approved;
          transport = ground (arith, bytes_eq-eq o.transport (text "tcp"));
          security = ground (arith, bytes_eq-eq o.security (text "tls"));
          server_name = ground arith;
          password = ground (arith, is_empty-eq o.password);
          flow = ground (arith, is_empty-eq o.flow);
          reality = ground arith;
          made = ground arith;
        }
      ]
    ]
  ]

  IsVmess-build_vmess :
      (o : Outbound) (h : Handler Address) → IsVmess lib o h → build_vmess lib o ≡ ok h
  unfolding build_vmess
  IsVmess-build_vmess o h v =
      let e = IsEndpoint-check_endpoint lib o v.address v.endpoint in
      ground (arith, bytes_eq_refl (text "tcp"), bytes_eq_refl (text "tls"), is_empty_nil)

  pub build_vless_iff :
      (o : Outbound) (h : Handler Address) → (build_vless lib o ≡ ok h) ↔ IsVless lib o h
  build_vless_iff o h = (build_vless-IsVless o h, IsVless-build_vless o h)

  pub build_trojan_iff :
      (o : Outbound) (h : Handler Address) → (build_trojan lib o ≡ ok h) ↔ IsTrojan lib o h
  build_trojan_iff o h = (build_trojan-IsTrojan o h, IsTrojan-build_trojan o h)

  pub build_vmess_iff :
      (o : Outbound) (h : Handler Address) → (build_vmess lib o ≡ ok h) ↔ IsVmess lib o h
  build_vmess_iff o h = (build_vmess-IsVmess o h, IsVmess-build_vmess o h)
