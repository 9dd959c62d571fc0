-- ===== src/Profile/Build/Accepts.antt =====
-- The profiles that `Build` (main/folojson/folojson.go) accepts, described without the order of its
-- checks, and what it makes of them.
use folo_xray_apple.Prelude.{
  ◌≤◌, ◌≡◌, ◌≢◌, inl, inr, arith, Bool, true, false, [], none, some, length, ok, text, Bytes,
  Outcome-cases,
}
use folo_xray_apple.Profile.Hex.{decode_hex, IsHexText, decode_hex-IsHexText, IsHexText-decode_hex}
use folo_xray_apple.Profile.Base64.{decode_base64, decode_url_base64}
use folo_xray_apple.Profile.Base64.Order.{decode_url_base64-ok_iff}
use folo_xray_apple.Profile.Config.{
  Reality, Outbound, SecurityType, Security, reality_settings, vless_account, trojan_account,
  vmess_account, Handler,
}
use folo_xray_apple.Profile.Build.{
  Lib, is_blank, handler, tls_of, xrv, parse_vmess_security, build_reality, check_endpoint,
  valid_server_name,
}

-- A 32-byte key in one of the four encodings of base 64.
pub record IsKeyText (s key : Bytes) : Type 0 where
  pub url : Bool
  pub padded : Bool
  pub reads : decode_base64 url padded s ≡ ok key
  pub size : length key ≡ 32

pub record IsReality (r : Reality) (s : Security) : Type 0 where
  pub key : Bytes
  pub short_id : Bytes
  pub named : is_blank r.server_name ≡ false
  pub short : length r.server_name ≤ 253
  pub fingerprint : is_blank r.fingerprint ≡ false
  pub key_text : IsKeyText r.public_key key
  pub short_id_text : IsHexText 8 r.short_id
  pub short_id_reads : decode_hex r.short_id ≡ ok short_id
  pub settings : s ≡ reality_settings r.server_name r.fingerprint key short_id r.spider_x

pub build_reality-IsReality : (r : Reality) (s : Security) → build_reality r ≡ ok s → IsReality r s
unfolding build_reality
build_reality-IsReality r s h = elim (Outcome-cases (decode_url_base64 r.public_key)) [
  | inr bad ↦ ground arith
  | inl (key, reads) ↦ elim (Outcome-cases (decode_hex r.short_id)) [
    | inr bad ↦ ground arith
    | inl (short_id, digits) ↦
        let (u, p, decodes) = (decode_url_base64-ok_iff r.public_key key).0 reads in
        let hex = IsHexText-decode_hex r.short_id short_id digits in
        record {
          key = key;
          short_id = short_id;
          named = ground arith;
          short = ground arith;
          fingerprint = ground arith;
          key_text = record { url = u; padded = p; reads = decodes; size = ground arith };
          short_id_text = record { size = ground arith; digits = hex.digits };
          short_id_reads = digits;
          settings = ground arith;
        }
  ]
]

pub IsReality-build_reality : (r : Reality) (s : Security) → IsReality r s → build_reality r ≡ ok s
unfolding build_reality
IsReality-build_reality r s h =
    let key : decode_url_base64 r.public_key ≡ ok h.key =
      (decode_url_base64-ok_iff r.public_key h.key).1
        (h.key_text.url, h.key_text.padded, h.key_text.reads) in
    let (bytes, e, size, _) = decode_hex-IsHexText 8 r.short_id h.short_id_text in ground arith

-- What the accepted profiles have in common.
pub record IsEndpoint {Address Uuid : Type 0} (lib : Lib Address Uuid) (o : Outbound) (a : Address)
    : Type 0 where
  pub named : is_blank o.address ≡ false
  pub short : length o.address ≤ 253
  pub port : o.port ≢ 0
  pub parses : lib.parse_address o.address ≡ some a

module _ {Address Uuid : Type 0} (lib : Lib Address Uuid) where
  pub check_endpoint-IsEndpoint :
      (o : Outbound) (a : Address) → check_endpoint lib o ≡ ok a → IsEndpoint lib o a
  unfolding check_endpoint
  check_endpoint-IsEndpoint o a h = ground arith

  pub IsEndpoint-check_endpoint :
      (o : Outbound) (a : Address) → IsEndpoint lib o a → check_endpoint lib o ≡ ok a
  unfolding check_endpoint
  IsEndpoint-check_endpoint o a h = ground arith

  -- A VLESS profile: XTLS vision over TCP with REALITY, and no more encryption. Its password and its
  -- server name may be anything.
  pub record IsVless (o : Outbound) (h : Handler Address) : Type 0 where
    pub address : Address
    pub id : Uuid
    pub reality : Reality
    pub settings : Security
    pub endpoint : IsEndpoint lib o address
    pub uuid : lib.parse_uuid o.uuid ≡ ok id
    pub flow : o.flow ≡ xrv
    pub encryption : o.encryption ≡ text "none"
    pub transport : o.transport ≡ text "tcp"
    pub security : o.security ≡ text "reality"
    pub has_reality : o.reality ≡ some reality
    pub reality_settings : IsReality reality settings
    pub made :
        h ≡ handler settings address o.port (vless_account (lib.uuid_text id) o.flow o.encryption)

  -- A Trojan profile: a password over TCP with TLS, and no UUID, flow, encryption or REALITY.
  pub record IsTrojan (o : Outbound) (h : Handler Address) : Type 0 where
    pub address : Address
    pub endpoint : IsEndpoint lib o address
    pub password : is_blank o.password ≡ false
    pub short : length o.password ≤ 256
    pub server_name : valid_server_name lib o.server_name ≡ true
    pub transport : o.transport ≡ text "tcp"
    pub security : o.security ≡ text "tls"
    pub uuid : o.uuid ≡ []
    pub flow : o.flow ≡ []
    pub encryption : o.encryption ≡ []
    pub reality : o.reality ≡ none
    pub made : h ≡ handler (tls_of o) address o.port (trojan_account o.password)

  -- A VMess profile: an AEAD over TCP with TLS, and no password, flow or REALITY.
  pub record IsVmess (o : Outbound) (h : Handler Address) : Type 0 where
    pub address : Address
    pub id : Uuid
    pub kind : SecurityType
    pub endpoint : IsEndpoint lib o address
    pub uuid : lib.parse_uuid o.uuid ≡ ok id
    pub approved : parse_vmess_security o.encryption ≡ ok kind
    pub transport : o.transport ≡ text "tcp"
    pub security : o.security ≡ text "tls"
    pub server_name : valid_server_name lib o.server_name ≡ true
    pub password : o.password ≡ []
    pub flow : o.flow ≡ []
    pub reality : o.reality ≡ none
    pub made : h ≡ handler (tls_of o) address o.port (vmess_account (lib.uuid_text id) kind)
