-- ===== src/Profile/Build.antt =====
-- upstream/xray-core/main/folojson/folojson.go: `Build` of the profile and of its parts.
-- net.ParseAddress, `none` for nil, and uuid.ParseString of Xray-core are parameters; `address_of` and
-- `uuid_text` stand for net.NewIPOrDomain and UUID.String.
pub mod Names
pub mod Accepts
pub mod Builders
pub mod Whole
use folo_xray_apple.Prelude.{
  ℤ, ℕ, Bool, true, false, not, ◌&&◌, ◌||◌, List, [], ◌∷◌, Option, none, some, ltb, ◌==◌,
  if◌then◌else◌, length, Outcome, ok, err, panic, ◌>>=◌, ◌>>◌, fail_if, text, Bytes, bytes_eq,
  is_empty, trim_space, split,
}
use folo_xray_apple.Hostname.{bad_shape, all_ldh}
use folo_xray_apple.Profile.Hex.{Corrupt, decode_hex}
use folo_xray_apple.Profile.Base64.{decode_url_base64}
use folo_xray_apple.Profile.Config.{
  is_version, Reality, Outbound, Routing, Config, ProfileError, unsupported_version, mode_not_tun,
  unexpected_protocol, not_trojan, not_vmess, unsupported_routing_mode, address_required,
  port_out_of_range, address_invalid, uuid_invalid, flow_required, encryption_required,
  not_tcp_reality, reality_required, password_invalid, server_name_invalid, not_tcp_tls,
  foreign_fields, security_unapproved, reality_server_name, fingerprint_required,
  public_key_invalid, short_id_invalid, SecurityType, auto, aes128_gcm, chacha20_poly1305, Security,
  reality_settings, tls_settings, StreamConfig, Account, vless_account, trojan_account,
  vmess_account, Endpoint, Handler, App, dispatcher, inbound_manager, outbound_manager,
  stats_manager, CoreConfig,
}

pub record Lib (Address Uuid : Type 0) : Type 0 where
  pub parse_address : Bytes → Option Address
  pub parse_uuid : Bytes → Outcome Corrupt Uuid
  pub uuid_text : Uuid → Bytes

-- `if err != nil { return nil, e }`
abbrev pub or_fail : {A : Type 0} → ProfileError → Outcome Corrupt A → Outcome ProfileError A
or_fail e (ok a) = ok a
or_fail e (err c) = err e
or_fail e panic = panic

-- `if x == nil { return nil, e }`
abbrev pub or_missing : {A : Type 0} → ProfileError → Option A → Outcome ProfileError A
or_missing e none = err e
or_missing e (some a) = ok a

abbrev pub is_some : {A : Type 0} → Option A → Bool
is_some none = false
is_some (some a) = true

-- `strings.TrimSpace(s) == ""`
abbrev pub is_blank : Bytes → Bool
is_blank s = is_empty (trim_space s)

-- `strings.ContainsAny(value, "/ ")`
unfoldable pub has_slash_or_space : Bytes → Bool
has_slash_or_space [] = false
has_slash_or_space (c ∷ cs) = c == b'/' || c == b' ' || has_slash_or_space cs

-- The loop of `validServerName` over the labels.
unfoldable pub valid_labels : List Bytes → Bool
valid_labels [] = true
valid_labels (label ∷ labels) = not (bad_shape label) && all_ldh label && valid_labels labels

abbrev pub xrv : Bytes
xrv = text "xtls-rprx-vision"

unfoldable pub parse_vmess_security : Bytes → Outcome ProfileError SecurityType
parse_vmess_security value =
    if bytes_eq value (text "auto")
    then ok auto
    else if bytes_eq value (text "aes-128-gcm")
    then ok aes128_gcm
    else if bytes_eq value (text "chacha20-poly1305")
    then ok chacha20_poly1305
    else err security_unapproved

-- `Reality.Build`
unfoldable pub build_reality : Reality → Outcome ProfileError Security
build_reality r = do
  fail_if (is_blank r.server_name || ltb 253 (length r.server_name)) reality_server_name
  fail_if (is_blank r.fingerprint) fingerprint_required
  public_key ← or_fail public_key_invalid (decode_url_base64 r.public_key)
  fail_if (not (length public_key == 32)) public_key_invalid
  short_id ← or_fail short_id_invalid (decode_hex r.short_id)
  fail_if (not (length short_id == 8)) short_id_invalid
  ok (reality_settings r.server_name r.fingerprint public_key short_id r.spider_x)

-- The handler with tag "proxy" over TCP.
abbrev pub handler : {Address : Type 0} → Security → Address → ℕ → Account → Handler Address
handler security address port account = record {
  tag = text "proxy";
  stream = record { protocol_name = text "tcp"; security = security };
  server = record { address = address; port = port; account = account };
}

abbrev pub tls_of : Outbound → Security
tls_of o = tls_settings o.server_name (text "1.2") (text "1.3")

module _ {Address Uuid : Type 0} (lib : Lib Address Uuid) where
  -- `validServerName`
  unfoldable pub valid_server_name : Bytes → Bool
  unfolding has_slash_or_space valid_labels
  valid_server_name value =
      let name = trim_space value in
      if is_empty name || ltb 253 (length name) || has_slash_or_space name
      then false
      else if is_some (lib.parse_address name)
      then true
      else valid_labels (split b'.' name)

  -- The checks of the address and the port, which the three builders begin with.
  unfoldable pub check_endpoint : Outbound → Outcome ProfileError Address
  check_endpoint o = do
    fail_if (is_blank o.address || ltb 253 (length o.address)) address_required
    fail_if (o.port == 0) port_out_of_range
    or_missing address_invalid (lib.parse_address o.address)

  unfoldable pub build_vless : Outbound → Outcome ProfileError (Handler Address)
  build_vless o = do
    address ← check_endpoint o
    id ← or_fail uuid_invalid (lib.parse_uuid o.uuid)
    fail_if (not (bytes_eq o.flow xrv)) flow_required
    fail_if (not (bytes_eq o.encryption (text "none"))) encryption_required
    fail_if (not (bytes_eq o.transport (text "tcp")) || not (bytes_eq o.security (text "reality")))
        not_tcp_reality
    reality ← or_missing reality_required o.reality
    settings ← build_reality reality
    ok (handler settings address o.port (vless_account (lib.uuid_text id) o.flow o.encryption))

  unfoldable pub build_trojan : Outbound → Outcome ProfileError (Handler Address)
  build_trojan o = do
    address ← check_endpoint o
    fail_if (is_blank o.password || ltb 256 (length o.password)) password_invalid
    fail_if (not (valid_server_name o.server_name)) server_name_invalid
    fail_if (not (bytes_eq o.transport (text "tcp")) || not (bytes_eq o.security (text "tls")))
        not_tcp_tls
    fail_if
        (not (is_empty o.uuid)
          || not (is_empty o.flow)
          || not (is_empty o.encryption)
          || is_some o.reality)
        foreign_fields
    ok (handler (tls_of o) address o.port (trojan_account o.password))

  unfoldable pub build_vmess : Outbound → Outcome ProfileError (Handler Address)
  build_vmess o = do
    address ← check_endpoint o
    id ← or_fail uuid_invalid (lib.parse_uuid o.uuid)
    security_type ← parse_vmess_security o.encryption
    fail_if (not (bytes_eq o.transport (text "tcp")) || not (bytes_eq o.security (text "tls")))
        not_tcp_tls
    fail_if (not (valid_server_name o.server_name)) server_name_invalid
    fail_if (not (is_empty o.password) || not (is_empty o.flow) || is_some o.reality) foreign_fields
    ok (handler (tls_of o) address o.port (vmess_account (lib.uuid_text id) security_type))

  -- `Outbound.Build`
  unfoldable pub build_outbound : Outbound → Outcome ProfileError (Handler Address)
  build_outbound o =
      if bytes_eq o.protocol (text "trojan")
      then build_trojan o
      else if bytes_eq o.protocol (text "vmess")
      then build_vmess o
      else build_vless o

-- The protocol discriminator that a version asks for.
unfoldable pub check_protocol : ℤ → Bytes → Outcome ProfileError (Unit {0})
check_protocol version protocol =
    if is_version version 1
    then fail_if (not (is_empty protocol)) unexpected_protocol
    else if is_version version 2
    then fail_if (not (bytes_eq protocol (text "trojan"))) not_trojan
    else if is_version version 3
    then fail_if (not (bytes_eq protocol (text "vmess"))) not_vmess
    else ok tt

unfoldable pub check_routing : Option Routing → Outcome ProfileError (Unit {0})
check_routing none = ok tt
check_routing (some r) =
    fail_if
      (not (
        is_empty r.mode
        || bytes_eq r.mode (text "rule")
        || bytes_eq r.mode (text "global")
        || bytes_eq r.mode (text "direct")))
      unsupported_routing_mode

module _ {Address Uuid : Type 0} (lib : Lib Address Uuid) where
  -- `Config.Build`
  unfoldable pub build : Config → Outcome ProfileError (CoreConfig Address)
  build c = do
    fail_if
        (not (is_version c.version 1)
          && not (is_version c.version 2)
          && not (is_version c.version 3))
        unsupported_version
    fail_if (not (bytes_eq c.mode (text "tun"))) mode_not_tun
    check_protocol c.version c.outbound.protocol
    check_routing c.routing
    outbound ← build_outbound lib c.outbound
    ok (record {
      apps = dispatcher ∷ inbound_manager ∷ outbound_manager ∷ stats_manager ∷ [];
      inbound = [];
      outbound = outbound ∷ [];
    })
