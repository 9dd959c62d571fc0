-- ===== src/Tests/Profiles.antt =====
-- main/folojson/folojson.go on the profiles of folojson_test.go, and its theorems at concrete inputs.
use folo_xray_apple.Prelude.{
  pos, ℕ, ◌≡◌, ◌≤◌, ◌<◌, ◌↔◌, refl, arith, Bool, true, false, [], ◌∷◌, none, some, ok, err, text,
  Bytes, ◌==◌, bytes_eq, if◌then◌else◌, length, take, trim_space, is_empty, zero, suc,
}
use folo_xray_apple.Hostname.{IsHostname, bad_shape, all_ldh, all_ldh-IsLabel}
use folo_xray_apple.Folotun.Stream.{Reader, got, broke}
use folo_xray_apple.Wrapper.Engine
use folo_xray_apple.Wrapper.Engine.{init, Answers, copy_config, start_json, status_ok}
use folo_xray_apple.Wrapper.Engine.Profiles.{with_loader, start_profile, start_json-IsAccepted_iff}
use folo_xray_apple.Tests.Routing.{env}
use folo_xray_apple.Profile.Hex.{corrupt, decode_hex}
use folo_xray_apple.Profile.Base64.{decode_base64, decode_url_base64}
use folo_xray_apple.Profile.Base64.Order.{decode_url_base64-ok_iff}
use folo_xray_apple.Profile.Base64.RoundTrip.{encode_base64, decode_url_base64-encode_base64}
use folo_xray_apple.Profile.Config.{
  Reality, Outbound, Config, foreign_fields, not_tcp_tls, not_tcp_reality, unexpected_protocol,
  password_invalid, Handler, dispatcher, inbound_manager, outbound_manager, stats_manager,
  CoreConfig, auto, vless_account, trojan_account, vmess_account, reality_settings,
}
use folo_xray_apple.Profile.Build.{
  Lib, handler, tls_of, has_slash_or_space, valid_server_name, check_endpoint, parse_vmess_security,
  build_reality, build_vless, build_trojan, build_vmess, build_outbound, check_protocol,
  check_routing, build, xrv,
}
use folo_xray_apple.Profile.Build.Whole.{IsAccepted, build-ok_iff}
use folo_xray_apple.Profile.Load.{Json, at_end, value, load}
use folo_xray_apple.Profile.Load.Configs.{IsWhole, load-copy_config}

-- An address is its text, and a UUID is a text of 36 bytes.
abbrev lib : Lib Bytes Bytes
lib = record {
  parse_address = λ s. some s;
  parse_uuid = λ s. if length s == 36 then ok s else err corrupt;
  uuid_text = λ s. s;
}

abbrev uuid : Bytes
uuid = text "00000000-0000-0000-0000-000000000001"

abbrev reality : Reality
reality = record {
  server_name = text "www.example.com";
  fingerprint = text "chrome";
  public_key = text "AAAAAAAAAAAAAAAAAAAAAAAAAAAAAAAAAAAAAAAAAAA";
  short_id = text "0123456789abcdef";
  spider_x = text "/";
}

abbrev blank : Outbound
blank = record {
  protocol = [];
  address = text "edge.example.com";
  port = 443;
  uuid = [];
  password = [];
  flow = [];
  encryption = [];
  transport = text "tcp";
  security = text "tls";
  server_name = text "edge.example.com";
  reality = none;
}

abbrev vless : Outbound
vless = record blank {
  uuid = uuid;
  flow = xrv;
  encryption = text "none";
  security = text "reality";
  server_name = [];
  reality = some reality;
}

abbrev trojan : Outbound
trojan = record blank { protocol = text "trojan"; password = text "lease-password" }

abbrev vmess : Outbound
vmess = record blank { protocol = text "vmess"; uuid = uuid; encryption = text "auto" }

abbrev profile : ℕ → Outbound → Config
profile version o = record {
  version = pos version;
  mode = text "tun";
  outbound = o;
  routing = none;
}

abbrev core_of : Handler Bytes → CoreConfig Bytes
core_of h = record {
  apps = dispatcher ∷ inbound_manager ∷ outbound_manager ∷ stats_manager ∷ [];
  inbound = [];
  outbound = h ∷ [];
}

abbrev key : Bytes
key =
    0 ∷ 0 ∷ 0 ∷ 0 ∷ 0 ∷ 0 ∷ 0 ∷ 0 ∷ 0 ∷ 0 ∷ 0 ∷ 0 ∷ 0 ∷ 0 ∷ 0 ∷ 0 ∷ 0 ∷ 0 ∷ 0 ∷ 0 ∷ 0 ∷ 0 ∷ 0 ∷ 0
    ∷ 0 ∷ 0 ∷ 0 ∷ 0 ∷ 0 ∷ 0 ∷ 0 ∷ 0 ∷ []

abbrev vless_core : CoreConfig Bytes
vless_core = core_of (
    handler
      (reality_settings (text "www.example.com") (text "chrome") key
        (1 ∷ 35 ∷ 69 ∷ 103 ∷ 137 ∷ 171 ∷ 205 ∷ 239 ∷ []) (text "/"))
      (text "edge.example.com") 443 (vless_account uuid xrv (text "none")))

abbrev trojan_core : CoreConfig Bytes
trojan_core =
    core_of (
      handler (tls_of blank) (text "edge.example.com") 443 (trojan_account (text "lease-password")))

-- TestLoadBuildsOnlyManagedOutbound
vless_built : build lib (profile 1 vless) ≡ ok vless_core
unfolding build is_empty bytes_eq check_protocol check_routing build_outbound build_vless
    check_endpoint build_reality decode_url_base64 decode_base64 decode_hex trim_space
vless_built = refl

-- TestLoadBuildsManagedTrojanOutbound
trojan_built : build lib (profile 2 trojan) ≡ ok trojan_core
unfolding build is_empty bytes_eq check_protocol check_routing build_outbound build_trojan
    check_endpoint valid_server_name trim_space
trojan_built = refl

-- TestLoadBuildsManagedVMessOutbound
vmess_built :
    build lib (profile 3 vmess)
    ≡ ok (core_of (handler (tls_of blank) (text "edge.example.com") 443 (vmess_account uuid auto)))
unfolding build is_empty bytes_eq check_protocol check_routing build_outbound build_vmess
    check_endpoint valid_server_name trim_space parse_vmess_security
vmess_built = refl

-- TestLoadRejectsNonRealityOutbound
vless_over_tls :
    build lib (profile 1 (record vless { security = text "tls" })) ≡ err not_tcp_reality
unfolding build is_empty bytes_eq check_protocol check_routing build_outbound build_vless
    check_endpoint trim_space
vless_over_tls = refl

-- TestLoadRejectsUnsafeTrojanSurface
trojan_unsafe :
    (build lib (profile 1 trojan) ≡ err unexpected_protocol)
    × (build lib (profile 2 (record trojan { security = text "none" })) ≡ err not_tcp_tls)
    × (build lib (profile 2 (record trojan { uuid = uuid })) ≡ err foreign_fields)
    × (build lib (profile 2 (record trojan { password = [] })) ≡ err password_invalid)
unfolding build is_empty bytes_eq check_protocol check_routing build_outbound build_trojan
    check_endpoint valid_server_name trim_space
trojan_unsafe = (refl, refl, refl, refl)

-- A name that no label of DNS allows.
bad_name_built : valid_server_name lib (text "-bad-") ≡ true
unfolding valid_server_name is_empty trim_space has_slash_or_space
bad_name_built = refl

build-ok_iff_example :
    (build lib (profile 1 vless) ≡ ok vless_core) ↔ IsAccepted lib (profile 1 vless) vless_core
build-ok_iff_example = build-ok_iff lib (profile 1 vless) vless_core

decode_url_base64-ok_iff_example :
    (decode_url_base64 (text "AQ==") ≡ ok (1 ∷ []))
    ↔ ((url : Bool) × (padded : Bool) × (decode_base64 url padded (text "AQ==") ≡ ok (1 ∷ [])))
decode_url_base64-ok_iff_example = decode_url_base64-ok_iff (text "AQ==") (1 ∷ [])

decode_url_base64-encode_base64_example :
    decode_url_base64 (encode_base64 false true (251 ∷ 255 ∷ [])) ≡ ok (251 ∷ 255 ∷ [])
decode_url_base64-encode_base64_example =
    decode_url_base64-encode_base64 false true (251 ∷ 255 ∷ []) (omega arith, (omega arith, tt))

-- net.ParseAddress takes this text for a domain, so the labels are not looked at.
bad_name_accepted : valid_server_name lib (text " -bad- ") ≡ true
unfolding valid_server_name trim_space is_empty has_slash_or_space
bad_name_accepted = refl

-- The decoder of the text "{}", which stands for the Trojan profile.
abbrev json : Json
json = record {
  decode_config = λ s. if bytes_eq s (text "{}") then some (profile 2 trojan, []) else none;
  decode_any = λ s. if length s == 0 then at_end else value;
}

abbrev in_two : Reader
in_two = got (text "{") ∷ got (text "}") ∷ []

copied : copy_config (some (text "{} ")) 2 ≡ some (text "{}")
unfolding copy_config
copied = refl

load-copy_config_example :
    (load lib json (some in_two) ≡ ok trojan_core)
    ↔ ((c : Config) × IsWhole json (text "{}") c × IsAccepted lib c trojan_core)
load-copy_config_example =
    load-copy_config lib json (text "{} ") 2 (text "{}") in_two trojan_core (omega arith) copied tt
      refl

spaces : ℕ → Bytes
spaces zero = []
spaces (suc n) = b' ' ∷ spaces n

length-spaces : (n : ℕ) → length (spaces n) ≡ n
unfolding spaces
length-spaces zero = refl
length-spaces (suc n) = omega (arith, length-spaces n)

abbrev failing_later : ℕ → Reader
failing_later n = got (text "{") ∷ got (spaces n) ∷ broke ∷ []

pub edge-IsHostname : IsHostname (text "edge.example")
unfolding bad_shape all_ldh
edge-IsHostname = record {
  labels = text "edge" ∷ text "example" ∷ [];
  some_label = λ e. cc;
  each =
      (all_ldh-IsLabel (text "edge") refl refl, (all_ldh-IsLabel (text "example") refl refl, tt));
  joined = refl;
}

-- Xray-core runs each configuration that the loader makes.
abbrev engine : Answers (CoreConfig Bytes)
engine = with_loader lib json (record {
  load_config = λ s. none;
  creates = λ k. true;
  starts = true;
  closes = true;
  routing = λ s. none;
  creates_stack = true;
  now = 7;
})

start_json-IsAccepted_iff_example :
    ((q : Engine.Process) × (start_profile lib json engine (some (text "{}")) 2 init
        ≡ ok (status_ok, q)))
    ↔ ((0 < 2)
        × (2 ≤ Engine.max_config_bytes)
        × (c : Config) × (k : CoreConfig Bytes) × IsWhole json (take 2 (text "{}")) c
        × IsAccepted lib c k
        × (engine.creates k ≡ true)
        × (engine.starts ≡ true))
start_json-IsAccepted_iff_example =
    start_json-IsAccepted_iff lib json env engine (text "{}") 2 init
      (record { no_instance = refl; state = refl; no_stack = refl; closed = refl }) (omega arith)
