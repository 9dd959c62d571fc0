-- ===== src/Profile/Config.antt =====
-- upstream/xray-core/main/folojson/folojson.go: the profile after JSON decoding, and the configuration
-- of Xray-core that `Build` makes of it. A string is its bytes; `version`, an int, is a number with its
-- sign. `StreamConfig` keeps what its typed messages hold.
use folo_xray_apple.Prelude.{ℕ, ℤ, pos, negsuc, Bool, false, ◌==◌, List, Option, Bytes}

abbrev pub is_version : ℤ → ℕ → Bool
is_version (pos n) k = n == k
is_version (negsuc n) k = false

pub record Reality : Type 0 where
  pub server_name : Bytes
  pub fingerprint : Bytes
  pub public_key : Bytes
  pub short_id : Bytes
  pub spider_x : Bytes

pub record Outbound : Type 0 where
  pub protocol : Bytes
  pub address : Bytes
  pub port : ℕ
  pub uuid : Bytes
  pub password : Bytes
  pub flow : Bytes
  pub encryption : Bytes
  pub transport : Bytes
  pub security : Bytes
  pub server_name : Bytes
  pub reality : Option Reality

pub record Routing : Type 0 where
  pub mode : Bytes
  pub custom_direct_domains : List Bytes
  pub custom_proxy_domains : List Bytes
  pub custom_block_domains : List Bytes
  pub custom_direct_ips : List Bytes
  pub custom_proxy_ips : List Bytes
  pub custom_block_ips : List Bytes

pub record Config : Type 0 where
  pub version : ℤ
  pub mode : Bytes
  pub outbound : Outbound
  pub routing : Option Routing

-- The errors, in the order of the source.
pub data ProfileError : Type 0 where
  not_a_reader read_failed empty_or_too_large decode_failed trailing_data trailing_decode_failed :
      ProfileError
  unsupported_version mode_not_tun unexpected_protocol not_trojan not_vmess : ProfileError
  unsupported_routing_mode address_required port_out_of_range address_invalid : ProfileError
  uuid_invalid flow_required encryption_required not_tcp_reality reality_required : ProfileError
  password_invalid server_name_invalid not_tcp_tls foreign_fields security_unapproved : ProfileError
  reality_server_name fingerprint_required public_key_invalid short_id_invalid : ProfileError

pub data SecurityType : Type 0 where
  auto aes128_gcm chacha20_poly1305 : SecurityType

-- `reality.Config`, or `tls.Config` from version 1.2 to 1.3.
pub data Security : Type 0 where
  reality_settings : (server_name fingerprint public_key short_id spider_x : Bytes) → Security
  tls_settings : (server_name min_version max_version : Bytes) → Security

pub record StreamConfig : Type 0 where
  pub protocol_name : Bytes
  pub security : Security

pub data Account : Type 0 where
  vless_account : (id flow encryption : Bytes) → Account
  trojan_account : (password : Bytes) → Account
  vmess_account : (id : Bytes) → SecurityType → Account

pub record Endpoint (Address : Type 0) : Type 0 where
  pub address : Address
  pub port : ℕ
  pub account : Account

-- `OutboundHandlerConfig`. The account tells the protocol of the proxy settings.
pub record Handler (Address : Type 0) : Type 0 where
  pub tag : Bytes
  pub stream : StreamConfig
  pub server : Endpoint Address

pub data App : Type 0 where
  dispatcher inbound_manager outbound_manager stats_manager : App

-- `core.Config`; it names no inbound.
pub record CoreConfig (Address : Type 0) : Type 0 where
  pub apps : List App
  pub inbound : List (Handler Address)
  pub outbound : List (Handler Address)
