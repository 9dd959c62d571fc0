-- ===== src/Wrapper/Sniffer/Hello.antt =====
-- The ClientHello of TLS, as RFC 8446 and RFC 6066 lay it out, in which `sniffTLS` of
-- apple-wrapper/sniffer.go looks for a name.
pub mod Names
pub mod Found
use folo_xray_apple.Prelude.{
  ℕ, ◌+◌, ◌/◌, ◌%◌, ◌≤◌, ◌≡◌, ◌≢◌, List, [], ◌∷◌, ◌++◌, length, All, Bytes,
}

-- A kind of 16 bits and a body with its length.
pub record Extension : Type 0 where
  pub kind : ℕ
  pub body : Bytes

abbrev pub wire_extension : Extension → Bytes
wire_extension e =
    (e.kind / 256) ∷ (e.kind % 256) ∷ (length e.body / 256) ∷ (length e.body % 256) ∷ e.body

abbrev pub wire_extensions : List Extension → Bytes
wire_extensions [] = []
wire_extensions (e ∷ es) = wire_extension e ++ wire_extensions es

-- An entry of a server name list: a kind of 8 bits and a body with its length.
pub record NameEntry : Type 0 where
  pub kind : ℕ
  pub body : Bytes

abbrev pub wire_name : NameEntry → Bytes
wire_name e = e.kind ∷ (length e.body / 256) ∷ (length e.body % 256) ∷ e.body

abbrev pub wire_names : List NameEntry → Bytes
wire_names [] = []
wire_names (e ∷ es) = wire_name e ++ wire_names es

-- The parts of a ClientHello up to the host name; `rest` is whatever the stream holds after it, and the
-- lengths that reach beyond the name are only said.
pub record Hello : Type 0 where
  pub record_minor : ℕ
  pub record_length_high : ℕ
  pub record_length_low : ℕ
  pub fixed : Bytes
  pub session : Bytes
  pub suites : Bytes
  pub methods : Bytes
  pub extensions_length : ℕ
  pub others : List Extension
  pub server_name_length : ℕ
  pub list_length : ℕ
  pub names : List NameEntry
  pub name : Bytes
  pub rest : Bytes

abbrev pub host_entry : Bytes → NameEntry
host_entry name = record { kind = 0; body = name }

abbrev pub from_names : Hello → Bytes
from_names h = wire_names h.names ++ (wire_name (host_entry h.name) ++ h.rest)

abbrev pub from_server_name : Hello → Bytes
from_server_name h =
    0
    ∷ 0
    ∷ (h.server_name_length / 256)
    ∷ (h.server_name_length % 256)
    ∷ (h.list_length / 256)
    ∷ (h.list_length % 256)
    ∷ from_names h

abbrev pub from_extensions : Hello → Bytes
from_extensions h =
    (h.extensions_length / 256)
    ∷ (h.extensions_length % 256)
    ∷ (wire_extensions h.others ++ from_server_name h)

abbrev pub from_methods : Hello → Bytes
from_methods h = length h.methods ∷ (h.methods ++ from_extensions h)

abbrev pub from_suites : Hello → Bytes
from_suites h = (length h.suites / 256) ∷ (length h.suites % 256) ∷ (h.suites ++ from_methods h)

abbrev pub from_session : Hello → Bytes
from_session h = length h.session ∷ (h.session ++ from_suites h)

-- The record header, the handshake type 1, and `fixed`: the handshake's length, version and random.
abbrev pub wire_hello : Hello → Bytes
wire_hello h =
    0x16
    ∷ 3
    ∷ h.record_minor
    ∷ h.record_length_high
    ∷ h.record_length_low
    ∷ 1
    ∷ (h.fixed ++ from_session h)

-- The lengths reach at least to the end of the name; the extensions before it are others than
-- server_name, and the entries before it others than host names.
pub record IsHello (h : Hello) : Type 0 where
  pub fixed : length h.fixed ≡ 37
  pub others : All (λ e. e.kind ≢ 0) h.others
  pub names : All (λ e. e.kind ≢ 0) h.names
  pub extensions_length :
      length (wire_extensions h.others) + 9 + length (wire_names h.names) + length h.name
      ≤ h.extensions_length
  pub list_length : length (wire_names h.names) + 3 + length h.name ≤ h.list_length
