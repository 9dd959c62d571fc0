-- ===== src/Folotun/Endpoint/Dial.antt =====
-- `destination`, `DialTCP` and `DialUDP` of main/folotun/transport.go. `parse_address`, `dial` and
-- `dial_packets` stand for xnet.ParseAddress, core.Dial and core.DialUDP of Xray-core, which are given
-- a running instance; `ok` holds what they return, a connection or an error.
use folo_xray_apple.Prelude.{
  ℕ, ◌==◌, Option, none, some, ◌≤◌, ◌≡◌, ◌≢◌, ◌↔◌, arith, length, Outcome, ok, err, ◌>>=◌, ◌>>◌,
  fail_if, Bytes, >>=-returns,
}
use folo_xray_apple.Hostname.{IsHostname}
use folo_xray_apple.Folotun.Endpoint.{
  Ip, EndpointError, zero_port, nil_instance, Network, tcp, max_endpoint_address_length,
  validate_endpoint_address,
}
use folo_xray_apple.Folotun.Endpoint.Grammar.{validate_endpoint_address-IsHostname_iff}

pub record Destination (Address : Type 0) : Type 0 where
  pub address : Address
  pub port : ℕ
  pub network : Network

module _ (parse_ip : Bytes → Option Ip) {Address : Type 0} (parse_address : Bytes → Address) where
  unfoldable pub destination : Bytes → ℕ → Network → Outcome EndpointError (Destination Address)
  destination address port network = do
    fail_if (port == 0) zero_port
    validate_endpoint_address parse_ip address
    ok (record { address = parse_address address; port = port; network = network })

-- `DialUDP`
unfoldable pub dial_udp :
    {Instance Answer : Type 0}
    → (Instance → Answer)
    → Option Instance
    → Outcome EndpointError Answer
dial_udp dial_packets none = err nil_instance
dial_udp dial_packets (some i) = ok (dial_packets i)

module _ (parse_ip : Bytes → Option Ip) {Address Instance Answer : Type 0}
    (parse_address : Bytes → Address) where
  -- `DialTCP`
  unfoldable pub dial_tcp :
      (Instance → Destination Address → Answer)
      → Option Instance
      → Bytes
      → ℕ
      → Outcome EndpointError Answer
  unfolding destination
  dial_tcp dial none address port = err nil_instance
  dial_tcp dial (some i) address port = do
    dest ← destination parse_ip parse_address address port tcp
    ok (dial i dest)

  -- For an address that is no IP literal and a running instance, DialTCP returns what core.Dial answers
  -- for that address and port over TCP exactly if the port is not zero and the address is a DNS name of
  -- at most 253 bytes.
  pub dial_tcp-IsHostname_iff :
      (dial : Instance → Destination Address → Answer) (i : Instance) (address : Bytes) (port : ℕ)
      → parse_ip address ≡ none
      → (dial_tcp dial (some i) address port
          ≡ ok (dial i (record { address = parse_address address; port = port; network = tcp })))
        ↔ ((port ≢ 0) × (length address ≤ max_endpoint_address_length) × IsHostname address)
  unfolding dial_tcp destination
  dial_tcp-IsHostname_iff dial i address port n =
      let (named, valid) = validate_endpoint_address-IsHostname_iff parse_ip address n in
      (
        λ h.
            let (dest, e, f) =
              >>=-returns (destination parse_ip parse_address address port tcp) (λ d. ok (dial i d))
                h in
            let (u, open_port, rest) = >>=-returns (fail_if (port == 0) zero_port) _ e in
            let (v, checked, done) =
              >>=-returns (validate_endpoint_address parse_ip address) _ rest in
            let (short, name) = named checked in (ground arith, short, name),
        λ h. rw (valid (h.1, h.2)) (ground arith),
      )
