-- ===== src/Folotun/Endpoint.antt =====
-- main/folotun/transport.go: the endpoint addresses that the wrapper may dial. `parse_ip` stands for
-- net.ParseIP. A string is read byte by byte: a byte below 0x80 is a rune of its own in every
-- string, and a rune above passes or fails the tests below as each of its bytes does.
pub mod Grammar
pub mod Dial
use folo_xray_apple.Prelude.{
  ℕ, suc, Bool, true, false, not, ◌&&◌, ◌||◌, List, [], ◌∷◌, Option, none, some, ltb, ◌==◌,
  if◌then◌else◌, length, Outcome, ok, err, ◌>>=◌, ◌>>◌, fail_if, Bytes, bytes_eq, is_empty, split,
  trim_space,
}
use folo_xray_apple.Hostname.{bad_shape, all_ldh}

pub data EndpointError : Type 0 where
  padded_or_too_long forbidden_character invalid_dns_name invalid_ascii_name : EndpointError
  zero_port nil_instance : EndpointError

-- `r < 0x20 || r == 0x7f || r == '/' || r == '\\'`
unfoldable pub forbidden : ℕ → Bool
forbidden r = ltb r 0x20 || r == 0x7f || r == b'/' || r == b'\\'

unfoldable pub any_forbidden : Bytes → Bool
unfolding forbidden
any_forbidden [] = false
any_forbidden (r ∷ rs) = forbidden r || any_forbidden rs

unfoldable pub check_labels : List Bytes → Outcome EndpointError (Unit {0})
check_labels [] = ok tt
check_labels (label ∷ labels) =
    fail_if (bad_shape label) invalid_dns_name
    >> fail_if (not (all_ldh label)) invalid_ascii_name
    >> check_labels labels

abbrev pub max_endpoint_address_length : ℕ
max_endpoint_address_length = 253

pub data Network : Type 0 where
  tcp udp : Network

-- An IP address as a Go byte slice.
abbrev pub Ip : Type 0
Ip = Bytes

module _ (parse_ip : Bytes → Option Ip) where
  abbrev is_ip : Bytes → Bool
  is_ip s = elim (parse_ip s) [ none ↦ false | some ip ↦ true ]

  -- A split has at least one label, so `len(labels) == 0` never holds.
  unfoldable pub validate_endpoint_address : Bytes → Outcome EndpointError (Unit {0})
  validate_endpoint_address address = do
    fail_if
        (is_empty address
          || ltb max_endpoint_address_length (length address)
          || not (bytes_eq (trim_space address) address))
        padded_or_too_long
    fail_if (any_forbidden address) forbidden_character
    if is_ip address then ok tt else check_labels (split b'.' address)
