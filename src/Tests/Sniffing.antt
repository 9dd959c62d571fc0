-- ===== src/Tests/Sniffing.antt =====
-- apple-wrapper/sniffer.go at the inputs of sniffer_test.go.
use folo_xray_apple.Prelude.{
  [], is_ascii, lower_byte, arith, ◌≤◌, All, Lacks, ℕ, zero, suc, ◌≡◌, refl, ◌∷◌, ok, err, text,
  Bytes, index, slice, uint16_in, is_empty, has_prefix, to_lower, trim_space, none, bytes_eq, split,
}
use folo_xray_apple.Wrapper.Sniffer.Hello.{Hello, wire_hello, IsHello}
use folo_xray_apple.Wrapper.Sniffer.Hello.Found.{sniff_domain-finds}
use folo_xray_apple.Wrapper.Sniffer.Http.{
  HttpRequest, lines_of, wire_request, IsHttpRequest, sniff_domain-host,
}
use folo_xray_apple.Tests.Profiles.{edge-IsHostname}
use folo_xray_apple.Wrapper.Sniffer.{
  server_names, server_name, extensions, after_suites, after_random, sniff_tls, split_lines,
  before_colon, is_request, host_of_line, find_host, sniff_http, sniff_domain,
}
use folo_xray_apple.Hostname.{bad_shape, all_ldh}
use folo_xray_apple.Folotun.Endpoint.{
  validate_endpoint_address, any_forbidden, check_labels, invalid_ascii_name,
}

abbrev same : Bytes → Bytes
same s = s

abbrev pub up_to : ℕ → Bytes → Bytes
up_to zero bytes = bytes
up_to (suc n) bytes = up_to n (n ∷ bytes)

-- The ClientHello of TestSniffTLSClientHello.
abbrev client_hello : Bytes
client_hello =
    0x16
    ∷ 3
    ∷ 1
    ∷ 0
    ∷ 0x47
    ∷ 1
    ∷ 0
    ∷ 0
    ∷ 0x43
    ∷ 3
    ∷ 3
    ∷ up_to 32 (
        0
        ∷ 0
        ∷ 2
        ∷ 0x13
        ∷ 1
        ∷ 1
        ∷ 0
        ∷ 0
        ∷ 0x16
        ∷ 0
        ∷ 0
        ∷ 0
        ∷ 0x11
        ∷ 0
        ∷ 0x0f
        ∷ 0
        ∷ 0
        ∷ 0x0c
        ∷ text "bilibili.com")

client_hello_test : sniff_domain same client_hello ≡ ok (text "bilibili.com")
unfolding sniff_domain sniff_tls after_random after_suites extensions server_name server_names index
    slice uint16_in to_lower is_empty
client_hello_test = refl

http_test :
    sniff_domain same (
      text
        "GET /index.html HTTP/1.1\r\nHost: www.baidu.com:443\r\nUser-Agent: curl/7.68.0\r\nAccept: */*\r\n\r\n")
    ≡ ok (text "www.baidu.com")
unfolding sniff_domain sniff_tls index sniff_http is_request find_host host_of_line split_lines
    before_colon has_prefix slice uint16_in to_lower trim_space is_empty
http_test = refl

-- The host of an IPv6 literal is cut within it, and no address to dial.
ipv6_host_test :
    (sniff_domain same (text "GET / HTTP/1.1\r\nHost: [2001:db8::1]:80\r\n\r\n")
      ≡ ok (text "[2001"))
    × (validate_endpoint_address (λ s. none) (text "[2001") ≡ err invalid_ascii_name)
unfolding sniff_domain sniff_tls index sniff_http is_request find_host host_of_line split_lines
    before_colon has_prefix slice uint16_in to_lower trim_space is_empty validate_endpoint_address
    bytes_eq any_forbidden check_labels bad_shape all_ldh split
ipv6_host_test = (refl, refl)

-- The ClientHello of TestSniffTLSClientHello by its parts, with an extension in front and a name in
-- capitals.
abbrev pub named_hello : Hello
named_hello = record {
  record_minor = 1;
  record_length_high = 0;
  record_length_low = 0x47;
  fixed = 0 ∷ 0 ∷ 0x43 ∷ 3 ∷ 3 ∷ up_to 32 [];
  session = [];
  suites = 0x13 ∷ 1 ∷ [];
  methods = 0 ∷ [];
  extensions_length = 400;
  others = record { kind = 43; body = 2 ∷ 3 ∷ 4 ∷ [] } ∷ [];
  server_name_length = 0x11;
  list_length = 0x0f;
  names = [];
  name = text "BiliBili.com";
  rest = 9 ∷ 9 ∷ [];
}

pub named_hello-IsHello : IsHello named_hello
named_hello-IsHello = record {
  fixed = refl;
  others = (λ e. omega (arith, e), tt);
  names = tt;
  extensions_length = omega arith;
  list_length = omega arith;
}

sniff_domain-finds_example : sniff_domain same (wire_hello named_hello) ≡ ok (text "bilibili.com")
unfolding is_ascii lower_byte
sniff_domain-finds_example = sniff_domain-finds same named_hello named_hello-IsHello refl (λ e. cc)

abbrev request : HttpRequest
request = record {
  before = text "GET / HTTP/1.1" ∷ text "Accept: */*" ∷ [];
  field = text "HOST:";
  gap = 2;
  host = text "edge.example";
  port = text ":8080";
  after = text "X: y" ∷ [] ∷ [] ∷ [];
}

request-IsHttpRequest : IsHttpRequest same request
unfolding is_request has_prefix to_lower is_ascii lower_byte
request-IsHttpRequest = record {
  method = refl;
  lines = lacks;
  before = (refl, (refl, tt));
  host_line = refl;
  field = refl;
  host = edge-IsHostname;
  port = (refl, (λ e. cc), digits);
}
  where
    lacks : All (Lacks b'\r') (lines_of request)
    lacks = omega arith

    digits : All (λ d. (b'0' ≤ d) × (d ≤ b'9')) (text "8080")
    digits = omega arith

sniff_domain-host_example : sniff_domain same (wire_request request) ≡ ok (text "edge.example")
unfolding lower_byte
sniff_domain-host_example = sniff_domain-host same request request-IsHttpRequest
