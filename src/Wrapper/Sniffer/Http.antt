-- ===== src/Wrapper/Sniffer/Http.antt =====
-- A request of HTTP/1.1 with a Host field, in which `sniffHTTP` of apple-wrapper/sniffer.go looks for a
-- name.
use mathlib.Core.List.{append-nil}
use folo_xray_apple.Prelude.{
  zero, suc, ℕ, ◌≤◌, ◌≡◌, ◌≢◌, refl, sym, ap, ◌∙◌, inl, inr, arith, Bool, true, false, ltb, List,
  [], ◌∷◌, ◌++◌, All, Lacks, length, length-append, drop-length-append, drop, map, lower_byte,
  is_ascii, index-ok, ok, err, Bytes, text, has_prefix, to_lower, is_empty_nil, index, trim_space,
  trim_space_front, Bool-cases,
}
use folo_xray_apple.Hostname.{IsAlnum, IsHostname}
use folo_xray_apple.Hostname.Ends.{append-Ends, IsHostname-Ends, All-Ends, trim_space-Ends}
use folo_xray_apple.Hostname.Labels.{IsNameByte, IsHostname-IsNameByte}
use folo_xray_apple.Wrapper.Sniffer.Reads.{slice-at}
use folo_xray_apple.Wrapper.Sniffer.{
  Miss, no_name, split_lines, before_colon, is_request, host_of_line, find_host, sniff_http,
  sniff_tls, sniff_domain,
}

-- Lines with "\r\n" between them.
abbrev pub join_lines : List Bytes → Bytes
join_lines [] = []
join_lines (line ∷ []) = line
join_lines (line ∷ next ∷ lines) = line ++ b'\r' ∷ b'\n' ∷ join_lines (next ∷ lines)

split_lines-last : (line : Bytes) → Lacks b'\r' line → split_lines false line ≡ line ∷ []
unfolding split_lines
split_lines-last [] h = refl
split_lines-last (c ∷ cs) h = ground (arith, split_lines-last cs h.1)

split_lines-append :
    (line rest : Bytes)
    → Lacks b'\r' line
    → split_lines false (line ++ b'\r' ∷ b'\n' ∷ rest) ≡ line ∷ split_lines false rest
unfolding split_lines
split_lines-append [] rest h = refl
split_lines-append (c ∷ cs) rest h = ground (arith, split_lines-append cs rest h.1)

pub split_lines-join_lines :
    (lines : List Bytes)
    → lines ≢ []
    → All (Lacks b'\r') lines
    → split_lines false (join_lines lines) ≡ lines
split_lines-join_lines [] n h = absurd (n refl)
split_lines-join_lines (line ∷ []) n h = split_lines-last line h.0
split_lines-join_lines (line ∷ next ∷ lines) n h =
    split_lines-append line (join_lines (next ∷ lines)) h.0
    ∙ ap (◌∷◌ line) (split_lines-join_lines (next ∷ lines) (λ e. cc) h.1)

-- No port, or a colon and digits.
abbrev pub IsPort : Bytes → Type 0
IsPort [] = Unit {0}
IsPort (c ∷ digits) = (c ≡ b':') × (digits ≢ []) × All (λ d. (b'0' ≤ d) × (d ≤ b'9')) digits

digits-IsAlnum : (s : Bytes) → All (λ d. (b'0' ≤ d) × (d ≤ b'9')) s → All IsAlnum s
digits-IsAlnum [] h = tt
digits-IsAlnum (c ∷ s) h = (inr (inr h.0), digits-IsAlnum s h.1)

trim_space-port :
    (host port : Bytes) → IsHostname host → IsPort port → trim_space (host ++ port) ≡ host ++ port
trim_space-port host [] h p = rw (append-nil host) (trim_space-Ends host (IsHostname-Ends host h))
trim_space-port host (c ∷ digits) h (colon, ne, each) = rw colon (
    trim_space-Ends (host ++ b':' ∷ digits) (
      append-Ends host digits b':' (IsHostname-Ends host h)
        (All-Ends digits ne (digits-IsAlnum digits each))))

before_colon-port :
    (host port : Bytes) → IsNameByte host → IsPort port → before_colon (host ++ port) ≡ host
unfolding before_colon
before_colon-port [] [] h p = refl
before_colon-port [] (c ∷ digits) h p = ground arith
before_colon-port (c ∷ host) port h p = ground (arith, before_colon-port host port h.1 p)

name-is_ascii : (s : Bytes) → IsNameByte s → is_ascii s ≡ true
unfolding is_ascii
name-is_ascii [] h = refl
name-is_ascii (c ∷ s) h = ground (arith, name-is_ascii s h.1)

-- The lines before the Host line, the five bytes of its field name with the colon, the number of spaces
-- after it, the host, the port, and the lines after it.
pub record HttpRequest : Type 0 where
  pub before : List Bytes
  pub field : Bytes
  pub gap : ℕ
  pub host : Bytes
  pub port : Bytes
  pub after : List Bytes

abbrev pub spaces : ℕ → Bytes
spaces zero = []
spaces (suc n) = b' ' ∷ spaces n

trim_space-spaces : (n : ℕ) (s : Bytes) → trim_space (spaces n ++ s) ≡ trim_space s
trim_space-spaces zero s = refl
trim_space-spaces (suc n) s = trim_space_front (spaces n ++ s) ∙ trim_space-spaces n s

abbrev pub host_line : HttpRequest → Bytes
host_line q = q.field ++ (spaces q.gap ++ (q.host ++ q.port))

abbrev pub lines_of : HttpRequest → List Bytes
lines_of q = q.before ++ host_line q ∷ q.after

abbrev pub wire_request : HttpRequest → Bytes
wire_request q = join_lines (lines_of q)

is_request-first :
    (s : Bytes) → is_request s ≡ true → (c : ℕ) × (rest : Bytes) × (s ≡ c ∷ rest) × (c ≢ 0x16)
unfolding is_request has_prefix
is_request-first [] h = absurd cc
is_request-first (c ∷ rest) h = (c, rest, refl, λ e. ground arith)

lines_of-ne : (q : HttpRequest) → lines_of q ≢ []
lines_of-ne q = go q.before
  where
    go : (before : List Bytes) → before ++ host_line q ∷ q.after ≢ []
    go [] = λ e. cc
    go (l ∷ before) = λ e. cc

module _ (wide_lower : Bytes → Bytes) where
  -- `strings.HasPrefix(strings.ToLower(line), "host:")`
  abbrev pub is_host_line : Bytes → Bool
  is_host_line line = has_prefix (to_lower wide_lower line) (text "host:")

  -- A request with a method that the sniffer knows, whose first Host line is the one with `host`.
  pub record IsHttpRequest (q : HttpRequest) : Type 0 where
    pub method : is_request (wire_request q) ≡ true
    pub lines : All (Lacks b'\r') (lines_of q)
    pub before : All (λ line. is_host_line line ≡ false) q.before
    pub host_line : is_host_line (host_line q) ≡ true
    pub field : length q.field ≡ 5
    pub host : IsHostname q.host
    pub port : IsPort q.port

  find_host-skips :
      (before : List Bytes) (line : Bytes) (after : List Bytes)
      → All (λ l. is_host_line l ≡ false) before
      → is_host_line line ≡ true
      → find_host wide_lower (before ++ line ∷ after) ≡ host_of_line wide_lower line
  unfolding find_host
  find_host-skips [] line after others here = rw here refl
  find_host-skips (l ∷ before) line after others here =
      rw (others.0) (find_host-skips before line after others.1 here)

  host_of_line-host :
      (q : HttpRequest)
      → IsHttpRequest q
      → host_of_line wide_lower (host_line q) ≡ ok (map lower_byte q.host)
  unfolding host_of_line to_lower
  host_of_line-host q is =
      let value : Bytes = spaces q.gap ++ (q.host ++ q.port) in
      let size = length-append q.field value in
      let five : drop 5 (host_line q) ≡ value ++ [] =
        ap (λ n. drop n (host_line q)) (sym is.field)
        ∙ (drop-length-append q.field value ∙ sym (append-nil value)) in
      let reads =
        slice-at {E = Miss} (host_line q) 5 (length (host_line q)) value []
          (omega (arith, is.field)) (omega arith) five in
      let trimmed =
        trim_space-spaces q.gap (q.host ++ q.port)
        ∙ trim_space-port q.host q.port is.host is.port in
      let cut = before_colon-port q.host q.port (IsHostname-IsNameByte q.host is.host) is.port in
      let bare = trim_space-Ends q.host (IsHostname-Ends q.host is.host) in
      rw (reads, trimmed, cut, bare, name-is_ascii q.host (IsHostname-IsNameByte q.host is.host))
        refl

  sniff_http-finds :
      (q : HttpRequest)
      → IsHttpRequest q
      → sniff_http wide_lower (wire_request q) ≡ ok (map lower_byte q.host)
  unfolding sniff_http
  sniff_http-finds q is =
      let split = split_lines-join_lines (lines_of q) (lines_of-ne q) is.lines in
      rw (is.method, split)
        (find_host-skips q.before (host_line q) q.after is.before is.host_line
          ∙ host_of_line-host q is)

  -- Bytes that begin with another byte are no record of TLS.
  sniff_tls-other : (c : ℕ) (s : Bytes) → c ≢ 0x16 → sniff_tls wide_lower (c ∷ s) ≡ err no_name
  unfolding sniff_tls index
  sniff_tls-other c s ne = elim (Bool-cases (ltb (length (c ∷ s)) 44)) [
    | inl short ↦ rw short refl
    | inr long ↦
        let second = index-ok {E = Miss} (c ∷ s) 1 0 (ground arith) in
        rw (long, second) (ground arith)
  ]

  -- In a request with a known method, all of whose lines are whole, `SniffDomain` finds the host of the
  -- first line whose field is "Host" in any case, without its port and in small letters, if that host is
  -- a DNS name, stands after any number of spaces, and has at most a colon and the digits of a port after
  -- it.
  pub sniff_domain-host :
      (q : HttpRequest)
      → IsHttpRequest q
      → sniff_domain wide_lower (wire_request q) ≡ ok (map lower_byte q.host)
  unfolding sniff_domain
  sniff_domain-host q is =
      let (c, rest, e, ne) = is_request-first (wire_request q) is.method in
      let miss = sniff_tls-other c rest ne in
      let finds : sniff_http wide_lower (c ∷ rest) ≡ ok (map lower_byte q.host) =
        ap (sniff_http wide_lower) (sym e) ∙ sniff_http-finds q is in
      rw e (ground (arith, miss, finds, is_empty_nil))
