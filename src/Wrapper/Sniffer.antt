-- ===== src/Wrapper/Sniffer.antt =====
-- apple-wrapper/sniffer.go. A name is looked for in the first bytes of a stream; every access of the
-- slice is checked as Go checks it. An early `return ""` is `err no_name`; the loops take fuel.
pub mod Total
pub mod Domain
pub mod Reads
pub mod Hello
pub mod Http
use folo_xray_apple.Prelude.{
  ℕ, zero, suc, ◌+◌, ◌-◌, Bool, true, false, not, ◌&&◌, ◌||◌, List, [], ◌∷◌, ltb, leb, ◌==◌,
  if◌then◌else◌, length, Outcome, ok, err, panic, ◌>>=◌, ◌>>◌, fail_if, index, slice, uint16_in,
  Bytes, text, is_empty, has_prefix, to_lower, trim_space, onto_head,
}

pub data Miss : Type 0 where
  no_name out_of_fuel : Miss

abbrev pub at_most : ℕ → ℕ → ℕ
at_most n bound = if ltb bound n then bound else n

module _ (wide_lower : Bytes → Bytes) where
  -- The loop over the entries of a server name list.
  unfoldable pub server_names : ℕ → Bytes → ℕ → ℕ → Outcome Miss Bytes
  server_names zero bytes pos end = err out_of_fuel
  server_names (suc fuel) bytes pos end =
      if leb (pos + 3) end
      then (do
        name_type ← index bytes pos
        name_length ← uint16_in bytes (pos + 1) (pos + 3)
        let rest = server_names fuel bytes (pos + 3 + name_length) end
        if name_type == 0 && leb (pos + 3 + name_length) end
            then (do
              name ← slice bytes (pos + 3) (pos + 3 + name_length)
              ok (to_lower wide_lower name))
            else rest)
      else err no_name

  -- The server_name extension, whose body begins at `pos`.
  unfoldable pub server_name : Bytes → ℕ → ℕ → Outcome Miss Bytes
  server_name bytes pos end =
      if leb (pos + 2) end
      then (do
        list_length ← uint16_in bytes pos (pos + 2)
        server_names (length bytes) bytes (pos + 2) (at_most (pos + 2 + list_length) end))
      else err no_name

  -- The loop over the extensions.
  unfoldable pub extensions : ℕ → Bytes → ℕ → ℕ → Outcome Miss Bytes
  extensions zero bytes pos end = err out_of_fuel
  extensions (suc fuel) bytes pos end =
      if leb (pos + 4) end
      then (do
        ext_type ← uint16_in bytes pos (pos + 2)
        ext_length ← uint16_in bytes (pos + 2) (pos + 4)
        let rest = extensions fuel bytes (pos + 4 + ext_length) end
        if ext_type == 0 then server_name bytes (pos + 4) end else rest)
      else err no_name

  -- From the compression methods on.
  unfoldable pub after_suites : Bytes → ℕ → Outcome Miss Bytes
  after_suites bytes pos = do
    fail_if (ltb (length bytes) (pos + 1)) no_name
    methods_length ← index bytes pos
    let next = pos + 1 + methods_length
    fail_if (ltb (length bytes) (next + 2)) no_name
    extensions_length ← uint16_in bytes next (next + 2)
    extensions (length bytes) bytes (next + 2)
        (at_most (next + 2 + extensions_length) (length bytes))

  -- From the session id on.
  unfoldable pub after_random : Bytes → Outcome Miss Bytes
  after_random bytes = do
    fail_if (leb (length bytes) 43) no_name
    session_length ← index bytes 43
    let pos = 43 + 1 + session_length
    fail_if (ltb (length bytes) (pos + 2)) no_name
    suites_length ← uint16_in bytes pos (pos + 2)
    after_suites bytes (pos + 2 + suites_length)

  -- `sniffTLS`
  unfoldable pub sniff_tls : Bytes → Outcome Miss Bytes
  sniff_tls bytes = do
    fail_if (ltb (length bytes) 44) no_name
    record_type ← index bytes 0
    major ← index bytes 1
    fail_if (not (record_type == 0x16) || not (major == 3)) no_name
    handshake_type ← index bytes 5
    fail_if (not (handshake_type == 1)) no_name
    after_random bytes

abbrev starts_lf : Bytes → Bool
starts_lf [] = false
starts_lf (c ∷ cs) = c == b'\n'

-- `bytes.Split(data, "\r\n")`; the flag skips the second byte of a separator.
unfoldable pub split_lines : Bool → Bytes → List Bytes
split_lines skip [] = [] ∷ []
split_lines true (c ∷ cs) = split_lines false cs
split_lines false (c ∷ cs) =
    let rest = split_lines (c == b'\r' && starts_lf cs) cs in
    if c == b'\r' && starts_lf cs then [] ∷ rest else onto_head c rest

-- `host[:idx]` for the first colon, or all of the host.
unfoldable pub before_colon : Bytes → Bytes
before_colon [] = []
before_colon (c ∷ cs) = if c == b':' then [] else c ∷ before_colon cs

unfoldable pub is_request : Bytes → Bool
unfolding has_prefix
is_request bytes =
    has_prefix bytes (text "GET ")
    || has_prefix bytes (text "POST ")
    || has_prefix bytes (text "HEAD ")
    || has_prefix bytes (text "PUT ")
    || has_prefix bytes (text "DELETE ")
    || has_prefix bytes (text "CONNECT ")
    || has_prefix bytes (text "OPTIONS ")

module _ (wide_lower : Bytes → Bytes) where
  -- The body of the loop for a line that starts with "host:" in any case.
  unfoldable pub host_of_line : Bytes → Outcome Miss Bytes
  host_of_line line = do
    value ← slice line 5 (length line)
    ok (to_lower wide_lower (trim_space (before_colon (trim_space value))))

  unfoldable pub find_host : List Bytes → Outcome Miss Bytes
  unfolding has_prefix
  find_host [] = err no_name
  find_host (line ∷ lines) =
      let rest = find_host lines in
      if has_prefix (to_lower wide_lower line) (text "host:") then host_of_line line else rest

  -- `sniffHTTP`
  unfoldable pub sniff_http : Bytes → Outcome Miss Bytes
  unfolding is_request
  sniff_http bytes =
      if not (is_request bytes) then err no_name else find_host (split_lines false bytes)

  -- A sniffer's string: `""` where it returned early.
  abbrev name_or_empty : Outcome Miss Bytes → Outcome Miss Bytes
  name_or_empty (ok name) = ok name
  name_or_empty (err no_name) = ok []
  name_or_empty (err out_of_fuel) = err out_of_fuel
  name_or_empty panic = panic

  -- `SniffDomain`
  unfoldable pub sniff_domain : Bytes → Outcome Miss Bytes
  sniff_domain [] = ok []
  sniff_domain (b ∷ bs) = do
    tls ← name_or_empty (sniff_tls wide_lower (b ∷ bs))
    if not (is_empty tls) then ok tls else name_or_empty (sniff_http (b ∷ bs))
