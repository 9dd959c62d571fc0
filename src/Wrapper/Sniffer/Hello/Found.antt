-- ===== src/Wrapper/Sniffer/Hello/Found.antt =====
-- `sniffTLS` and `SniffDomain` (apple-wrapper/sniffer.go) on a ClientHello with a host name.
use folo_xray_apple.Prelude.{
  ℕ, ◌+◌, ◌*◌, ◌/◌, ◌%◌, ◌≡◌, ◌≢◌, refl, arith, true, false, [], ◌∷◌, ◌++◌, length, drop,
  length-append, ok, Bytes, to_lower, index, is_empty, map, lower_byte, is_ascii,
}
use folo_xray_apple.Wrapper.Sniffer.{
  Miss, at_most, after_suites, after_random, sniff_tls, sniff_domain,
}
use folo_xray_apple.Wrapper.Sniffer.Reads.{drop-after, drop-past, length-at, index-at, uint16_in-at}
use folo_xray_apple.Wrapper.Sniffer.Hello.{
  wire_extensions, wire_name, wire_names, host_entry, Hello, from_server_name, from_extensions,
  from_methods, from_suites, from_session, wire_hello, IsHello,
}
use folo_xray_apple.Wrapper.Sniffer.Hello.Names.{extensions-finds, length-wire_extensions}

length-from_extensions :
    (h : Hello)
    → length (from_extensions h)
      ≡ 11
        + length (wire_extensions h.others)
        + length (wire_names h.names)
        + length h.name
        + length h.rest
length-from_extensions h = omega (
  arith,
  length-append (wire_extensions h.others) (from_server_name h),
  length-append (wire_names h.names) (wire_name (host_entry h.name) ++ h.rest),
  length-append h.name h.rest,
)

pub filled_lower : (s : Bytes) → s ≢ [] → is_empty (map lower_byte s) ≡ false
unfolding is_empty
filled_lower [] ne = absurd (ne refl)
filled_lower (c ∷ s) ne = refl

module _ (wide_lower : Bytes → Bytes) (h : Hello) (is : IsHello h) where
  after_suites-finds :
      (s : Bytes) (pos : ℕ)
      → drop pos s ≡ from_methods h
      → after_suites wide_lower s pos ≡ ok (to_lower wide_lower h.name)
  unfolding after_suites
  after_suites-finds s pos at_methods =
      let size : ℕ = length h.methods in
      let next : ℕ = pos + 1 + size in
      let at_extensions : drop next s ≡ from_extensions h =
        drop-past s pos next (size ∷ h.methods) (from_extensions h) (omega arith) at_methods in
      let room = length-at s pos (size ∷ h.methods) (from_extensions h) (omega arith) at_methods in
      let sizes = length-from_extensions h in
      let body : Bytes = wire_extensions h.others ++ from_server_name h in
      let total : ℕ = h.extensions_length in
      let size_read = index-at {E = Miss} s pos size _ at_methods in
      let total_read =
        uint16_in-at {E = Miss} s next (next + 2) (total / 256) (total % 256) body (omega arith)
          (omega arith) at_extensions in
      let total_is : total / 256 * 256 + total % 256 ≡ total = omega arith in
      let covers = is.extensions_length in
      let found =
        extensions-finds wide_lower (length s) s (next + 2) (at_most (next + 2 + total) (length s))
          h.others h is.others (omega (arith, length-wire_extensions wide_lower h.others)) is
          (drop-after s next ((total / 256) ∷ (total % 256) ∷ []) body at_extensions) (ground arith)
          (ground arith) in
      ground (arith, size_read, total_read, total_is, found)

  after_random-finds :
      (s : Bytes)
      → drop 43 s ≡ from_session h
      → after_random wide_lower s ≡ ok (to_lower wide_lower h.name)
  unfolding after_random
  after_random-finds s at_session =
      let size : ℕ = length h.session in
      let next : ℕ = 43 + 1 + size in
      let at_suites : drop next s ≡ from_suites h =
        drop-past s 43 next (size ∷ h.session) (from_suites h) (omega arith) at_session in
      let room = length-at s 43 (size ∷ h.session) (from_suites h) (omega arith) at_session in
      let total : ℕ = length h.suites in
      let head : Bytes = (total / 256) ∷ (total % 256) ∷ [] in
      let size_read = index-at {E = Miss} s 43 size _ at_session in
      let total_read =
        uint16_in-at {E = Miss} s next (next + 2) (total / 256) (total % 256) _ (omega arith)
          (omega arith) at_suites in
      let total_is : total / 256 * 256 + total % 256 ≡ total = omega arith in
      let at_list = drop-after s next head (h.suites ++ from_methods h) at_suites in
      let found =
        after_suites-finds s (next + 2 + total)
          (drop-after s (next + 2) h.suites (from_methods h) at_list) in
      ground (arith, size_read, total_read, total_is, found)

  -- `sniffTLS` returns the host name in small letters.
  pub sniff_tls-finds : sniff_tls wide_lower (wire_hello h) ≡ ok (to_lower wide_lower h.name)
  unfolding sniff_tls index
  sniff_tls-finds =
      let at_session : drop 43 (wire_hello h) ≡ from_session h =
        drop-past (wire_hello h) 6 43 h.fixed (from_session h) (omega (arith, is.fixed)) refl in
      let size = length-append h.fixed (from_session h) in
      let found = after_random-finds (wire_hello h) at_session in ground (arith, is.fixed, found)

  -- On a ClientHello with a host name of ASCII `SniffDomain` returns the name in small letters, whatever
  -- other extensions and entries stand before it and whatever follows it, and even if the data ends
  -- within what the lengths announce after it.
  pub sniff_domain-finds :
      is_ascii h.name ≡ true
      → h.name ≢ []
      → sniff_domain wide_lower (wire_hello h) ≡ ok (map lower_byte h.name)
  unfolding sniff_domain to_lower
  sniff_domain-finds ascii ne =
      let lower : to_lower wide_lower h.name ≡ map lower_byte h.name = ground arith in
      let filled = filled_lower h.name ne in ground (arith, sniff_tls-finds, lower, filled)
