-- ===== src/Wrapper/Sniffer/Hello/Names.antt =====
-- `sniffTLS` (apple-wrapper/sniffer.go) finds the host name of a ClientHello.
use mathlib.Core.List.{append_assoc}
use folo_xray_apple.Prelude.{
  ℕ, zero, suc, ◌+◌, ◌*◌, ◌/◌, ◌%◌, ◌≤◌, ◌<◌, ◌≡◌, ◌≢◌, ◌∙◌, arith, List, [], ◌∷◌, ◌++◌, length,
  drop, All, length-append, ok, Bytes, to_lower,
}
use folo_xray_apple.Wrapper.Sniffer.{Miss, at_most, server_names, server_name, extensions}
use folo_xray_apple.Wrapper.Sniffer.Reads.{drop-after, slice-at, index-at, uint16_in-at}
use folo_xray_apple.Wrapper.Sniffer.Hello.{
  Extension, wire_extensions, NameEntry, wire_name, wire_names, host_entry, Hello, from_names,
  from_server_name, IsHello,
}

module _ (wide_lower : Bytes → Bytes) where
  -- The loop over the entries, `fuel` of which it may pass.
  server_names-finds :
      (fuel : ℕ) (s : Bytes) (pos end : ℕ) (names : List NameEntry) (name rest : Bytes)
      → All (λ e. e.kind ≢ 0) names
      → length names < fuel
      → drop pos s ≡ wire_names names ++ (wire_name (host_entry name) ++ rest)
      → pos + length (wire_names names) + 3 + length name ≤ end
      → end ≤ length s
      → server_names wide_lower fuel s pos end ≡ ok (to_lower wide_lower name)
  unfolding server_names
  server_names-finds zero s pos end names name rest others enough h room within =
      absurd (omega arith)
  server_names-finds (suc fuel) s pos end [] name rest others enough h room within =
      let at_name : drop (pos + 3) s ≡ name ++ rest =
        drop-after s pos (0 ∷ (length name / 256) ∷ (length name % 256) ∷ []) (name ++ rest) h in
      let at_length = drop-after s pos (0 ∷ []) _ h in
      ground (
        arith,
        index-at {E = Miss} s pos 0 _ h,
        uint16_in-at {E = Miss} s (pos + 1) (pos + 3) (length name / 256) (length name % 256)
            (name ++ rest) (omega arith) (omega arith) at_length,
        slice-at {E = Miss} s (pos + 3) (pos + 3 + length name) name rest (omega arith)
            (omega arith) at_name,
      )
  server_names-finds (suc fuel) s pos end (e ∷ names) name rest others enough h room within =
      let more : Bytes = wire_names names ++ (wire_name (host_entry name) ++ rest) in
      let size : ℕ = length e.body in
      let head : Bytes = e.kind ∷ (size / 256) ∷ (size % 256) ∷ [] in
      let at_body : drop (pos + 3) s ≡ e.body ++ more =
        drop-after s pos head
          ((e.body ++ wire_names names) ++ (wire_name (host_entry name) ++ rest)) h
        ∙ append_assoc e.body (wire_names names) (wire_name (host_entry name) ++ rest) in
      let at_length = drop-after s pos (e.kind ∷ []) _ h in
      let sizes = length-append e.body (wire_names names) in
      let later =
        server_names-finds fuel s (pos + 3 + size) end names name rest others.1 (omega arith)
          (drop-after s (pos + 3) e.body more at_body) (omega arith) within in
      let kind_read = index-at {E = Miss} s pos e.kind _ h in
      let size_read =
        uint16_in-at {E = Miss} s (pos + 1) (pos + 3) (size / 256) (size % 256) _ (omega arith)
          (omega arith) at_length in
      let size_is : size / 256 * 256 + size % 256 ≡ size = omega arith in
      ground (arith, kind_read, size_read, size_is, later, others.0)

  length-wire_names : (names : List NameEntry) → length names ≤ length (wire_names names)
  length-wire_names [] = omega arith
  length-wire_names (e ∷ names) =
      omega (arith, length-append e.body (wire_names names), length-wire_names names)

  -- The body of the extension: the length of its list, and the list.
  server_name-finds :
      (s : Bytes) (pos end list_length : ℕ) (names : List NameEntry) (name rest : Bytes)
      → All (λ e. e.kind ≢ 0) names
      → drop pos s
        ≡ (list_length / 256)
          ∷ (list_length % 256)
          ∷ (wire_names names ++ (wire_name (host_entry name) ++ rest))
      → length (wire_names names) + 3 + length name ≤ list_length
      → pos + 2 + length (wire_names names) + 3 + length name ≤ end
      → end ≤ length s
      → server_name wide_lower s pos end ≡ ok (to_lower wide_lower name)
  unfolding server_name
  server_name-finds s pos end list_length names name rest others h listed room within =
      let head : Bytes = (list_length / 256) ∷ (list_length % 256) ∷ [] in
      let more : Bytes = wire_names names ++ (wire_name (host_entry name) ++ rest) in
      let size_read =
        uint16_in-at {E = Miss} s pos (pos + 2) (list_length / 256) (list_length % 256) more
          (omega arith) (omega arith) h in
      let size_is : list_length / 256 * 256 + list_length % 256 ≡ list_length = omega arith in
      let stop : ℕ = at_most (pos + 2 + list_length) end in
      let found =
        server_names-finds (length s) s (pos + 2) stop names name rest others
          (omega (arith, length-wire_names names)) (drop-after s pos head more h) (ground arith)
          (ground arith) in
      ground (arith, size_read, size_is, found)

  -- The loop over the extensions, from `others` on.
  pub extensions-finds :
      (fuel : ℕ) (s : Bytes) (pos end : ℕ) (others : List Extension) (h : Hello)
      → All (λ e. e.kind ≢ 0) others
      → length others < fuel
      → IsHello h
      → drop pos s ≡ wire_extensions others ++ from_server_name h
      → pos + length (wire_extensions others) + 9 + length (wire_names h.names) + length h.name
        ≤ end
      → end ≤ length s
      → extensions wide_lower fuel s pos end ≡ ok (to_lower wide_lower h.name)
  unfolding extensions
  extensions-finds zero s pos end others h ne enough is at_others room within = absurd (omega arith)
  extensions-finds (suc fuel) s pos end [] h ne enough is at_others room within =
      let size : ℕ = h.server_name_length in
      let list : Bytes = (h.list_length / 256) ∷ (h.list_length % 256) ∷ from_names h in
      let kind_read =
        uint16_in-at {E = Miss} s pos (pos + 2) 0 0 _ (omega arith) (omega arith) at_others in
      let at_size = drop-after s pos (0 ∷ 0 ∷ []) _ at_others in
      let size_read =
        uint16_in-at {E = Miss} s (pos + 2) (pos + 4) (size / 256) (size % 256) list (omega arith)
          (omega arith) at_size in
      let at_list = drop-after s pos (0 ∷ 0 ∷ (size / 256) ∷ (size % 256) ∷ []) list at_others in
      let found =
        server_name-finds s (pos + 4) end h.list_length h.names h.name h.rest is.names at_list
          is.list_length (omega arith) within in
      ground (arith, kind_read, size_read, found)
  extensions-finds (suc fuel) s pos end (e ∷ others) h ne enough is at_others room within =
      let size : ℕ = length e.body in
      let head : Bytes = (e.kind / 256) ∷ (e.kind % 256) ∷ (size / 256) ∷ (size % 256) ∷ [] in
      let more : Bytes = wire_extensions others ++ from_server_name h in
      let at_body : drop (pos + 4) s ≡ e.body ++ more =
        drop-after s pos head ((e.body ++ wire_extensions others) ++ from_server_name h) at_others
        ∙ append_assoc e.body (wire_extensions others) (from_server_name h) in
      let at_size = drop-after s pos ((e.kind / 256) ∷ (e.kind % 256) ∷ []) _ at_others in
      let sizes = length-append e.body (wire_extensions others) in
      let kind_read =
        uint16_in-at {E = Miss} s pos (pos + 2) (e.kind / 256) (e.kind % 256) _ (omega arith)
          (omega arith) at_others in
      let kind_is : e.kind / 256 * 256 + e.kind % 256 ≡ e.kind = omega arith in
      let size_read =
        uint16_in-at {E = Miss} s (pos + 2) (pos + 4) (size / 256) (size % 256) _ (omega arith)
          (omega arith) at_size in
      let size_is : size / 256 * 256 + size % 256 ≡ size = omega arith in
      let later =
        extensions-finds fuel s (pos + 4 + size) end others h ne.1 (omega arith) is
          (drop-after s (pos + 4) e.body more at_body) (omega arith) within in
      ground (arith, kind_read, kind_is, size_read, size_is, later, ne.0)

  pub length-wire_extensions : (es : List Extension) → length es ≤ length (wire_extensions es)
  length-wire_extensions [] = omega arith
  length-wire_extensions (e ∷ es) =
      omega (arith, length-append e.body (wire_extensions es), length-wire_extensions es)
