-- ===== src/Wrapper/Sniffer/Total.antt =====
-- apple-wrapper/sniffer.go on any bytes: no access is out of range, and the loops end.
use folo_xray_apple.Prelude.{
  ℕ, zero, suc, ◌+◌, ◌-◌, ◌*◌, ◌≤◌, ◌<◌, ◌≡◌, ◌≢◌, refl, arith, Bool, true, false, leb, ltb, length,
  Outcome, ok, err, panic, slice, index-ok, slice-ok, uint16_in-ok, Bytes, at, Bool-cases, inl, inr,
  leb→le, fail_if, not, ◌||◌, ◌>>◌, ◌&&◌, ◌==◌, if◌then◌else◌, ◌>>=◌, to_lower,
}
use folo_xray_apple.Wrapper.Sniffer.{
  Miss, no_name, out_of_fuel, server_names, server_name, extensions, after_suites, after_random,
  sniff_tls,
}

-- A name or no name, and nothing worse.
abbrev pub Answers : Outcome Miss Bytes → Type 0
Answers (ok name) = Unit {0}
Answers (err no_name) = Unit {0}
Answers (err out_of_fuel) = ⊥
Answers panic = ⊥

-- An early return answers, so what follows may use that its test failed.
guarded :
    (b : Bool) (k : Outcome Miss Bytes) → (b ≡ false → Answers k) → Answers (fail_if b no_name >> k)
guarded true k h = tt
guarded false k h = h refl

module _ (wide_lower : Bytes → Bytes) where
  -- One entry of the list, and `rest`, which is what the loop does after it.
  name_round-Answers :
      (bytes : Bytes) (pos end n : ℕ) (rest : Outcome Miss Bytes)
      → end ≤ length bytes
      → Answers rest
      → Answers (
          if at bytes pos == 0 && leb (pos + 3 + n) end
          then (do name ← slice bytes (pos + 3) (pos + 3 + n); ok (to_lower wide_lower name))
          else rest)
  name_round-Answers bytes pos end n rest e r =
      elim (Bool-cases (at bytes pos == 0 && leb (pos + 3 + n) end)) [
        | inl found ↦
            let fits : pos + 3 + n ≤ end = ground arith in
            rw
              (found, slice-ok {E = Miss} bytes (pos + 3) (pos + 3 + n) (omega arith) (omega arith))
              tt
        | inr next ↦ rw next r
      ]

  server_names-Answers :
      (fuel : ℕ) (bytes : Bytes) (pos end : ℕ)
      → end ≤ length bytes
      → end - pos < fuel
      → Answers (server_names wide_lower fuel bytes pos end)
  unfolding server_names
  server_names-Answers zero bytes pos end e f = absurd (omega arith)
  server_names-Answers (suc fuel) bytes pos end e f = elim (Bool-cases (leb (pos + 3) end)) [
    | inr over ↦ rw over tt
    | inl more ↦
        let room : pos + 3 ≤ end = leb→le (pos + 3) end more in
        let n : ℕ = at bytes (pos + 1) * 256 + at bytes (pos + 1 + 1) in
        rw
          (
            more,
            index-ok {E = Miss} bytes pos 0 (omega arith),
            uint16_in-ok {E = Miss} bytes (pos + 1) (pos + 3) (omega arith) (omega arith),
          )
          (name_round-Answers bytes pos end n (server_names wide_lower fuel bytes (pos + 3 + n) end)
            e (server_names-Answers fuel bytes (pos + 3 + n) end e (omega arith)))
  ]

  server_name-Answers :
      (bytes : Bytes) (pos end : ℕ)
      → end ≤ length bytes
      → Answers (server_name wide_lower bytes pos end)
  unfolding server_name
  server_name-Answers bytes pos end e = elim (Bool-cases (leb (pos + 2) end)) [
    | inr over ↦ rw over tt
    | inl more ↦
        let room : pos + 2 ≤ end = leb→le (pos + 2) end more in
        rw (more, uint16_in-ok {E = Miss} bytes pos (pos + 2) refl (omega arith))
          (server_names-Answers (length bytes) bytes (pos + 2) _ (ground arith) (ground arith))
  ]

  ext_round-Answers :
      (ext_type pos end : ℕ) (bytes : Bytes) (rest : Outcome Miss Bytes)
      → end ≤ length bytes
      → Answers rest
      → Answers (if ext_type == 0 then server_name wide_lower bytes pos end else rest)
  ext_round-Answers ext_type pos end bytes rest e r = elim (Bool-cases (ext_type == 0)) [
    | inl sni ↦ rw sni (server_name-Answers bytes pos end e)
    | inr other ↦ rw other r
  ]

  extensions-Answers :
      (fuel : ℕ) (bytes : Bytes) (pos end : ℕ)
      → end ≤ length bytes
      → end - pos < fuel
      → Answers (extensions wide_lower fuel bytes pos end)
  unfolding extensions
  extensions-Answers zero bytes pos end e f = absurd (omega arith)
  extensions-Answers (suc fuel) bytes pos end e f = elim (Bool-cases (leb (pos + 4) end)) [
    | inr over ↦ rw over tt
    | inl more ↦
        let room : pos + 4 ≤ end = leb→le (pos + 4) end more in
        let n : ℕ = at bytes (pos + 2) * 256 + at bytes (pos + 2 + 1) in
        rw
          (
            more,
            uint16_in-ok {E = Miss} bytes pos (pos + 2) refl (omega arith),
            uint16_in-ok {E = Miss} bytes (pos + 2) (pos + 4) (omega arith) (omega arith),
          )
          (ext_round-Answers _ (pos + 4) end bytes
            (extensions wide_lower fuel bytes (pos + 4 + n) end) e
            (extensions-Answers fuel bytes (pos + 4 + n) end e (omega arith)))
  ]

  after_suites-Answers : (bytes : Bytes) (pos : ℕ) → Answers (after_suites wide_lower bytes pos)
  unfolding after_suites
  after_suites-Answers bytes pos = guarded (ltb (length bytes) (pos + 1)) _ λ h.
      let room : pos + 1 ≤ length bytes = ground arith in
      let next : ℕ = pos + 1 + at bytes pos in
      rw (index-ok {E = Miss} bytes pos 0 (omega arith)) (
        guarded (ltb (length bytes) (next + 2)) _ λ h'.
          let room' : next + 2 ≤ length bytes = ground arith in
          rw (uint16_in-ok {E = Miss} bytes next (next + 2) refl room')
            (extensions-Answers (length bytes) bytes (next + 2) _ (ground arith) (ground arith)))

  after_random-Answers : (bytes : Bytes) → Answers (after_random wide_lower bytes)
  unfolding after_random
  after_random-Answers bytes = guarded (leb (length bytes) 43) _ λ h.
      let room : 43 < length bytes = ground arith in
      let pos : ℕ = 43 + 1 + at bytes 43 in
      rw (index-ok {E = Miss} bytes 43 0 room) (
        guarded (ltb (length bytes) (pos + 2)) _ λ h'.
          let room' : pos + 2 ≤ length bytes = ground arith in
          rw (uint16_in-ok {E = Miss} bytes pos (pos + 2) refl room')
            (after_suites-Answers bytes (pos + 2 + (at bytes pos * 256 + at bytes (pos + 1)))))

  pub sniff_tls-Answers : (bytes : Bytes) → Answers (sniff_tls wide_lower bytes)
  unfolding sniff_tls
  sniff_tls-Answers bytes = guarded (ltb (length bytes) 44) _ λ h.
      let room : 44 ≤ length bytes = ground arith in
      rw (index-ok {E = Miss} bytes 0 0 (omega arith), index-ok {E = Miss} bytes 1 0 (omega arith))
        (guarded (not (at bytes 0 == 0x16) || not (at bytes 1 == 3)) _ λ h'.
          rw (index-ok {E = Miss} bytes 5 0 (omega arith))
            (guarded (not (at bytes 5 == 1)) _ λ h''. after_random-Answers bytes))

  Answers-eq : (o : Outcome Miss Bytes) → Answers o → (o ≢ panic) × (o ≢ err out_of_fuel)
  Answers-eq (ok name) a = (λ e. cc, λ e. cc)
  Answers-eq (err no_name) a = (λ e. cc, λ e. cc)
  Answers-eq (err out_of_fuel) a = elim a [ ]
  Answers-eq panic a = elim a [ ]

  -- Whatever bytes a stream begins with, `sniffTLS` makes no access out of range, and its loops end
  -- within as many rounds as there are bytes.
  pub sniff_tls_total :
      (bytes : Bytes)
      → (sniff_tls wide_lower bytes ≢ panic) × (sniff_tls wide_lower bytes ≢ err out_of_fuel)
  sniff_tls_total bytes = Answers-eq (sniff_tls wide_lower bytes) (sniff_tls-Answers bytes)
