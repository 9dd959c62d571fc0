-- ===== src/Wrapper/Sniffer/Domain.antt =====
-- `SniffDomain` of apple-wrapper/sniffer.go as a whole: it returns a string for every input.
use folo_xray_apple.Prelude.{
  ℕ, ◌≤◌, ◌≡◌, refl, arith, true, false, Bool-cases, ◌⊎◌, inl, inr, List, [], ◌∷◌, map, length,
  Outcome, ok, err, panic, slice-ok, Bytes, text, has_prefix, to_lower, lower_byte, is_empty,
  is_empty_nil,
}
use folo_xray_apple.Wrapper.Sniffer.{
  Miss, no_name, out_of_fuel, host_of_line, find_host, sniff_http, sniff_domain, is_request,
  split_lines,
}
use folo_xray_apple.Wrapper.Sniffer.Total.{Answers, sniff_tls-Answers}

-- Lower case does not make the text "host:" of less than five bytes.
abbrev pub KeepsPrefix : (Bytes → Bytes) → Type 0
KeepsPrefix wide_lower =
    (s : Bytes) → has_prefix (wide_lower s) (text "host:") ≡ true → 5 ≤ length s

pub has_prefix-length : (s prefix : Bytes) → has_prefix s prefix ≡ true → length prefix ≤ length s
unfolding has_prefix
has_prefix-length s [] h = omega arith
has_prefix-length [] (y ∷ ys) h = absurd cc
has_prefix-length (x ∷ xs) (y ∷ ys) h = ground (arith, has_prefix-length xs ys)

length-map : (f : ℕ → ℕ) (s : Bytes) → length (map f s) ≡ length s
length-map f [] = refl
length-map f (c ∷ cs) = omega (arith, length-map f cs)

module _ (wide_lower : Bytes → Bytes) (keeps : KeepsPrefix wide_lower) where
  host-length :
      (line : Bytes) → has_prefix (to_lower wide_lower line) (text "host:") ≡ true → 5 ≤ length line
  unfolding to_lower
  host-length line h = ground (
    arith,
    keeps line,
    has_prefix-length (map lower_byte line) (text "host:"),
    length-map lower_byte line,
  )

  find_host-Answers : (lines : List Bytes) → Answers (find_host wide_lower lines)
  unfolding find_host host_of_line
  find_host-Answers [] = tt
  find_host-Answers (line ∷ lines) =
      elim (Bool-cases (has_prefix (to_lower wide_lower line) (text "host:"))) [
        | inl h ↦
            rw (h, slice-ok {E = Miss} line 5 (length line) (host-length line h) (omega arith)) tt
        | inr h ↦ rw h (find_host-Answers lines)
      ]

  sniff_http-Answers : (bytes : Bytes) → Answers (sniff_http wide_lower bytes)
  unfolding sniff_http
  sniff_http-Answers bytes = elim (Bool-cases (is_request bytes)) [
    | inl e ↦ rw e (find_host-Answers (split_lines false bytes))
    | inr e ↦ rw e tt
  ]

  Answers-cases :
      (o : Outcome Miss Bytes) → Answers o → (o ≡ err no_name) ⊎ ((name : Bytes) × (o ≡ ok name))
  Answers-cases (ok name) a = inr (name, refl)
  Answers-cases (err no_name) a = inl refl
  Answers-cases (err out_of_fuel) a = elim a [ ]
  Answers-cases panic a = elim a [ ]

  -- Where lower case does not make "host:" of less than five bytes, `SniffDomain` returns a string
  -- whatever bytes a connection begins with: no access of `sniffTLS` or `sniffHTTP` is out of range, and
  -- the loops end within as many rounds as there are bytes.
  pub sniff_domain_total :
      (bytes : Bytes) → (name : Bytes) × (sniff_domain wide_lower bytes ≡ ok name)
  unfolding sniff_domain
  sniff_domain_total [] = ([], refl)
  sniff_domain_total (b ∷ bs) = elim (Answers-cases _ (sniff_tls-Answers wide_lower (b ∷ bs))) [
    | inl e ↦ elim (Answers-cases _ (sniff_http-Answers (b ∷ bs))) [
      | inl g ↦ ([], ground (arith, e, g, is_empty_nil))
      | inr (name, g) ↦ (name, ground (arith, e, g, is_empty_nil))
    ]
    | inr (tls, e) ↦ elim (Bool-cases (is_empty tls)) [
      | inl n ↦ elim (Answers-cases _ (sniff_http-Answers (b ∷ bs))) [
        | inl g ↦ ([], ground (arith, e, g, n))
        | inr (name, g) ↦ (name, ground (arith, e, g, n))
      ]
      | inr n ↦ (tls, ground (arith, e, n))
    ]
  ]
