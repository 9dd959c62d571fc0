-- ===== src/Router/Domains/Longest.antt =====
-- What the suffix lookups of `Match` (apple-wrapper/router/compact_trie.go) find.
use folo_xray_apple.Prelude.{
  ℕ, ◌≤◌, ◌≡◌, ◌≢◌, ◌⊎◌, inl, inr, refl, sym, ap, ◌∙◌, arith, false, [], subst, ◌==◌, ◌&&◌, not,
  Bool-cases, ◌∷◌, ◌++◌, none, some, length, Bytes, is_empty, length-append, Option-cases,
}
use folo_xray_apple.Router.Rules.{RouteAction, Table, lookup}
use folo_xray_apple.Router.Domains.{match_suffixes, match_suffix}

-- `s` is what follows some dot of the domain.
abbrev pub AfterDot : Bytes → Bytes → Type 0
AfterDot s domain = (front : Bytes) × (domain ≡ front ++ b'.' ∷ s)

-- `s` is the domain or a parent of it.
abbrev pub Covers : Bytes → Bytes → Type 0
Covers s domain = (domain ≡ s) ⊎ AfterDot s domain

match_suffixes-none :
    (t : Table) (front s : Bytes)
    → match_suffixes t (front ++ b'.' ∷ s) ≡ none
    → s ≢ []
    → lookup s t ≡ none
unfolding match_suffixes is_empty
match_suffixes-none t [] [] e n = absurd (n refl)
match_suffixes-none t [] (c ∷ cs) e n = ground arith
match_suffixes-none t (f ∷ front) s e n = ground (arith, match_suffixes-none t front s)

-- The longest registered suffix that covers the domain has this action.
pub record Longest (covers : Bytes → Bytes → Type 0) (t : Table) (domain : Bytes) (a : RouteAction)
    : Type 0 where
  pub suffix : Bytes
  pub covering : covers suffix domain
  pub registered : lookup suffix t ≡ some a
  pub longest :
      (s : Bytes) (b : RouteAction)
      → s ≢ []
      → covers s domain
      → lookup s t ≡ some b
      → length s ≤ length suffix

-- A domain with one more byte in front: no suffix after that byte itself is registered.
Longest-cons :
    (t : Table) (c : ℕ) (cs : Bytes) (a : RouteAction)
    → ((b : RouteAction) → cs ≢ [] → c ≡ b'.' → lookup cs t ≡ some b → ⊥)
    → Longest AfterDot t cs a
    → Longest AfterDot t (c ∷ cs) a
Longest-cons t c cs a unregistered l = record {
  suffix = l.suffix;
  covering = (c ∷ l.covering.0, ap (◌∷◌ c) l.covering.1);
  registered = l.registered;
  longest = λ s b n cover e. bound s b n cover.0 cover.1 e;
}
  where
    bound :
        (s : Bytes) (b : RouteAction)
        → s ≢ []
        → (front : Bytes) → c ∷ cs ≡ front ++ b'.' ∷ s
        → lookup s t ≡ some b
        → length s ≤ length l.suffix
    bound s b n [] e r =
        let same : cs ≡ s = cc (e) in
        absurd (
          unregistered b (subst (λ z. z ≢ []) (sym same) n) (cc (e))
            (ap (λ z. lookup z t) same ∙ r))
    bound s b n (f ∷ front) e r = l.longest s b n (front, cc (e)) r

Longest-here :
    (t : Table) (cs : Bytes) (a : RouteAction)
    → lookup cs t ≡ some a
    → Longest AfterDot t (b'.' ∷ cs) a
Longest-here t cs a e = record {
  suffix = cs;
  covering = ([], refl);
  registered = e;
  longest = λ s b n cover r. omega (arith, ap length cover.1, length-append cover.0 (b'.' ∷ s));
}

is_empty-false : (s : Bytes) → s ≢ [] → is_empty s ≡ false
unfolding is_empty
is_empty-false [] n = absurd (n refl)
is_empty-false (c ∷ cs) n = refl

match_suffixes-Longest :
    (t : Table) (domain : Bytes) (a : RouteAction)
    → match_suffixes t domain ≡ some a
    → Longest AfterDot t domain a
unfolding match_suffixes
match_suffixes-Longest t [] a e = cc
match_suffixes-Longest t (c ∷ cs) a e = elim (Bool-cases (c == b'.' && not (is_empty cs))) [
  | inr no_dot ↦
      Longest-cons t c cs a (λ b n dot r. ground (arith, is_empty-false cs n))
        (match_suffixes-Longest t cs a (ground arith))
  | inl dot ↦ elim (Option-cases (lookup cs t)) [
    | inl missing ↦
        Longest-cons t c cs a (λ b n _ r. cc) (match_suffixes-Longest t cs a (ground arith))
    | inr (b, found) ↦
        let is_dot : c ≡ b'.' = ground arith in
        subst (λ z. Longest AfterDot t (z ∷ cs) a) (sym is_dot)
          (Longest-here t cs a (ground (arith, found)))
  ]
]

-- The action that the suffix lookups return is that of the longest registered suffix that is the
-- domain itself or follows one of its dots.
pub match_suffix-Longest :
    (t : Table) (domain : Bytes) (a : RouteAction)
    → match_suffix t domain ≡ some a
    → Longest Covers t domain a
unfolding match_suffix
match_suffix-Longest t domain a e = elim (Option-cases (lookup domain t)) [
  | inr (b, found) ↦ record {
    suffix = domain;
    covering = inl refl;
    registered = ground (arith, found);
    longest = λ s b' n cover r. elim cover [
      | inl same ↦ omega (arith, ap length same)
      | inr (front, later) ↦ omega (arith, ap length later, length-append front (b'.' ∷ s))
    ];
  }
  | inl missing ↦
      let l = match_suffixes-Longest t domain a (ground (arith, missing)) in
      record {
        suffix = l.suffix;
        covering = inr l.covering;
        registered = l.registered;
        longest = λ s b n cover r. elim cover [
          | inl same ↦ absurd (cc (missing, r, ap (λ z. lookup z t) same))
          | inr later ↦ l.longest s b n later r
        ];
      }
]

-- The suffix lookups find nothing only if neither the domain nor any text after one of its dots is a
-- registered suffix.
pub match_suffix-none :
    (t : Table) (domain s : Bytes)
    → match_suffix t domain ≡ none
    → s ≢ []
    → Covers s domain
    → lookup s t ≡ none
unfolding match_suffix
match_suffix-none t domain s e n (inl same) = ap (λ z. lookup z t) (sym same) ∙ ground arith
match_suffix-none t domain s e n (inr (front, later)) =
    match_suffixes-none t front s (ap (match_suffixes t) (sym later) ∙ ground arith) n
