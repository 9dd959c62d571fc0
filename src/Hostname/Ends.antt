-- ===== src/Hostname/Ends.antt =====
-- The first and the last byte of a name are letters or digits, so TrimSpace leaves a name alone.
use mathlib.Core.List.{reverse-cons}
use folo_xray_apple.Prelude.{
  ℕ, zero, suc, ◌-◌, ◌<◌, ◌≡◌, refl, ◌≢◌, inl, inr, arith, sym, ap, ◌∙◌, subst, List, [], ◌∷◌, ◌++◌,
  length, at, All, Bytes, join, reverse, space_front, space_back, trim_space, trim_space_id,
}
use folo_xray_apple.Hostname.{IsAlnum, IsLdh, IsLabel, IsHostname}

All-at : (P : ℕ → Type 0) (s : Bytes) (i : ℕ) → All P s → i < length s → P (at s i)
All-at P [] i h lt = absurd (omega arith)
All-at P (c ∷ cs) zero h lt = h.0
All-at P (c ∷ cs) (suc i) h lt = All-at P cs i h.1 (omega arith)

length_pos : (s : Bytes) → s ≢ [] → 0 < length s
length_pos [] n = absurd (n refl)
length_pos (c ∷ s) n = omega arith

abbrev pub last : Bytes → ℕ
last s = at s (length s - 1)

last-cons : (c : ℕ) (s : Bytes) → s ≢ [] → last (c ∷ s) ≡ last s
last-cons c [] n = absurd (n refl)
last-cons c (x ∷ s) n = ground arith

last-append : (xs ys : Bytes) → ys ≢ [] → last (xs ++ ys) ≡ last ys
last-append [] ys n = refl
last-append (x ∷ []) ys n = last-cons x ys n
last-append (x ∷ x' ∷ xs) ys n =
    last-cons x (x' ∷ (xs ++ ys)) (λ e. cc) ∙ last-append (x' ∷ xs) ys n

reverse-last : (s : Bytes) → s ≢ [] → (rest : Bytes) × (reverse s ≡ last s ∷ rest)
reverse-last [] n = absurd (n refl)
reverse-last (c ∷ []) n = ([], refl)
reverse-last (c ∷ x ∷ s) n =
    let (rest, e) = reverse-last (x ∷ s) (λ z. cc) in
    (
      rest ++ c ∷ [],
      reverse-cons c (x ∷ s)
          ∙ ap (λ t. t ++ c ∷ []) e
          ∙ ap (λ z. z ∷ (rest ++ c ∷ [])) (sym (last-cons c (x ∷ s) (λ z. cc))),
    )

space_front-alnum : (c : ℕ) (s : Bytes) → IsAlnum c → space_front (c ∷ s) ≡ 0
unfolding space_front
space_front-alnum c [] h = ground arith
space_front-alnum c (b ∷ []) h = ground arith
space_front-alnum c (b ∷ a ∷ s) h = ground arith

space_back-alnum : (c : ℕ) (s : Bytes) → IsAlnum c → space_back (c ∷ s) ≡ 0
unfolding space_back
space_back-alnum c [] h = ground arith
space_back-alnum c (b ∷ []) h = ground arith
space_back-alnum c (b ∷ a ∷ s) h = ground arith

-- Letters or digits at both ends: nothing is trimmed.
pub trim_space-alnum : (s : Bytes) → s ≢ [] → IsAlnum (at s 0) → IsAlnum (last s) → trim_space s ≡ s
trim_space-alnum [] n f l = absurd (n refl)
trim_space-alnum (c ∷ cs) n f l =
    let (rest, e) = reverse-last (c ∷ cs) n in
    trim_space_id (c ∷ cs) (space_front-alnum c cs f)
      (subst (λ r. space_back r ≡ 0) (sym e) (space_back-alnum (last (c ∷ cs)) rest l))

label-first : (label : Bytes) → IsLabel label → IsAlnum (at label 0)
label-first [] l = absurd (l.ne refl)
label-first (c ∷ cs) l = elim (l.ldh.0) [ inl hyphen ↦ absurd (l.first hyphen) | inr alnum ↦ alnum ]

label-last : (label : Bytes) → IsLabel label → IsAlnum (last label)
label-last [] l = absurd (l.ne refl)
label-last (c ∷ cs) l = elim (All-at IsLdh (c ∷ cs) (length (c ∷ cs) - 1) l.ldh (omega arith)) [
  | inl hyphen ↦ absurd (l.last hyphen)
  | inr alnum ↦ alnum
]

-- Letters or digits at both ends.
pub record Ends (s : Bytes) : Type 0 where
  pub ne : s ≢ []
  pub first : IsAlnum (at s 0)
  pub last_one : IsAlnum (last s)

label-Ends : (label : Bytes) → IsLabel label → Ends label
label-Ends label l = record {
  ne = l.ne;
  first = label-first label l;
  last_one = label-last label l;
}

pub append-Ends : (xs ys : Bytes) (c : ℕ) → Ends xs → Ends ys → Ends (xs ++ c ∷ ys)
append-Ends [] ys c a b = absurd (a.ne refl)
append-Ends (x ∷ xs) ys c a b = record {
  ne = λ e. cc;
  first = a.first;
  last_one =
      subst IsAlnum (sym (last-append (x ∷ xs) (c ∷ ys) (λ e. cc) ∙ last-cons c ys b.ne))
        b.last_one;
}

join-Ends : (labels : List Bytes) → labels ≢ [] → All IsLabel labels → Ends (join b'.' labels)
join-Ends [] n h = absurd (n refl)
join-Ends (label ∷ []) n h = label-Ends label h.0
join-Ends (label ∷ next ∷ labels) n h =
    append-Ends label (join b'.' (next ∷ labels)) b'.' (label-Ends label h.0)
      (join-Ends (next ∷ labels) (λ e. cc) h.1)

pub IsHostname-Ends : (s : Bytes) → IsHostname s → Ends s
IsHostname-Ends s h = subst Ends (sym h.joined) (join-Ends h.labels h.some_label h.each)

pub IsHostname-ne : (s : Bytes) → IsHostname s → s ≢ []
IsHostname-ne s h = (IsHostname-Ends s h).ne

pub All-Ends : (s : Bytes) → s ≢ [] → All IsAlnum s → Ends s
All-Ends s n h =
    let some_there : 0 < length s = length_pos s n in
    record {
      ne = n;
      first = All-at IsAlnum s 0 h some_there;
      last_one = All-at IsAlnum s (length s - 1) h (omega arith);
    }

pub trim_space-Ends : (s : Bytes) → Ends s → trim_space s ≡ s
trim_space-Ends s e = trim_space-alnum s e.ne e.first e.last_one

pub trim_space-IsHostname : (s : Bytes) → IsHostname s → trim_space s ≡ s
trim_space-IsHostname s h = trim_space-Ends s (IsHostname-Ends s h)
