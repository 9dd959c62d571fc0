-- ===== src/Hostname/Labels.antt =====
-- The labels and the bytes of a name.
use folo_xray_apple.Prelude.{
  ◌≡◌, refl, ◌⊎◌, inl, inr, ap, ◌∙◌, sym, subst, arith, List, [], ◌∷◌, ◌++◌, All, Bytes, split,
  join, split-join, Lacks,
}
use folo_xray_apple.Hostname.{IsLdh, IsLabel, IsHostname}

ldh-Lacks : (s : Bytes) → All IsLdh s → Lacks b'.' s
ldh-Lacks [] h = tt
ldh-Lacks (c ∷ cs) h = (ground arith, ldh-Lacks cs h.1)

labels-Lacks : (labels : List Bytes) → All IsLabel labels → All (Lacks b'.') labels
labels-Lacks [] h = tt
labels-Lacks (label ∷ labels) h = (ldh-Lacks label h.0.ldh, labels-Lacks labels h.1)

-- A split at the dots gives the labels back.
pub split-IsHostname : (s : Bytes) (h : IsHostname s) → split b'.' s ≡ h.labels
split-IsHostname s h =
    ap (split b'.') h.joined ∙ split-join b'.' h.labels h.some_label (labels-Lacks h.labels h.each)

-- A byte of a name.
abbrev pub IsNameByte : Bytes → Type 0
IsNameByte s = All (λ c. (c ≡ b'.') ⊎ IsLdh c) s

ldh-IsNameByte : (s : Bytes) → All IsLdh s → IsNameByte s
ldh-IsNameByte [] h = tt
ldh-IsNameByte (c ∷ cs) h = (inr h.0, ldh-IsNameByte cs h.1)

append-IsNameByte : (s t : Bytes) → IsNameByte s → IsNameByte t → IsNameByte (s ++ t)
append-IsNameByte [] t h k = k
append-IsNameByte (c ∷ cs) t h k = (h.0, append-IsNameByte cs t h.1 k)

join-IsNameByte : (labels : List Bytes) → All IsLabel labels → IsNameByte (join b'.' labels)
join-IsNameByte [] h = tt
join-IsNameByte (label ∷ []) h = ldh-IsNameByte label h.0.ldh
join-IsNameByte (label ∷ next ∷ labels) h =
    append-IsNameByte label (b'.' ∷ join b'.' (next ∷ labels)) (ldh-IsNameByte label h.0.ldh)
      (inl refl, join-IsNameByte (next ∷ labels) h.1)

pub IsHostname-IsNameByte : (s : Bytes) → IsHostname s → IsNameByte s
IsHostname-IsNameByte s h = subst IsNameByte (sym h.joined) (join-IsNameByte h.labels h.each)
