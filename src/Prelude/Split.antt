-- ===== src/Prelude/Split.antt =====
-- strings.Split by a one-byte separator, and its inverse strings.Join.
use Prim.Native.Nat.{ℕ}
use mathlib.Core.Path.{◌≡◌, refl, ap, ◌∙◌}
use mathlib.Core.List.{List, [], ◌∷◌, ◌++◌}
use mathlib.Core.Logic.{◌≢◌}
use native.Mathlib.Omega.{arith}
use folo_xray_apple.Prelude.Bools.{◌==◌, if◌then◌else◌}
use folo_xray_apple.Prelude.Lists.{All}
use folo_xray_apple.Prelude.Text.{Bytes}

-- Puts a byte in front of the first piece. A split has at least one piece.
abbrev pub onto_head : ℕ → List Bytes → List Bytes
onto_head c [] = []
onto_head c (piece ∷ pieces) = (c ∷ piece) ∷ pieces

unfoldable pub split : ℕ → Bytes → List Bytes
split sep [] = [] ∷ []
split sep (c ∷ cs) = if c == sep then [] ∷ split sep cs else onto_head c (split sep cs)

abbrev pub join : ℕ → List Bytes → Bytes
join sep [] = []
join sep (piece ∷ []) = piece
join sep (piece ∷ next ∷ pieces) = piece ++ sep ∷ join sep (next ∷ pieces)

pub split-ne-nil : (sep : ℕ) (s : Bytes) → split sep s ≢ []
unfolding split
split-ne-nil sep [] = λ e. cc
split-ne-nil sep (c ∷ cs) = λ e. ground (arith, split-ne-nil sep cs)

join-onto_head :
    (sep c : ℕ) (pieces : List Bytes)
    → pieces ≢ []
    → join sep (onto_head c pieces) ≡ c ∷ join sep pieces
join-onto_head sep c [] h = absurd (h refl)
join-onto_head sep c (piece ∷ []) h = refl
join-onto_head sep c (piece ∷ next ∷ pieces) h = refl

join-nil_cons :
    (sep : ℕ) (pieces : List Bytes) → pieces ≢ [] → join sep ([] ∷ pieces) ≡ sep ∷ join sep pieces
join-nil_cons sep [] h = absurd (h refl)
join-nil_cons sep (piece ∷ pieces) h = refl

pub join-split : (sep : ℕ) (s : Bytes) → join sep (split sep s) ≡ s
unfolding split
join-split sep [] = refl
join-split sep (c ∷ cs) = ground (
  arith,
  join-split sep cs,
  split-ne-nil sep cs,
  join-nil_cons sep (split sep cs),
  join-onto_head sep c (split sep cs),
)

-- No byte of the piece is the separator.
abbrev pub Lacks : ℕ → Bytes → Type 0
Lacks sep = All (λ c. c ≢ sep)

split-piece : (sep : ℕ) (piece : Bytes) → Lacks sep piece → split sep piece ≡ piece ∷ []
unfolding split
split-piece sep [] h = refl
split-piece sep (c ∷ cs) h = ground (arith, split-piece sep cs h.1)

split-append :
    (sep : ℕ) (piece rest : Bytes)
    → Lacks sep piece
    → split sep (piece ++ sep ∷ rest) ≡ piece ∷ split sep rest
unfolding split
split-append sep [] rest h = ground arith
split-append sep (c ∷ cs) rest h = ground (arith, split-append sep cs rest h.1)

pub split-join :
    (sep : ℕ) (pieces : List Bytes)
    → pieces ≢ []
    → All (Lacks sep) pieces
    → split sep (join sep pieces) ≡ pieces
split-join sep [] n h = absurd (n refl)
split-join sep (piece ∷ []) n h = split-piece sep piece h.0
split-join sep (piece ∷ next ∷ pieces) n h =
    split-append sep piece (join sep (next ∷ pieces)) h.0
    ∙ ap (◌∷◌ piece) (split-join sep (next ∷ pieces) (λ e. cc) h.1)
