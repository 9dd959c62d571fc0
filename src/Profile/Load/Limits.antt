-- ===== src/Profile/Load/Limits.antt =====
-- io.ReadAll over io.LimitReader, as `Load` of main/folojson/folojson.go uses it.
use mathlib.Core.List.{append-nil}
use native.Mathlib.Decide.{dec_le}
use folo_xray_apple.Prelude.{
  ℕ, zero, suc, ◌-◌, ◌≤◌, ◌≡◌, refl, [], ◌∷◌, arith, some, length, take, length-append, take_whole,
  ap,
}
use folo_xray_apple.Folotun.Stream.{Reader, got, broke}
use folo_xray_apple.Folotun.Stream.Chunks.{contents, take-append_left, take-append_right}
use folo_xray_apple.Profile.Load.{read_limited}

-- No Read of the reader fails.
abbrev pub IsUnbroken : Reader → Type 0
IsUnbroken [] = Unit {0}
IsUnbroken (got c ∷ r) = IsUnbroken r
IsUnbroken (broke ∷ r) = ⊥

-- A reader that holds enough is read up to the limit, whatever comes after it.
pub read_limited-take :
    (n : ℕ) (r : Reader) → n ≤ length (contents r) → read_limited n r ≡ some (take n (contents r))
unfolding read_limited
read_limited-take zero r h = refl
read_limited-take (suc n) [] h = absurd (omega arith)
read_limited-take (suc n) (broke ∷ r) h = absurd (omega arith)
read_limited-take (suc n) (got c ∷ r) h = elim (dec_le (suc n) (length c)) [
  | yes whole ↦
      rw (take-append_left (suc n) c (contents r))
        (ground (arith, read_limited-take (suc n - length c) r, append-nil (take (suc n) c)))
  | no part ↦ ground (
    arith,
    read_limited-take (suc n - length c) r,
    length-append c (contents r),
    take-append_right (suc n) c (contents r),
    take_whole (suc n) c,
  )
]

-- A reader that holds less and does not fail is read as a whole.
pub read_limited-IsUnbroken :
    (n : ℕ) (r : Reader)
    → IsUnbroken r
    → length (contents r) ≤ n
    → read_limited n r ≡ some (contents r)
unfolding read_limited
read_limited-IsUnbroken zero r u h = ap some (take_whole zero (contents r) h)
read_limited-IsUnbroken (suc n) [] u h = refl
read_limited-IsUnbroken (suc n) (broke ∷ r) u h = absurd u
read_limited-IsUnbroken (suc n) (got c ∷ r) u h = ground (
  arith,
  read_limited-IsUnbroken (suc n - length c) r u,
  length-append c (contents r),
  take_whole (suc n) c,
)
