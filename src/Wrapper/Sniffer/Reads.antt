-- ===== src/Wrapper/Sniffer/Reads.antt =====
-- The checked accesses of apple-wrapper/sniffer.go at a place whose bytes are known: `drop pos data` is
-- what stands from `pos` on.
use folo_xray_apple.Prelude.{
  ℕ, zero, suc, ◌+◌, ◌-◌, ◌*◌, ◌≤◌, ◌<◌, ◌≡◌, refl, ap, ◌∙◌, sym, arith, [], ◌∷◌, ◌++◌, length,
  drop, length-append, length-drop, take-length-append, drop-length-append, slice-ok, ok, index,
  slice, uint16_in, Bytes,
}

drop-nil : (n : ℕ) → drop {A = ℕ} n [] ≡ []
drop-nil zero = refl
drop-nil (suc n) = refl

drop-add : (n m : ℕ) (s : Bytes) → drop (n + m) s ≡ drop m (drop n s)
drop-add zero m s = let e : zero + m ≡ m = omega arith in rw e
drop-add (suc n) m [] = drop-nil (suc n + m) ∙ sym (drop-nil m)
drop-add (suc n) m (c ∷ s) = let e : suc n + m ≡ suc (n + m) = omega arith in rw e (drop-add n m s)

-- What follows the bytes at a place.
pub drop-after :
    (s : Bytes) (pos : ℕ) (xs rest : Bytes)
    → drop pos s ≡ xs ++ rest
    → drop (pos + length xs) s ≡ rest
drop-after s pos xs rest h =
    drop-add pos (length xs) s ∙ (ap (drop (length xs)) h ∙ drop-length-append xs rest)

-- The same at a place that is given otherwise.
pub drop-past :
    (s : Bytes) (pos next : ℕ) (xs rest : Bytes)
    → next ≡ pos + length xs
    → drop pos s ≡ xs ++ rest
    → drop next s ≡ rest
drop-past s pos next xs rest e h = rw e (drop-after s pos xs rest h)

pub length-at :
    (s : Bytes) (pos : ℕ) (xs rest : Bytes)
    → 0 < length xs
    → drop pos s ≡ xs ++ rest
    → pos + length xs + length rest ≡ length s
length-at s pos xs rest some_here h =
    omega (arith, ap length h, length-drop pos s, length-append xs rest)

module _ {ℓ} {E : Type ℓ} where
  pub slice-at :
      (s : Bytes) (pos hi : ℕ) (xs rest : Bytes)
      → hi ≡ pos + length xs
      → hi ≤ length s
      → drop pos s ≡ xs ++ rest
      → slice {E = E} s pos hi ≡ ok xs
  unfolding slice
  slice-at s pos hi xs rest e within h =
      let width : hi - pos ≡ length xs = omega arith in
      slice-ok s pos hi (omega arith) within ∙ ap ok (rw (width, h) (take-length-append xs rest))

  pub index-at :
      (s : Bytes) (pos x : ℕ) (rest : Bytes) → drop pos s ≡ x ∷ rest → index {E = E} s pos ≡ ok x
  unfolding index
  index-at (y ∷ s) zero x rest h = ground arith
  index-at [] zero x rest h = absurd cc
  index-at [] (suc pos) x rest h = absurd cc
  index-at (y ∷ s) (suc pos) x rest h = index-at s pos x rest h

  pub uint16_in-at :
      (s : Bytes) (pos hi x y : ℕ) (rest : Bytes)
      → hi ≡ pos + 2
      → hi ≤ length s
      → drop pos s ≡ x ∷ y ∷ rest
      → uint16_in {E = E} s pos hi ≡ ok (x * 256 + y)
  unfolding uint16_in index
  uint16_in-at s pos hi x y rest e within h =
      rw (uint16_in, slice-at s pos hi (x ∷ y ∷ []) rest e within h) refl
