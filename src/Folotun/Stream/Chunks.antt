-- ===== src/Folotun/Stream/Chunks.antt =====
-- io.ReadFull, as main/folotun/frame.go uses it, over a stream that is cut into chunks.
use native.Mathlib.Decide.{dec_le}
use folo_xray_apple.Prelude.{
  ℕ, zero, suc, ◌-◌, ◌≤◌, ◌<◌, ◌≡◌, refl, inl, inr, Bool, true, false, [], ◌∷◌, ◌++◌, arith, leb,
  length, take, drop, Outcome, ok, err, Bytes, length-append, ap, Bool-cases, take-append-drop,
  length-take, take-length-append, drop-length-append, not, ◌||◌, is_empty,
}
use folo_xray_apple.Folotun.Packet.{FrameError, eof, unexpected_eof, stream_broken}
use folo_xray_apple.Folotun.Stream.{got, broke, Reader, read_full}

-- The bytes that come before the end of the stream or its first error.
abbrev pub contents : Reader → Bytes
contents [] = []
contents (got c ∷ r) = c ++ contents r
contents (broke ∷ r) = []

pub take-append_left : (n : ℕ) (xs ys : Bytes) → n ≤ length xs → take n (xs ++ ys) ≡ take n xs
take-append_left zero xs ys h = refl
take-append_left (suc n) [] ys h = absurd (omega arith)
take-append_left (suc n) (x ∷ xs) ys h = ap (◌∷◌ x) (take-append_left n xs ys (omega arith))

drop-append_left : (n : ℕ) (xs ys : Bytes) → n ≤ length xs → drop n (xs ++ ys) ≡ drop n xs ++ ys
drop-append_left zero xs ys h = refl
drop-append_left (suc n) [] ys h = absurd (omega arith)
drop-append_left (suc n) (x ∷ xs) ys h = drop-append_left n xs ys (omega arith)

pub take-append_right :
    (n : ℕ) (xs ys : Bytes) → length xs ≤ n → take n (xs ++ ys) ≡ xs ++ take (n - length xs) ys
take-append_right n [] ys h = ground arith
take-append_right zero (x ∷ xs) ys h = absurd (omega arith)
take-append_right (suc n) (x ∷ xs) ys h = ground (arith, take-append_right n xs ys)

drop-append_right :
    (n : ℕ) (xs ys : Bytes) → length xs ≤ n → drop n (xs ++ ys) ≡ drop (n - length xs) ys
drop-append_right n [] ys h = ground arith
drop-append_right zero (x ∷ xs) ys h = absurd (omega arith)
drop-append_right (suc n) (x ∷ xs) ys h = ground (arith, drop-append_right n xs ys)

-- A read of `n` bytes took them from the front of the stream, and `r'` is what is left.
abbrev pub ReadsFull : ℕ → Reader → Outcome FrameError (Bytes × Reader) → Type 0
ReadsFull n r o =
    (r' : Reader) × (o ≡ ok (take n (contents r), r')) × (contents r' ≡ drop n (contents r))

-- Enough bytes: exactly the first `n` are returned.
pub read_full-ReadsFull :
    (n : ℕ) (started : Bool) (r : Reader)
    → n ≤ length (contents r)
    → ReadsFull n r (read_full n started r)
unfolding read_full
read_full-ReadsFull zero started r h = (r, refl, refl)
read_full-ReadsFull (suc n) started [] h = absurd (omega arith)
read_full-ReadsFull (suc n) started (broke ∷ r) h = absurd (omega arith)
read_full-ReadsFull (suc n) started (got c ∷ r) h = elim (Bool-cases (leb (suc n) (length c))) [
  | inl whole ↦ (
    got (drop (suc n) c) ∷ r,
    ground (arith, take-append_left (suc n) c (contents r)),
    ground (arith, drop-append_left (suc n) c (contents r)),
  )
  | inr part ↦
      let (r', e, left) =
        read_full-ReadsFull (suc n - length c) (started || not (is_empty c)) r
          (ground (arith, length-append c (contents r))) in
      (
        r',
        rw part (ground (arith, e, take-append_right (suc n) c (contents r))),
        ground (arith, left, drop-append_right (suc n) c (contents r)),
      )
]

-- Too few bytes: an error, never a short result.
pub read_full_short :
    (n : ℕ) (started : Bool) (r : Reader)
    → length (contents r) < n
    → (e : FrameError) × (read_full n started r ≡ err e)
unfolding read_full
read_full_short zero started r h = absurd (omega arith)
read_full_short (suc n) true [] h = (unexpected_eof, refl)
read_full_short (suc n) false [] h = (eof, refl)
read_full_short (suc n) started (broke ∷ r) h = (stream_broken, refl)
read_full_short (suc n) started (got c ∷ r) h =
    let (e, short) =
      read_full_short (suc n - length c) (started || not (is_empty c)) r
        (ground (arith, length-append c (contents r))) in
    (e, ground (arith, short, length-append c (contents r)))

-- A stream that begins with the bytes asked for, however it is cut.
pub read_full_exact :
    (xs ys : Bytes) (n : ℕ) (started : Bool) (r : Reader)
    → length xs ≡ n
    → contents r ≡ xs ++ ys
    → (r' : Reader) × (read_full n started r ≡ ok (xs, r')) × (contents r' ≡ ys)
read_full_exact xs ys n started r e c =
    let (r', reads, left) =
      read_full-ReadsFull n started r (omega (arith, ap length c, length-append xs ys)) in
    (
      r',
      ground (arith, reads, take-length-append xs ys),
      ground (arith, left, drop-length-append xs ys),
    )

-- What a successful read says of the stream.
pub read_full-splits :
    (n : ℕ) (started : Bool) (r r' : Reader) (xs : Bytes)
    → read_full n started r ≡ ok (xs, r')
    → (length xs ≡ n) × (contents r ≡ xs ++ contents r')
read_full-splits n started r r' xs e = elim (dec_le n (length (contents r))) [
  | yes enough ↦
      let (r1, reads, left) = read_full-ReadsFull n started r enough in
      ground (arith, reads, left, take-append-drop n (contents r), length-take n (contents r))
  | no short ↦ let (why, fails) = read_full_short n started r (omega arith) in ground (arith, fails)
]
