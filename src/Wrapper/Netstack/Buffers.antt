-- ===== src/Wrapper/Netstack/Buffers.antt =====
-- The copies of `readPacket` (apple-wrapper/netstack.go) into the buffer of the caller.
use mathlib.Core.List.{append_assoc}
use folo_xray_apple.Prelude.{
  ℕ, zero, suc, ◌+◌, ◌-◌, ◌≤◌, List, [], ◌∷◌, ◌++◌, ltb, length, take, drop, Outcome, ok, slice,
  slice-ok, Bytes, ◌≡◌, refl, arith, take-length-append, drop-length-append, length-append, ap,
  false, sym, ◌∙◌, length-drop,
}
use folo_xray_apple.Wrapper.Netstack.{Parts, parts_length, copy_parts, NetstackError}

-- The bytes of a packet.
unfoldable pub contents : Parts → Bytes
contents [] = []
contents (part ∷ parts) = part ++ contents parts

module _ {ℓ} {A : Type ℓ} where
  take-all : (xs : List A) → take (length xs) xs ≡ xs
  take-all [] = refl
  take-all (x ∷ xs) = ap (◌∷◌ x) (take-all xs)

  drop-nil : (n : ℕ) → drop {A = A} n [] ≡ []
  drop-nil zero = refl
  drop-nil (suc n) = refl

  drop-drop : (m n : ℕ) (xs : List A) → drop m (drop n xs) ≡ drop (n + m) xs
  drop-drop m zero xs = ground arith
  drop-drop m (suc n) [] = drop-nil m ∙ sym (drop-nil (suc n + m))
  drop-drop m (suc n) (x ∷ xs) =
      let e : suc n + m ≡ suc (n + m) = omega arith in rw (e, drop-drop m n xs) refl

pub ltb-false : (a b : ℕ) → b ≤ a → ltb a b ≡ false
ltb-false a b h = ground arith

slice-rest :
    (front rest : Bytes)
    → slice {E = NetstackError} (front ++ rest) (length front) (length (front ++ rest)) ≡ ok rest
slice-rest front rest =
    slice-ok (front ++ rest) (length front) (length (front ++ rest))
      (omega (arith, length-append front rest)) (omega arith)
    ∙ (rw (length-append front rest, drop-length-append front rest)
        (let e : length front + length rest - length front ≡ length rest = omega arith in
          rw (e, take-all rest) refl))

-- One round of the loop: a slice that fits is copied behind what is there.
copy_parts-round :
    (front room part : Bytes) (parts : Parts)
    → length part ≤ length room
    → copy_parts (front ++ room) (length front) (part ∷ parts)
      ≡ copy_parts ((front ++ part) ++ drop (length part) room) (length (front ++ part)) parts
unfolding copy_parts
copy_parts-round front room part parts fits =
    rw
      (
        slice-rest front room,
        ltb-false (length room) (length part) fits,
        take-length-append front room,
        take-all part,
        length-append front part,
        append_assoc front part (drop (length part) room),
      )
      refl

joined-parts :
    (front part rest room : Bytes) (n : ℕ)
    → ◌≡◌ {A = Outcome NetstackError (Bytes × ℕ)}
        (ok (
          (front ++ part) ++ (rest ++ drop n (drop (length part) room)),
          length (front ++ part) + n,
        ))
        (ok (
          front ++ ((part ++ rest) ++ drop (length part + n) room),
          length front + (length part + n),
        ))
joined-parts front part rest room n =
    let sum : length (front ++ part) + n ≡ length front + (length part + n) =
      omega (arith, length-append front part) in
    rw
      (
        drop-drop n (length part) room,
        sum,
        append_assoc front part (rest ++ drop (length part + n) room),
        append_assoc part rest (drop (length part + n) room),
      )
      refl

-- Slices that fit are copied one after the other, and what is behind them stays.
pub copy_parts-fits :
    (front room : Bytes) (parts : Parts)
    → parts_length parts ≤ length room
    → copy_parts (front ++ room) (length front) parts
      ≡ ok (
        front ++ (contents parts ++ drop (parts_length parts) room),
        length front + parts_length parts,
      )
unfolding parts_length contents copy_parts
copy_parts-fits front room [] fits = ground arith
copy_parts-fits front room (part ∷ parts) fits =
    let left = length-drop (length part) room in
    let next =
      copy_parts-fits (front ++ part) (drop (length part) room) parts (omega (arith, left)) in
    copy_parts-round front room part parts (omega arith)
    ∙ next
    ∙ joined-parts front part (contents parts) room (parts_length parts)
