-- ===== src/Prelude/Words.antt =====
-- binary.BigEndian over byte slices: each access is checked, as in Go.
use Prim.Native.Nat.{ℕ, zero, suc, ◌+◌, ◌-◌, ◌*◌, ◌/◌, ◌%◌, ◌≤◌}
use mathlib.Core.Path.{◌≡◌, refl}
use mathlib.Core.List.{[], ◌∷◌}
use native.Mathlib.Omega.{arith}
use folo_xray_apple.Prelude.Calls.{Outcome, ok, ◌>>=◌, index, slice, slice-ok}
use folo_xray_apple.Prelude.Lists.{length, get_or, take, drop}
use folo_xray_apple.Prelude.Text.{Bytes}

-- The byte at a place that is known to be in range.
abbrev pub at : Bytes → ℕ → ℕ
at xs i = get_or xs i 0

module _ {ℓ} {E : Type ℓ} where
  -- `binary.BigEndian.Uint16(b)`
  unfoldable pub uint16 : Bytes → Outcome E ℕ
  uint16 b = do x ← index b 0; y ← index b 1; ok (x * 256 + y)

  -- `binary.BigEndian.Uint16(xs[lo:hi])`
  unfoldable pub uint16_in : Bytes → ℕ → ℕ → Outcome E ℕ
  unfolding uint16
  uint16_in xs lo hi = do b ← slice xs lo hi; uint16 b

  -- `binary.BigEndian.Uint32(b)`
  unfoldable pub uint32 : Bytes → Outcome E ℕ
  uint32 b = do
    x ← index b 0
    y ← index b 1
    z ← index b 2
    w ← index b 3
    ok (x * 16777216 + y * 65536 + z * 256 + w)

-- `binary.BigEndian.PutUint32`
abbrev pub put_uint32 : ℕ → Bytes
put_uint32 v = (v / 16777216 % 256) ∷ (v / 65536 % 256) ∷ (v / 256 % 256) ∷ (v % 256) ∷ []

take_two :
    (xs : Bytes) (lo : ℕ)
    → lo + 2 ≤ length xs
    → take 2 (drop lo xs) ≡ at xs lo ∷ at xs (lo + 1) ∷ []
take_two [] lo h = absurd (omega arith)
take_two (a ∷ []) zero h = absurd (omega arith)
take_two (a ∷ b ∷ xs) zero h = ground arith
take_two (a ∷ xs) (suc lo) h = ground (arith, take_two xs lo)

pub uint16_in-ok {ℓ} :
    {E : Type ℓ} (xs : Bytes) (lo hi : ℕ)
    → hi ≡ lo + 2
    → hi ≤ length xs
    → uint16_in {E = E} xs lo hi ≡ ok (at xs lo * 256 + at xs (lo + 1))
unfolding uint16_in index
uint16_in-ok xs lo hi e h =
    let width : hi - lo ≡ 2 = omega arith in
    rw (uint16_in, slice-ok xs lo hi (omega arith) h, width, take_two xs lo (omega arith)) refl
