-- ===== src/Prelude/Calls.antt =====
-- What a Go call does: it returns a value, returns an error, or panics (an index or a slice out of
-- range). `index` and `slice` are the checked accesses of the language.
use Prim.Native.Nat.{ℕ, ◌≤◌, ◌<◌, ◌-◌}
use mathlib.Core.Path.{◌≡◌, refl}
use mathlib.Core.Logic.{◌⊎◌, inl, inr}
use mathlib.Core.Bool.{Bool, true, false, ◌&&◌}
use mathlib.Core.Option.{none, some}
use mathlib.Core.List.{List}
use folo_xray_apple.Prelude.Bools.{leb, le→leb, if◌then◌else◌}
use folo_xray_apple.Prelude.Lists.{length, get_elem?, get_or, take, drop, get_elem?-some}

pub data Outcome {ℓ κ} (E : Type ℓ) (A : Type κ) : Type (ℓ ⊔ κ) where
  ok : A → Outcome E A
  err : E → Outcome E A
  panic : Outcome E A

infixl 5 ◌>>=◌ ◌>>◌
abbrev pub ◌>>=◌ {ℓ κ μ} :
    {E : Type ℓ} {A : Type κ} {B : Type μ} → Outcome E A → (A → Outcome E B) → Outcome E B
ok a >>= f = f a
err e >>= f = err e
panic >>= f = panic

abbrev pub ◌>>◌ {ℓ κ} : {E : Type ℓ} {B : Type κ} → Outcome E (Unit {0}) → Outcome E B → Outcome E B
m >> k = m >>= λ _. k

-- `if bad { return err }`
abbrev pub fail_if {ℓ} : {E : Type ℓ} → Bool → E → Outcome E (Unit {0})
fail_if true e = err e
fail_if false e = ok tt

module _ {ℓ κ} {E : Type ℓ} {A : Type κ} where
  -- `xs[i]`
  unfoldable pub index : List A → ℕ → Outcome E A
  index xs i = elim (get_elem? xs i) [ none ↦ panic | some x ↦ ok x ]

  -- `xs[lo:hi]`
  unfoldable pub slice : List A → ℕ → ℕ → Outcome E (List A)
  slice xs lo hi =
      if leb lo hi && leb hi (length xs) then ok (take (hi - lo) (drop lo xs)) else panic

  pub index-ok : (xs : List A) (i : ℕ) (d : A) → i < length xs → index xs i ≡ ok (get_or xs i d)
  unfolding index
  index-ok xs i d h = rw (index, get_elem?-some xs i d h)

  pub slice-ok :
      (xs : List A) (lo hi : ℕ)
      → lo ≤ hi
      → hi ≤ length xs
      → slice xs lo hi ≡ ok (take (hi - lo) (drop lo xs))
  unfolding slice
  slice-ok xs lo hi h k = rw (slice, le→leb lo hi h, le→leb hi (length xs) k)

-- Inversion of a call that succeeds: the value of its first part, and the rest on that value.
pub >>=-returns {ℓ κ μ} :
    {E : Type ℓ} {A : Type κ} {B : Type μ} (first : Outcome E A) (rest : A → Outcome E B) {out : B}
    → (first >>= rest) ≡ ok out
    → (value : A) × (first ≡ ok value) × (rest value ≡ ok out)
>>=-returns panic rest e = cc
>>=-returns (err why) rest e = cc
>>=-returns (ok value) rest e = (value, refl, e)

pub Outcome-cases {ℓ κ} :
    {E : Type ℓ} {A : Type κ} (m : Outcome E A)
    → ((a : A) × (m ≡ ok a)) ⊎ (((e : E) × (m ≡ err e)) ⊎ (m ≡ panic))
Outcome-cases (ok a) = inl (a, refl)
Outcome-cases (err e) = inr (inl (e, refl))
Outcome-cases panic = inr (inr refl)
