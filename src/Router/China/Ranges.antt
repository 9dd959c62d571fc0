-- ===== src/Router/China/Ranges.antt =====
-- The binary searches of apple-wrapper/router/china_ip.go against a scan of the whole table.
use folo_xray_apple.Prelude.{
  ℕ, zero, suc, ◌+◌, ◌≤◌, ◌<◌, ◌≡◌, refl, ◌∙◌, arith, Bool, true, false, ◌&&◌, ◌||◌, [], ◌∷◌, ltb,
  leb, length,
}
use folo_xray_apple.Router.Search.{sort_search, sort_search-TurnsAt}
use folo_xray_apple.Router.China.{Ranges4, range4, is_china_ipv4}

-- The table is in order: the ranges are not empty, and each ends before the next begins.
abbrev pub InOrder : ℕ → Ranges4 → Type 0
InOrder least [] = Unit {0}
InOrder least ((first, last) ∷ rs) = (least ≤ first) × (first ≤ last) × InOrder (last + 1) rs

-- The address is in one of the ranges.
abbrev pub in_some_range : ℕ → Ranges4 → Bool
in_some_range ip [] = false
in_some_range ip ((first, last) ∷ rs) = (leb first ip && leb ip last) || in_some_range ip rs

-- The place of the first range that does not end before the address.
abbrev pub first_place : ℕ → Ranges4 → ℕ
first_place ip [] = 0
first_place ip ((first, last) ∷ rs) = elim (leb ip last) [
  | true ↦ 0
  | false ↦ suc (first_place ip rs)
]

pub first_place-le : (ip : ℕ) (rs : Ranges4) → first_place ip rs ≤ length rs
first_place-le ip [] = omega arith
first_place-le ip ((first, last) ∷ rs) = ground (arith, first_place-le ip rs)

before_first_place :
    (ip m : ℕ) (rs : Ranges4) → m < first_place ip rs → leb ip (range4 rs m).1 ≡ false
before_first_place ip m [] h = absurd (omega arith)
before_first_place ip zero ((first, last) ∷ rs) h = ground arith
before_first_place ip (suc m) ((first, last) ∷ rs) h = ground (arith, before_first_place ip m rs)

InOrder-bound :
    (least m : ℕ) (rs : Ranges4) → InOrder least rs → m < length rs → least ≤ (range4 rs m).1
InOrder-bound least m [] o h = absurd (omega arith)
InOrder-bound least zero ((first, last) ∷ rs) o h = omega arith
InOrder-bound least (suc m) ((first, last) ∷ rs) o h =
    omega (arith, InOrder-bound (last + 1) m rs o.2 (omega arith))

after_first_place :
    (ip m least : ℕ) (rs : Ranges4)
    → InOrder least rs
    → first_place ip rs ≤ m
    → m < length rs
    → leb ip (range4 rs m).1 ≡ true
after_first_place ip m least [] o a b = absurd (omega arith)
after_first_place ip zero least ((first, last) ∷ rs) o a b = ground arith
after_first_place ip (suc m) least ((first, last) ∷ rs) o a b =
    ground (arith, InOrder-bound (last + 1) m rs o.2, after_first_place ip m (last + 1) rs o.2)

-- Any test that agrees with the order of the ends is searched to the first place.
pub sort_search-first_place :
    (ip least : ℕ) (rs : Ranges4) (test : ℕ → Bool)
    → InOrder least rs
    → ((i : ℕ) → i < length rs → test i ≡ leb ip (range4 rs i).1)
    → sort_search (length rs) test ≡ first_place ip rs
sort_search-first_place ip least rs test o agrees =
    sort_search-TurnsAt (length rs) (first_place ip rs) test (record {
      within = first_place-le ip rs;
      before = λ m h. agrees m (omega (arith, first_place-le ip rs)) ∙ before_first_place ip m rs h;
      after = λ m a b. agrees m b ∙ after_first_place ip m least rs o a b;
    })

none_below :
    (ip least : ℕ) (rs : Ranges4) → InOrder least rs → ip < least → in_some_range ip rs ≡ false
none_below ip least [] o h = refl
none_below ip least ((first, last) ∷ rs) o h = ground (arith, none_below ip (last + 1) rs o.2)

-- The range at the first place decides.
pub first_place-decides :
    (ip least : ℕ) (rs : Ranges4)
    → InOrder least rs
    → (ltb (first_place ip rs) (length rs) && leb (range4 rs (first_place ip rs)).0 ip)
      ≡ in_some_range ip rs
first_place-decides ip least [] o = refl
first_place-decides ip least ((first, last) ∷ rs) o =
    ground (arith, none_below ip (last + 1) rs o.2, first_place-decides ip (last + 1) rs o.2)

-- On a table in order the binary search of `IsChinaIPv4` answers as a scan of all its ranges does.
pub is_china_ipv4-in_some_range :
    (rs : Ranges4) (ip : ℕ) → InOrder 0 rs → is_china_ipv4 rs ip ≡ in_some_range ip rs
unfolding is_china_ipv4
is_china_ipv4-in_some_range rs ip o =
    rw (sort_search-first_place ip 0 rs (λ i. leb ip (range4 rs i).1) o (λ i h. refl))
      (first_place-decides ip 0 rs o)
