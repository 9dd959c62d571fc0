-- ===== src/Router/China/Wide.antt =====
-- The IPv6 search of apple-wrapper/router/china_ip.go, which compares two 64-bit halves, against a
-- scan of the table by 128-bit numbers.
use folo_xray_apple.Prelude.{
  ℕ, zero, suc, ◌+◌, ◌*◌, ◌^◌, ◌<◌, ◌≡◌, refl, sym, ap, ◌∙◌, subst, arith, ◌&&◌, [], ◌∷◌, map, ltb,
  leb, length, All, Bool-cases, ltb→lt, inl, inr,
}
use folo_xray_apple.Router.Search.{sort_search}
use folo_xray_apple.Router.China.{
  Wide, Ranges6, range4, range6, ends_from, starts_to, is_china_wide,
}
use folo_xray_apple.Router.China.Ranges.{
  InOrder, in_some_range, first_place, sort_search-first_place, first_place-decides,
}

-- The 128-bit number of two halves.
abbrev pub wide_value : Wide → ℕ
wide_value (hi, lo) = hi * 2 ^ 64 + lo

abbrev pub value_range : Wide × Wide → ℕ × ℕ
value_range (first, last) = (wide_value first, wide_value last)

-- The lower halves are 64-bit words.
abbrev pub Fits : Wide → Type 0
Fits (hi, lo) = lo < 2 ^ 64

abbrev pub RangeFits : Wide × Wide → Type 0
RangeFits (first, last) = Fits first × Fits last

ends_from-leb :
    (ip end : Wide) → Fits ip → Fits end → ends_from ip end ≡ leb (wide_value ip) (wide_value end)
ends_from-leb (hi, lo) (end_hi, end_lo) p q = ground arith

starts_to-leb :
    (ip start : Wide)
    → Fits ip
    → Fits start
    → starts_to ip start ≡ leb (wide_value start) (wide_value ip)
starts_to-leb (hi, lo) (start_hi, start_lo) p q = ground arith

length-values : (rs : Ranges6) → length (map value_range rs) ≡ length rs
length-values [] = refl
length-values (r ∷ rs) = ap suc (length-values rs)

range4-values :
    (rs : Ranges6) (i : ℕ)
    → i < length rs
    → range4 (map value_range rs) i ≡ value_range (range6 rs i)
range4-values [] i h = absurd (omega arith)
range4-values (r ∷ rs) zero h = refl
range4-values (r ∷ rs) (suc i) h = range4-values rs i (omega arith)

range6-Fits : (rs : Ranges6) (i : ℕ) → All RangeFits rs → i < length rs → RangeFits (range6 rs i)
range6-Fits [] i f h = absurd (omega arith)
range6-Fits (r ∷ rs) zero f h = f.0
range6-Fits (r ∷ rs) (suc i) f h = range6-Fits rs i f.1 (omega arith)

module _ (rs : Ranges6) (ip : Wide) (order : InOrder 0 (map value_range rs))
    (fits : All RangeFits rs) (ip_fits : Fits ip) where
  search_place :
      sort_search (length rs) (λ i. ends_from ip (range6 rs i).1)
      ≡ first_place (wide_value ip) (map value_range rs)
  search_place =
      subst
        (λ n.
          sort_search n (λ i. ends_from ip (range6 rs i).1)
          ≡ first_place (wide_value ip) (map value_range rs))
        (length-values rs)
        (sort_search-first_place (wide_value ip) 0 (map value_range rs)
          (λ i. ends_from ip (range6 rs i).1) order
          (λ i h.
            let h' : i < length rs = omega (arith, length-values rs) in
            ends_from-leb ip (range6 rs i).1 ip_fits (range6-Fits rs i fits h').1
            ∙ ap (λ r. leb (wide_value ip) r.1) (sym (range4-values rs i h'))))

  same_answer :
      (t : ℕ)
      → (ltb t (length rs) && starts_to ip (range6 rs t).0) ≡ (
          ltb t (length (map value_range rs))
          && leb (range4 (map value_range rs) t).0 (wide_value ip))
  same_answer t = elim (Bool-cases (ltb t (length rs))) [
    | inr out ↦ rw (length-values rs, out) refl
    | inl within ↦
        let h : t < length rs = ltb→lt t (length rs) within in
        rw (length-values rs, within, range4-values rs t h)
          (starts_to-leb ip (range6 rs t).0 ip_fits (range6-Fits rs t fits h).0)
  ]

-- On a table in order whose lower halves are 64-bit words, the binary search of `IsChinaIPv6`
-- answers as a scan of all the ranges by 128-bit numbers does.
pub is_china_wide-in_some_range :
    (rs : Ranges6) (ip : Wide)
    → InOrder 0 (map value_range rs)
    → All RangeFits rs
    → Fits ip
    → is_china_wide rs ip ≡ in_some_range (wide_value ip) (map value_range rs)
unfolding is_china_wide
is_china_wide-in_some_range rs ip order fits ip_fits = rw (search_place rs ip order fits ip_fits) (
    same_answer rs ip order fits ip_fits (first_place (wide_value ip) (map value_range rs))
    ∙ first_place-decides (wide_value ip) 0 (map value_range rs) order)
