-- ===== src/Profile/Base64/NoPanic.antt =====
-- The decoders of main/folojson/folojson.go return or fail, and do nothing else.
use folo_xray_apple.Prelude.{
  ℕ, refl, ◌≢◌, arith, Bool, [], ◌∷◌, Outcome, ok, err, panic, Bytes, ◌>>=◌,
}
use folo_xray_apple.Profile.Hex.{Corrupt}
use folo_xray_apple.Profile.Base64.{
  sextet, one_byte, two_bytes, three_bytes, last_four, next_four, decode_symbols, strip_breaks,
  decode_base64,
}

>>=-ne-panic :
    {A B : Type 0} (m : Outcome Corrupt A) (f : A → Outcome Corrupt B)
    → m ≢ panic
    → ((a : A) → f a ≢ panic)
    → (m >>= f) ≢ panic
>>=-ne-panic (ok a) f h k = k a
>>=-ne-panic (err e) f h k = λ e. cc
>>=-ne-panic panic f h k = λ e. h refl

sextet-ne-panic : (u : Bool) (c : ℕ) → sextet u c ≢ panic
unfolding sextet
sextet-ne-panic u c h = ground arith

one_byte-ne-panic : (u : Bool) (a b : ℕ) → one_byte u a b ≢ panic
unfolding one_byte
one_byte-ne-panic u a b =
    >>=-ne-panic _ _ (sextet-ne-panic u a) λ x. >>=-ne-panic _ _ (sextet-ne-panic u b) λ y e. cc

two_bytes-ne-panic : (u : Bool) (a b c : ℕ) → two_bytes u a b c ≢ panic
unfolding two_bytes
two_bytes-ne-panic u a b c = >>=-ne-panic _ _ (sextet-ne-panic u a) λ x.
    >>=-ne-panic _ _ (sextet-ne-panic u b) λ y. >>=-ne-panic _ _ (sextet-ne-panic u c) λ z e. cc

three_bytes-ne-panic : (u : Bool) (a b c d : ℕ) → three_bytes u a b c d ≢ panic
unfolding three_bytes
three_bytes-ne-panic u a b c d = >>=-ne-panic _ _ (sextet-ne-panic u a) λ x.
    >>=-ne-panic _ _ (sextet-ne-panic u b) λ y.
      >>=-ne-panic _ _ (sextet-ne-panic u c) λ z. >>=-ne-panic _ _ (sextet-ne-panic u d) λ w e. cc

next_four-ne-panic :
    (u : Bool) (a b c d : ℕ) (m : Outcome Corrupt Bytes) → m ≢ panic → next_four u a b c d m ≢ panic
unfolding next_four
next_four-ne-panic u a b c d m h =
    >>=-ne-panic _ _ (three_bytes-ne-panic u a b c d) λ front. >>=-ne-panic _ _ h λ more e. cc

last_four-ne-panic : (u : Bool) (a b c : ℕ) (r : Bytes) → last_four u a b c r ≢ panic
unfolding last_four
last_four-ne-panic u a b c r h = ground (arith, one_byte-ne-panic u a b, two_bytes-ne-panic u a b c)

decode_symbols-ne-panic : (u p : Bool) (s : Bytes) → decode_symbols u p s ≢ panic
unfolding decode_symbols
decode_symbols-ne-panic u p [] h = cc
decode_symbols-ne-panic u p (a ∷ []) h = cc
decode_symbols-ne-panic u p (a ∷ b ∷ []) h = ground (arith, one_byte-ne-panic u a b)
decode_symbols-ne-panic u p (a ∷ b ∷ c ∷ []) h = ground (arith, two_bytes-ne-panic u a b c)
decode_symbols-ne-panic u p (a ∷ b ∷ c ∷ d ∷ r) h =
    let more =
      next_four-ne-panic u a b c d (decode_symbols u p r) (decode_symbols-ne-panic u p r) in
    ground (arith, last_four-ne-panic u a b c r)

pub decode_base64-ne-panic : (u p : Bool) (s : Bytes) → decode_base64 u p s ≢ panic
unfolding decode_base64
decode_base64-ne-panic u p s = decode_symbols-ne-panic u p (strip_breaks s)
