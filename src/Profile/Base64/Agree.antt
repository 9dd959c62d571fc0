-- ===== src/Profile/Base64/Agree.antt =====
-- The four encodings of main/folojson/folojson.go never read a text in two ways.
use folo_xray_apple.Prelude.{
  ℕ, ◌≡◌, ◌≢◌, arith, Bool, true, false, [], ◌∷◌, Outcome, ok, Bytes, Bool-cases, inl, inr, ◌==◌,
  ◌&&◌, if◌then◌else◌, is_empty, >>=-returns, ◌>>=◌,
}
use folo_xray_apple.Profile.Hex.{Corrupt}
use folo_xray_apple.Profile.Base64.{
  sextet, one_byte, two_bytes, three_bytes, last_four, next_four, decode_symbols, strip_breaks,
  decode_base64,
}

-- Two calls that both succeed return the same.
abbrev pub Agree : {A : Type 0} → Outcome Corrupt A → Outcome Corrupt A → Type 0
Agree {A} m n = (x y : A) → m ≡ ok x → n ≡ ok y → x ≡ y

>>=-Agree :
    {A B : Type 0} (m n : Outcome Corrupt A) (f g : A → Outcome Corrupt B)
    → Agree m n
    → ((a : A) → Agree (f a) (g a))
    → Agree (m >>= f) (n >>= g)
>>=-Agree m n f g same then_same x y h k =
    let (a, e, h') = >>=-returns m f h in
    let (b, d, k') = >>=-returns n g k in then_same b x y (rw (← same a b e d) h') k'

sextet-Agree : (u v : Bool) (c : ℕ) → Agree (sextet u c) (sextet v c)
unfolding sextet
sextet-Agree u v c x y h k = ground arith

-- No alphabet has the padding.
sextet_padding : (u : Bool) (x : ℕ) → sextet u b'=' ≢ ok x
unfolding sextet
sextet_padding true x h = cc
sextet_padding false x h = cc

ok-Agree : {A : Type 0} (a : A) → Agree {A = A} (ok a) (ok a)
ok-Agree a x y h k = cc

one_byte-Agree : (u v : Bool) (a b : ℕ) → Agree (one_byte u a b) (one_byte v a b)
unfolding one_byte
one_byte-Agree u v a b =
    >>=-Agree _ _ _ _ (sextet-Agree u v a)
      λ x. >>=-Agree _ _ _ _ (sextet-Agree u v b) λ y. ok-Agree _

two_bytes-Agree : (u v : Bool) (a b c : ℕ) → Agree (two_bytes u a b c) (two_bytes v a b c)
unfolding two_bytes
two_bytes-Agree u v a b c = >>=-Agree _ _ _ _ (sextet-Agree u v a) λ x.
    >>=-Agree _ _ _ _ (sextet-Agree u v b)
      λ y. >>=-Agree _ _ _ _ (sextet-Agree u v c) λ z. ok-Agree _

three_bytes-Agree :
    (u v : Bool) (a b c d : ℕ) → Agree (three_bytes u a b c d) (three_bytes v a b c d)
unfolding three_bytes
three_bytes-Agree u v a b c d = >>=-Agree _ _ _ _ (sextet-Agree u v a) λ x.
    >>=-Agree _ _ _ _ (sextet-Agree u v b) λ y.
      >>=-Agree _ _ _ _ (sextet-Agree u v c)
        λ z. >>=-Agree _ _ _ _ (sextet-Agree u v d) λ w. ok-Agree _

-- Four symbols of which the last is the padding are not three bytes.
three_bytes_padding : (u : Bool) (a b c : ℕ) (x : Bytes) → three_bytes u a b c b'=' ≢ ok x
unfolding three_bytes
three_bytes_padding u a b c x h =
    let (i, e, h1) = >>=-returns (sextet u a) _ h in
    let (j, f, h2) = >>=-returns (sextet u b) _ h1 in
    let (k, g, h3) = >>=-returns (sextet u c) _ h2 in
    let (l, p, h4) = >>=-returns (sextet u b'=') _ h3 in sextet_padding u l p

last_four-Agree :
    (u v : Bool) (a b c : ℕ) (r : Bytes) → Agree (last_four u a b c r) (last_four v a b c r)
unfolding last_four is_empty
last_four-Agree u v a b c (x ∷ r) = λ x y h k. cc
last_four-Agree u v a b c [] = elim (Bool-cases (c == b'=')) [
  | inl e ↦ rw e (one_byte-Agree u v a b)
  | inr e ↦ rw e (two_bytes-Agree u v a b c)
]

next_four-Agree :
    (u v : Bool) (a b c d : ℕ) (m n : Outcome Corrupt Bytes)
    → Agree m n
    → Agree (next_four u a b c d m) (next_four v a b c d n)
unfolding next_four
next_four-Agree u v a b c d m n same =
    >>=-Agree _ _ _ _ (three_bytes-Agree u v a b c d)
      λ front. >>=-Agree _ _ _ _ same λ more. ok-Agree _

next_four_padding :
    (u : Bool) (a b c : ℕ) (m : Outcome Corrupt Bytes) (x : Bytes) → next_four u a b c b'=' m ≢ ok x
unfolding next_four
next_four_padding u a b c m x h =
    let (front, e, h1) = >>=-returns (three_bytes u a b c b'=') _ h in
    three_bytes_padding u a b c front e

four-Agree :
    (u v p q : Bool) (a b c d : ℕ) (r : Bytes) (m n : Outcome Corrupt Bytes)
    → Agree m n
    → Agree
        (if p && d == b'=' then last_four u a b c r else next_four u a b c d m)
        (if q && d == b'=' then last_four v a b c r else next_four v a b c d n)
four-Agree u v p q a b c d r m n same x y h k = elim (Bool-cases (d == b'=')) [
  | inl pad ↦ ground (
    arith,
    next_four_padding u a b c m x,
    next_four_padding v a b c n y,
    last_four-Agree u v a b c r x y,
  )
  | inr more ↦ ground (arith, next_four-Agree u v a b c d m n same x y)
]

decode_symbols-Agree :
    (u v p q : Bool) (s : Bytes) → Agree (decode_symbols u p s) (decode_symbols v q s)
unfolding decode_symbols
decode_symbols-Agree u v p q [] = ok-Agree []
decode_symbols-Agree u v p q (a ∷ []) = λ x y h k. cc
decode_symbols-Agree u v false false (a ∷ b ∷ []) = one_byte-Agree u v a b
decode_symbols-Agree u v true q (a ∷ b ∷ []) = λ x y h k. cc
decode_symbols-Agree u v false true (a ∷ b ∷ []) = λ x y h k. cc
decode_symbols-Agree u v false false (a ∷ b ∷ c ∷ []) = two_bytes-Agree u v a b c
decode_symbols-Agree u v true q (a ∷ b ∷ c ∷ []) = λ x y h k. cc
decode_symbols-Agree u v false true (a ∷ b ∷ c ∷ []) = λ x y h k. cc
decode_symbols-Agree u v p q (a ∷ b ∷ c ∷ d ∷ r) =
    four-Agree u v p q a b c d r _ _ (decode_symbols-Agree u v p q r)

pub decode_base64-Agree :
    (u v p q : Bool) (s : Bytes) → Agree (decode_base64 u p s) (decode_base64 v q s)
unfolding decode_base64
decode_base64-Agree u v p q s = decode_symbols-Agree u v p q (strip_breaks s)
