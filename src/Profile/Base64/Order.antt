-- ===== src/Profile/Base64/Order.antt =====
-- The order in which `decodeURLBase64` of main/folojson/folojson.go tries the encodings.
use folo_xray_apple.Prelude.{
  ◌≡◌, ◌⊎◌, ◌↔◌, arith, Bool, true, false, List, [], ◌∷◌, ok, Bytes, inl, inr, Outcome-cases,
}
use folo_xray_apple.Profile.Base64.{decode_base64, first_decoded, decode_url_base64, decoders}
use folo_xray_apple.Profile.Base64.Agree.{decode_base64-Agree}
use folo_xray_apple.Profile.Base64.NoPanic.{decode_base64-ne-panic}

-- Bytes that some decoder reads are all that any decoder reads.
abbrev OnlyReads : Bytes → Bytes → Type 0
OnlyReads s bytes = (u p : Bool) (y : Bytes) → decode_base64 u p s ≡ ok y → y ≡ bytes

-- The first decoder of a list fails or reads these bytes.
first_decoded_round :
    (u p : Bool) (ds : List (Bool × Bool)) (s bytes : Bytes)
    → OnlyReads s bytes
    → (decode_base64 u p s ≡ ok bytes) ⊎ (first_decoded ds s ≡ ok bytes)
    → first_decoded ((u, p) ∷ ds) s ≡ ok bytes
unfolding first_decoded
first_decoded_round u p ds s bytes only (inl h) = rw (first_decoded, h)
first_decoded_round u p ds s bytes only (inr h) = elim (Outcome-cases (decode_base64 u p s)) [
  | inl (y, e) ↦ rw (first_decoded, e, only u p y e)
  | inr (inl (x, e)) ↦ rw (first_decoded, e) h
  | inr (inr e) ↦ absurd (decode_base64-ne-panic u p s e)
]

first_decoded-reads :
    (ds : List (Bool × Bool)) (s bytes : Bytes)
    → first_decoded ds s ≡ ok bytes
    → (url : Bool) × (padded : Bool) × (decode_base64 url padded s ≡ ok bytes)
unfolding first_decoded
first_decoded-reads [] s bytes h = cc
first_decoded-reads ((u, p) ∷ ds) s bytes h = elim (Outcome-cases (decode_base64 u p s)) [
  | inl (y, e) ↦ (u, p, ground arith)
  | inr (inl (x, e)) ↦ first_decoded-reads ds s bytes (ground arith)
  | inr (inr e) ↦ absurd (decode_base64-ne-panic u p s e)
]

tried :
    (u p : Bool) (s bytes : Bytes)
    → OnlyReads s bytes
    → decode_base64 u p s ≡ ok bytes
    → first_decoded decoders s ≡ ok bytes
tried true false s bytes only h = first_decoded_round true false _ s bytes only (inl h)
tried true true s bytes only h =
    first_decoded_round true false _ s bytes only
      (inr (first_decoded_round true true _ s bytes only (inl h)))
tried false false s bytes only h = first_decoded_round true false _ s bytes only (
    inr (
      first_decoded_round true true _ s bytes only
        (inr (first_decoded_round false false _ s bytes only (inl h)))))
tried false true s bytes only h = first_decoded_round true false _ s bytes only (
    inr (
      first_decoded_round true true _ s bytes only (
        inr (
          first_decoded_round false false _ s bytes only
            (inr (first_decoded_round false true _ s bytes only (inl h)))))))

-- The order of the encodings does not matter: `decodeURLBase64` returns some bytes exactly if one of
-- the four encodings reads the text as those bytes.
pub decode_url_base64-ok_iff :
    (s bytes : Bytes)
    → (decode_url_base64 s ≡ ok bytes)
      ↔ ((url : Bool) × (padded : Bool) × (decode_base64 url padded s ≡ ok bytes))
unfolding decode_url_base64
decode_url_base64-ok_iff s bytes = (
  first_decoded-reads decoders s bytes,
  λ (u, p, h). tried u p s bytes (λ v q y k. decode_base64-Agree v u q p s y bytes k h) h,
)
