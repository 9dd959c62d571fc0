-- ===== src/Folotun/Stream/Delivery.antt =====
-- What `writeAll` of main/folotun/frame.go puts on the stream, whatever the stream answers.
use mathlib.Core.List.{append_assoc}
use folo_xray_apple.Prelude.{
  ℕ, zero, suc, ◌-◌, ◌≤◌, ◌<◌, ◌≡◌, refl, List, [], ◌∷◌, ◌++◌, arith, ltb, length, drop, Bytes,
  take-append-drop, length-drop, Bool-cases, inl, inr, sym, ◌==◌,
}
use folo_xray_apple.Folotun.Stream.{
  Write, wrote, failed, negative, WriteEnd, done, write_round, after_write, write_all,
}

-- The stream took a front part of the payload, and the whole of it on success.
abbrev pub Delivers : Bytes → Bytes × WriteEnd → Type 0
Delivers payload o = (rest : Bytes) × (payload ≡ o.0 ++ rest) × (o.1 ≡ done → rest ≡ [])

write_round-Delivers :
    (payload : Bytes) (w : Write) (o : Bytes × WriteEnd)
    → Delivers (after_write payload w) o
    → Delivers payload (write_round payload w o)
unfolding write_round
write_round-Delivers payload negative o d = (payload, refl, λ e. cc)
write_round-Delivers payload (failed n) o d = elim (Bool-cases (ltb (length payload) n)) [
  | inl over ↦ rw over (payload, refl, λ e. cc)
  | inr within ↦ rw within (drop n payload, sym (take-append-drop n payload), λ e. cc)
]
write_round-Delivers payload (wrote n) o (rest, split, full) =
    elim (Bool-cases (ltb (length payload) n)) [
      | inl over ↦ rw over (payload, refl, λ e. cc)
      | inr within ↦ rw within (elim (Bool-cases (n == 0)) [
        | inl none_taken ↦ rw none_taken (payload, refl, λ e. cc)
        | inr some_taken ↦
            rw some_taken (rest, rw (append_assoc, ← split, take-append-drop n payload) refl, full)
      ])
    ]

-- Whatever the stream answers, `writeAll` has sent a front part of the payload, and all of it if
-- it returns no error.
pub write_all-Delivers :
    (ws : List Write) (payload : Bytes) → Delivers payload (write_all ws payload)
unfolding write_all
write_all-Delivers ws [] = ([], refl, λ e. refl)
write_all-Delivers [] (b ∷ bs) = (b ∷ bs, refl, λ e. cc)
write_all-Delivers (w ∷ ws) (b ∷ bs) =
    write_round-Delivers (b ∷ bs) w (write_all ws (after_write (b ∷ bs) w))
      (write_all-Delivers ws (after_write (b ∷ bs) w))

-- The answers of a stream that takes `take_up len` of `len` bytes, for `rounds` calls.
abbrev pub answers : (ℕ → ℕ) → ℕ → ℕ → List Write
answers take_up zero len = []
answers take_up (suc rounds) len = wrote (take_up len) ∷ answers take_up rounds (len - take_up len)

-- `writeAll` ends: a stream that takes at least one byte of each call, and no more than it is
-- given, has the whole payload after at most as many calls as there are bytes.
pub write_all-answers :
    (take_up : ℕ → ℕ)
    → ((n : ℕ) → 0 < n → (0 < take_up n) × (take_up n ≤ n))
    → (rounds : ℕ) (payload : Bytes) → length payload ≤ rounds
    → write_all (answers take_up rounds (length payload)) payload ≡ (payload, done)
unfolding write_all write_round
write_all-answers take_up fair zero [] h = refl
write_all-answers take_up fair (suc rounds) [] h = refl
write_all-answers take_up fair zero (b ∷ bs) h = absurd (omega arith)
write_all-answers take_up fair (suc rounds) (b ∷ bs) h =
    let n : ℕ = take_up (suc (length bs)) in
    let taken = fair (suc (length bs)) (omega arith) in
    let rest =
      write_all-answers take_up fair rounds (drop n (b ∷ bs))
        (omega (arith, length-drop n (b ∷ bs))) in
    ground (arith, taken, length-drop n (b ∷ bs), rest, take-append-drop n (b ∷ bs))
