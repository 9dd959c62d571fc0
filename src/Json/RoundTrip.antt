-- ===== src/Json/RoundTrip.antt =====
-- The reader gives back what json.Marshal was given.
use folo_xray_apple.Prelude.{
  ℕ, zero, suc, ◌+◌, ◌≤◌, ◌≡◌, refl, sym, ap, ◌∙◌, arith, Bool, true, [], ◌∷◌, ◌++◌, ok, ◌&&◌,
  Bytes, length, is_ascii, ℤ, pos, negsuc,
}
use mathlib.Core.List.{append_assoc, append-nil}
use folo_xray_apple.Json.{
  Json, number, string, object, Members, no_members, member, digits, write_number, write_string,
  write_json, write_rest,
}
use folo_xray_apple.Json.Read.{
  is_digit, read_digits, read_key, read_value, read_members, read_member, read_more, read_json,
}
use folo_xray_apple.Json.Texts.{
  write_string-escape, read_string-whole, read_key-write_string, read_digits-digits, digits-first,
}
use folo_xray_apple.Json.Room.{room, room_of, room-pos, room_of-pos, room-length}

-- The rest of a text does not go on with a number.
abbrev Stops : Bytes → Type 0
Stops r = (n : ℕ) → read_digits n r ≡ (n, r)

write_rest-Stops : (wide : Bytes → Bytes) (m : Members) (r : Bytes) → Stops (write_rest wide m ++ r)
unfolding write_rest read_digits
write_rest-Stops wide no_members r n = refl
write_rest-Stops wide (member k v m) r n = refl

read_value-is_digit :
    (fuel n c : ℕ) (s r : Bytes)
    → is_digit c ≡ true
    → read_digits 0 (c ∷ s) ≡ (n, r)
    → read_value (suc fuel) (c ∷ s) ≡ ok (number (pos n), r)
unfolding read_value
read_value-is_digit fuel n c s r d e = ground (arith, e)

read_value-digits :
    (fuel n : ℕ) (r : Bytes)
    → Stops r
    → read_value (suc fuel) (digits (suc n) n ++ r) ≡ ok (number (pos n), r)
read_value-digits fuel n r stops =
    let (c, s, e, d) = digits-first (suc n) n (omega arith) in
    let read = read_digits-digits (suc n) n r (omega arith) ∙ stops n in
    ap (λ x. read_value (suc fuel) (x ++ r)) e
    ∙ read_value-is_digit fuel n c (s ++ r) r d (ap (λ x. read_digits 0 (x ++ r)) (sym e) ∙ read)

read_value-number :
    (fuel : ℕ) (z : ℤ) (r : Bytes)
    → Stops r
    → read_value (suc fuel) (write_number z ++ r) ≡ ok (number z, r)
unfolding write_number read_value
read_value-number fuel (pos n) r stops = read_value-digits fuel n r stops
read_value-number fuel (negsuc n) r stops =
    let read = read_digits-digits (suc (suc n)) (suc n) r (omega arith) ∙ stops (suc n) in
    rw read refl

-- All strings are of ASCII.
unfoldable mutual
  pub all_ascii : Json → Bool
  all_ascii (number z) = true
  all_ascii (string s) = is_ascii s
  all_ascii (object m) = all_ascii_of m

  pub all_ascii_of : Members → Bool
  all_ascii_of no_members = true
  all_ascii_of (member k v m) = is_ascii k && all_ascii v && all_ascii_of m

read_value-string :
    (wide : Bytes → Bytes) (fuel : ℕ) (s r : Bytes)
    → is_ascii s ≡ true
    → read_value (suc fuel) (write_string wide s ++ r) ≡ ok (string s, r)
unfolding read_value
read_value-string wide fuel s r plain =
    ap (read_value (suc fuel)) (write_string-escape wide s r plain)
    ∙ rw (read_string-whole s r plain) refl

read_member-ok :
    (fuel : ℕ) (k : Bytes) (v : Json) (m : Members) (s u w r : Bytes)
    → read_key s ≡ ok (k, b':' ∷ u)
    → read_value fuel u ≡ ok (v, w)
    → read_more fuel w ≡ ok (m, r)
    → read_member (suc fuel) s ≡ ok (member k v m, r)
unfolding read_value
read_member-ok fuel k v m s u w r key value more = rw (key, value, more) refl

read_members-write_string :
    (wide : Bytes → Bytes) (fuel : ℕ) (k r : Bytes)
    → read_members (suc fuel) (write_string wide k ++ r)
      ≡ read_member fuel (write_string wide k ++ r)
unfolding read_value write_string
read_members-write_string wide fuel k r = refl

pub all_ascii-split :
    (k : Bytes) (v : Json) (m : Members)
    → all_ascii_of (member k v m) ≡ true
    → (is_ascii k ≡ true) × (all_ascii v ≡ true) × (all_ascii_of m ≡ true)
unfolding all_ascii
all_ascii-split k v m plain = ground arith

member_text : (a b c r : Bytes) → (a ++ b':' ∷ (b ++ c)) ++ r ≡ a ++ b':' ∷ (b ++ (c ++ r))
member_text a b c r =
    append_assoc a (b':' ∷ (b ++ c)) r ∙ ap (λ x. a ++ b':' ∷ x) (append_assoc b c r)

mutual
  unfolding write_json write_rest room room_of all_ascii all_ascii_of read_value

  read_value-write_json :
      (wide : Bytes → Bytes) (fuel : ℕ) (j : Json) (r : Bytes)
      → room j ≤ fuel
      → all_ascii j ≡ true
      → Stops r
      → read_value fuel (write_json wide j ++ r) ≡ ok (j, r)
  read_value-write_json wide zero j r enough plain stops =
      absurd (let p = room-pos j in omega arith)
  read_value-write_json wide (suc fuel) (number z) r enough plain stops =
      read_value-number fuel z r stops
  read_value-write_json wide (suc fuel) (string s) r enough plain stops =
      read_value-string wide fuel s r plain
  read_value-write_json wide (suc zero) (object no_members) r enough plain stops =
      absurd (omega arith)
  read_value-write_json wide (suc (suc fuel)) (object no_members) r enough plain stops = refl
  read_value-write_json wide (suc zero) (object (member k v m)) r enough plain stops =
      absurd (omega arith)
  read_value-write_json wide (suc (suc fuel)) (object (member k v m)) r enough plain stops =
      let text = member_text (write_string wide k) (write_json wide v) (write_rest wide m) r in
      let e =
        ap (read_members (suc fuel)) text
        ∙ read_members-write_string wide fuel k
            (b':' ∷ (write_json wide v ++ (write_rest wide m ++ r)))
        ∙ ap (read_member fuel) (sym text)
        ∙ read_member-write_rest wide fuel k v m r (omega arith) plain in
      rw e refl

  read_member-write_rest :
      (wide : Bytes → Bytes) (fuel : ℕ) (k : Bytes) (v : Json) (m : Members) (r : Bytes)
      → suc (room v + room_of m) ≤ fuel
      → all_ascii_of (member k v m) ≡ true
      → read_member fuel
          ((write_string wide k ++ (b':' ∷ (write_json wide v ++ write_rest wide m))) ++ r)
        ≡ ok (member k v m, r)
  read_member-write_rest wide zero k v m r enough plain = absurd (omega arith)
  read_member-write_rest wide (suc fuel) k v m r enough plain =
      let parts = all_ascii-split k v m plain in
      let w = write_rest wide m ++ r in
      let u = write_json wide v ++ w in
      ap (read_member (suc fuel))
        (member_text (write_string wide k) (write_json wide v) (write_rest wide m) r)
      ∙ read_member-ok fuel k v m (write_string wide k ++ b':' ∷ u) u w r
          (read_key-write_string wide k (b':' ∷ u) parts.0)
          (read_value-write_json wide fuel v w (omega arith) parts.1 (write_rest-Stops wide m r))
          (read_more-write_rest wide fuel m r (omega arith) parts.2)

  read_more-write_rest :
      (wide : Bytes → Bytes) (fuel : ℕ) (m : Members) (r : Bytes)
      → room_of m ≤ fuel
      → all_ascii_of m ≡ true
      → read_more fuel (write_rest wide m ++ r) ≡ ok (m, r)
  read_more-write_rest wide zero m r enough plain = absurd (let p = room_of-pos m in omega arith)
  read_more-write_rest wide (suc fuel) no_members r enough plain = refl
  read_more-write_rest wide (suc fuel) (member k v m) r enough plain =
      read_member-write_rest wide fuel k v m r (omega arith) plain

nothing-Stops : Stops []
unfolding read_digits
nothing-Stops n = refl

-- Where all strings are of ASCII, the reader gives back the value that json.Marshal was given.
pub read_json-write_json :
    (wide : Bytes → Bytes) (j : Json) → all_ascii j ≡ true → read_json (write_json wide j) ≡ ok j
unfolding read_json
read_json-write_json wide j plain =
    let fuel = room-length wide j in
    let read =
      read_value-write_json wide (suc (length (write_json wide j))) j [] (omega arith) plain
        nothing-Stops in
    let whole : read_value (suc (length (write_json wide j))) (write_json wide j) ≡ ok (j, []) =
      ap (read_value (suc (length (write_json wide j)))) (sym (append-nil (write_json wide j)))
      ∙ read in
    rw whole refl
