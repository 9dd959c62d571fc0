-- ===== src/Json/Room.antt =====
-- How much fuel the reader takes for a text, which is at most its length.
use folo_xray_apple.Prelude.{
  ℕ, suc, ◌+◌, ◌≤◌, arith, [], ◌∷◌, ◌++◌, if◌then◌else◌, Bytes, length, is_ascii, length-append, ℤ,
  pos, negsuc,
}
use folo_xray_apple.Json.{
  Json, number, string, object, Members, no_members, member, write_number, escape, write_string,
  write_json, write_rest,
}
use folo_xray_apple.Json.Texts.{digits-first}

-- The fuel that a text takes.
unfoldable mutual
  pub room : Json → ℕ
  room (number z) = 1
  room (string s) = 1
  room (object m) = suc (room_of m)

  pub room_of : Members → ℕ
  room_of no_members = 1
  room_of (member k v m) = 2 + room v + room_of m

pub room-pos : (j : Json) → 1 ≤ room j
unfolding room
room-pos (number z) = omega arith
room-pos (string s) = omega arith
room-pos (object m) = omega arith

pub room_of-pos : (m : Members) → 1 ≤ room_of m
unfolding room_of
room_of-pos no_members = omega arith
room_of-pos (member k v m) = omega arith

pub write_string-length : (wide : Bytes → Bytes) (s : Bytes) → 2 ≤ length (write_string wide s)
unfolding write_string
write_string-length wide s =
    let whole = length-append (if is_ascii s then escape s else wide s) (b'"' ∷ []) in omega arith

pub write_number-length : (z : ℤ) → 1 ≤ length (write_number z)
unfolding write_number
write_number-length (pos n) =
    let (c, s, e, d) = digits-first (suc n) n (omega arith) in rw e (omega arith)
write_number-length (negsuc n) = omega arith

pub member-length :
    (wide : Bytes → Bytes) (k v m : Bytes) (a b : ℕ)
    → a ≤ length v
    → b ≤ length m
    → 3 + a + b ≤ length (write_string wide k ++ (b':' ∷ (v ++ m)))
member-length wide k v m a b at_v at_m =
    let quoted = write_string-length wide k in
    let key = length-append (write_string wide k) (b':' ∷ (v ++ m)) in
    let value = length-append v m in omega arith

mutual
  unfolding write_json write_rest room room_of

  pub room-length : (wide : Bytes → Bytes) (j : Json) → room j ≤ length (write_json wide j)
  room-length wide (number z) = write_number-length z
  room-length wide (string s) = let e = write_string-length wide s in omega arith
  room-length wide (object no_members) = omega arith
  room-length wide (object (member k v m)) =
      let e =
        member-length wide k (write_json wide v) (write_rest wide m) (room v) (room_of m)
          (room-length wide v) (room_of-length wide m) in
      omega arith

  pub room_of-length : (wide : Bytes → Bytes) (m : Members) → room_of m ≤ length (write_rest wide m)
  room_of-length wide no_members = omega arith
  room_of-length wide (member k v m) =
      let e =
        member-length wide k (write_json wide v) (write_rest wide m) (room v) (room_of m)
          (room-length wide v) (room_of-length wide m) in
      omega arith
