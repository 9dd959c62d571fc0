-- ===== src/Wrapper/Proxying/Relay.antt =====
-- What the relays of apple-wrapper/netstack.go bring to the server.
use mathlib.Core.List.{append_assoc}
use folo_xray_apple.Prelude.{
  ℕ, zero, suc, ◌-◌, ◌≤◌, ◌<◌, ◌≡◌, refl, sym, ap, ◌∙◌, arith, Bool-cases, inl, inr, [], ◌∷◌, ◌++◌,
  Option, length, take, Bytes, length-drop, take-append-drop, take_whole, ltb, leb, leb→le,
  if◌then◌else◌, ok, >>=-returns,
}
use folo_xray_apple.Folotun.Stream.{Reader, got, broke}
use folo_xray_apple.Folotun.Stream.Chunks.{contents, take-append_left, take-append_right}
use folo_xray_apple.Router.Decision.{Env, Router}
use folo_xray_apple.Wrapper.Proxying.{
  peek_size, copy_buffer_size, rest_of_chunk, peek, copy_buffer, reads_left, sends, replies, Opened,
  opened, blocked, failed, Dialers, sniff_and_open, relayed, proxy_tcp,
}

reads_left_pos : (r : Reader) → 0 < reads_left r
reads_left_pos [] = omega arith
reads_left_pos (broke ∷ r) = omega arith
reads_left_pos (got c ∷ r) = omega arith

-- A piece, and what may still be sent of the bytes after it.
both :
    (room : ℕ) (piece more rest : Bytes)
    → rest ≡ take (room - length piece) more
    → (if ltb room (length piece) then take room piece else piece ++ rest)
      ≡ take room (piece ++ more)
both room piece more rest e = ground (
  arith,
  e,
  take-append_left room piece more,
  take-append_right room piece more,
  take_whole room piece,
)

contents-rest_of_chunk :
    (n : ℕ) (c : Bytes) (r : Reader)
    → take n c ++ contents (rest_of_chunk n c r) ≡ contents (got c ∷ r)
contents-rest_of_chunk n c r = elim (Bool-cases (leb (length c) n)) [
  | inl whole ↦ rw whole (ap (◌++ contents r) (take_whole n c (leb→le (length c) n whole)))
  | inr cut ↦ rw cut (rw (← append_assoc, take-append-drop n c) refl)
]

reads_left-rest_of_chunk :
    (n : ℕ) (c : Bytes) (r : Reader)
    → 0 < n
    → reads_left (rest_of_chunk n c r) < reads_left (got c ∷ r)
reads_left-rest_of_chunk n c r h = ground (arith, length-drop n c)

-- A chunk cut in two: as much as there is room for.
copy_buffer-take :
    (fuel room : ℕ) (r : Reader)
    → reads_left r ≤ fuel
    → copy_buffer fuel room r ≡ take room (contents r)
unfolding copy_buffer
copy_buffer-take zero room r h = absurd (omega (arith, reads_left_pos r))
copy_buffer-take (suc fuel) room [] h = sym (take_whole room [] (omega arith))
copy_buffer-take (suc fuel) room (broke ∷ r) h = sym (take_whole room [] (omega arith))
copy_buffer-take (suc fuel) room (got c ∷ r) h =
    let piece = take copy_buffer_size c in
    let left = rest_of_chunk copy_buffer_size c r in
    let whole : piece ++ contents left ≡ contents (got c ∷ r) =
      contents-rest_of_chunk copy_buffer_size c r in
    let fewer = reads_left-rest_of_chunk copy_buffer_size c r (omega arith) in
    let more : copy_buffer fuel (room - length piece) left
        ≡ take (room - length piece) (contents left) =
      copy_buffer-take fuel (room - length piece) left (omega (arith, fewer, h)) in
    both room piece (contents left) _ more ∙ ap (take room) whole

-- The client's bytes, the first Read aside if it fails.
abbrev pub client_bytes : Reader → Bytes
client_bytes [] = []
client_bytes (broke ∷ r) = contents r
client_bytes (got c ∷ r) = contents (got c ∷ r)

peek-contents : (r : Reader) → (peek r).0 ++ contents (peek r).1 ≡ client_bytes r
unfolding peek
peek-contents [] = refl
peek-contents (broke ∷ r) = refl
peek-contents (got c ∷ r) = contents-rest_of_chunk peek_size c r

sends-take : (room : ℕ) (r : Reader) → sends room (peek r) ≡ take room (client_bytes r)
unfolding sends
sends-take room r =
    both room (peek r).0 (contents (peek r).1) _
      (copy_buffer-take (reads_left (peek r).1) (room - length (peek r).0) (peek r).1 (omega arith))
    ∙ ap (take room) (peek-contents r)

replies-take :
    (room back_room : ℕ) (client : Bytes × Reader) (server : Reader)
    → replies room client back_room server
      ≡ (if ltb room (length client.0) then [] else take back_room (contents server))
unfolding replies
replies-take room back_room (first, r) server =
    rw (copy_buffer-take (reads_left server) back_room server (omega arith)) refl

relayed-both :
    {Conn : Type 0} (room back_room : ℕ) (client server : Reader) (o : Opened Conn) (conn : Conn)
    (sent received : Bytes)
    → ◌≡◌ {A = Opened Conn × Bytes × Bytes}
        (relayed room (peek client) back_room server o)
        (opened conn, sent, received)
    → (sent ≡ take room (client_bytes client))
      × (received
          ≡ (if ltb room (length (peek client).0) then [] else take back_room (contents server)))
relayed-both room back_room client server blocked conn sent received e = absurd cc
relayed-both room back_room client server failed conn sent received e = absurd cc
relayed-both room back_room client server (opened c) conn sent received e = (
  sym (ap (λ x. x.1) e) ∙ sends-take room client,
  sym (ap (λ x. x.2) e) ∙ replies-take room back_room (peek client) server,
)

-- Over a relayed connection the server gets the client's bytes, from the first one on and in order,
-- until the client's end or its first error after the first Read, and the client gets the server's
-- bytes in the same way, if the server takes all of the first ones; each as far as it takes them, in
-- whatever chunks they come.
pub proxy_tcp-relays :
    (env : Env) {Address Instance Conn : Type 0} (dialers : Dialers Address Instance Conn)
    (router : Router) (i : Option Instance) (destination : Bytes) (port room : ℕ) (client : Reader)
    (back_room : ℕ) (server : Reader) (conn : Conn) (sent received : Bytes)
    → proxy_tcp env dialers router i destination port room client back_room server
      ≡ ok (opened conn, sent, received)
    → (sent ≡ take room (client_bytes client))
      × (received
          ≡ (if ltb room (length (peek client).0) then [] else take back_room (contents server)))
unfolding proxy_tcp
proxy_tcp-relays env dialers router i destination port room client back_room server conn sent
      received e =
    let (o, dialled, same) =
      >>=-returns (sniff_and_open env dialers router i destination port (peek client).0) _ e in
    relayed-both room back_room client server o conn sent received (ground (arith, same))
