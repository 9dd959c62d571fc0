-- ===== src/Wrapper/Netstack/Injection.antt =====
-- The packets that the tunnel may inject (apple-wrapper/netstack.go, apple-wrapper/folo_apple.go).
use folo_xray_apple.Prelude.{
  ℕ, ◌/◌, ◌≤◌, true, false, [], ◌∷◌, ◌++◌, some, length, ok, index, get_or, Bytes, ◌≡◌, ◌≢◌, refl,
  ◌⊎◌, inl, inr, arith, Bool-cases, ltb, ◌==◌,
}
use folo_xray_apple.Wrapper.Engine.{status_ok}
use folo_xray_apple.Wrapper.Netstack.{
  Netstack, max_packet, ipv4_protocol, ipv6_protocol, packet_protocol, inject_packet,
  write_netstack_packet, write_packet,
}

-- The packet has the version of the protocol and the room of its fixed header.
pub Carries : ℕ → Bytes → Type 0
Carries protocol packet =
    ((protocol ≡ ipv4_protocol) × (get_or packet 0 0 / 16 ≡ 4) × (20 ≤ length packet))
    ⊎ ((protocol ≡ ipv6_protocol) × (get_or packet 0 0 / 16 ≡ 6) × (40 ≤ length packet))

-- The packet goes on under the protocol.
pub Accepted : Bytes → Netstack → ℕ → Type 0
Accepted packet n protocol =
    Carries protocol packet
    × (length packet ≤ max_packet)
    × (n.closed ≡ false)
    × (write_packet (some packet) (some n)
        ≡ ok (status_ok, some (record n { injected = n.injected ++ (protocol, packet) ∷ [] })))

pub Refused : Bytes → Netstack → ℕ → Type 0
Refused packet n status =
    (status ≢ status_ok)
    × (write_packet (some packet) (some n) ≡ ok (status, some n))
    × ((protocol : ℕ) → Carries protocol packet → length packet ≤ max_packet → n.closed ≡ true)

-- FoloXrayNetstackWritePacket on a running stack never panics. Either the packet has at most 65536
-- bytes, an IP version and the room of that version's fixed header, the stack is open, and the
-- unchanged packet goes on under the protocol of its version; or one of these fails, the call returns
-- an error and the stack stays as it is.
pub write_packet-answers :
    (packet : Bytes) (n : Netstack)
    → ((protocol : ℕ) × Accepted packet n protocol) ⊎ ((status : ℕ) × Refused packet n status)
unfolding write_packet write_netstack_packet inject_packet packet_protocol index Carries Accepted
    Refused
write_packet-answers [] n = inr (1, (ground arith, refl, ground arith))
write_packet-answers (b ∷ bs) n = elim (Bool-cases (ltb max_packet (length (b ∷ bs)))) [
  | inl long ↦ inr (1, (ground arith, ground arith, ground arith))
  | inr fits ↦ elim (Bool-cases n.closed) [
    | inl c ↦ inr (3, (ground arith, ground arith, ground arith))
    | inr c ↦ elim (Bool-cases (b / 16 == 4)) [
      | inl v4 ↦ elim (Bool-cases (ltb (length (b ∷ bs)) 20)) [
        | inl short ↦ inr (1, (ground arith, ground arith, ground arith))
        | inr full ↦ inl (ipv4_protocol, (ground arith, ground arith, c, ground arith))
      ]
      | inr no4 ↦ elim (Bool-cases (b / 16 == 6)) [
        | inl v6 ↦ elim (Bool-cases (ltb (length (b ∷ bs)) 40)) [
          | inl short ↦ inr (1, (ground arith, ground arith, ground arith))
          | inr full ↦ inl (ipv6_protocol, (ground arith, ground arith, c, ground arith))
        ]
        | inr no6 ↦ inr (1, (ground arith, ground arith, ground arith))
      ]
    ]
  ]
]
