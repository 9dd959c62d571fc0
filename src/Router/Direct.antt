-- ===== src/Router/Direct.antt =====
-- apple-wrapper/router/direct.go: what `DirectDialer` asks of net.Dialer.
use folo_xray_apple.Prelude.{
  ℕ, zero, suc, ◌+◌, ◌/◌, ◌%◌, Bool, false, ◌||◌, [], ◌∷◌, ◌++◌, Option, ltb, ◌==◌, if◌then◌else◌,
  Bytes, text,
}
use folo_xray_apple.Folotun.Endpoint.{Network}

decimal_from : ℕ → ℕ → Bytes → Bytes
decimal_from zero n more = more
decimal_from (suc fuel) n more =
    let rest = decimal_from fuel (n / 10) ((b'0' + n % 10) ∷ more) in
    if ltb n 10 then (b'0' + n) ∷ more else rest

-- `fmt.Sprintf("%d", port)` for a port of 16 bits.
unfoldable pub decimal : ℕ → Bytes
unfolding decimal_from
decimal port = decimal_from 5 port []

unfoldable pub has_colon : Bytes → Bool
has_colon [] = false
has_colon (c ∷ cs) = c == b':' || has_colon cs

-- `net.JoinHostPort`
unfoldable pub join_host_port : Bytes → ℕ → Bytes
unfolding decimal has_colon
join_host_port host port =
    if has_colon host
    then text "[" ++ host ++ text "]:" ++ decimal port
    else host ++ text ":" ++ decimal port

-- `DirectDialer.DialTCP` and `DirectDialer.DialUDP`; `dial_context` is DialContext of net.Dialer.
unfoldable pub direct_dial :
    {Conn : Type 0} → (Network → Bytes → Option Conn) → Network → Bytes → ℕ → Option Conn
unfolding join_host_port
direct_dial dial_context network dest port = dial_context network (join_host_port dest port)
