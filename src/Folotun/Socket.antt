-- ===== src/Folotun/Socket.antt =====
-- main/folotun/socket.go: the loop of `Echo` with the callback of apple-wrapper/folo_apple.go, which
-- writes each packet back. A round has the answer of ctx.Done and the answers of the Write calls; after
-- the last round the loop still runs.
pub mod Loopback
use folo_xray_apple.Prelude.{
  ℕ, Bool, true, false, List, [], ◌∷◌, ◌++◌, Outcome, ok, err, panic, Bytes,
}
use folo_xray_apple.Folotun.Packet.{Packet, FrameError}
use folo_xray_apple.Folotun.Stream.{Reader, Write, WriteEnd, done}
use folo_xray_apple.Folotun.Frame.{read_frame, write_frame}

pub data EchoEnd : Type 0 where
  running cancelled panicked : EchoEnd
  read_error write_error : FrameError → EchoEnd
  stopped_writing : WriteEnd → EchoEnd

-- What the stream took, the packets that were written back whole, and how the loop stands.
pub record Echo : Type 0 where
  pub sent : Bytes
  pub echoed : List Packet
  pub end : EchoEnd

abbrev ended : EchoEnd → Echo
ended e = record { sent = []; echoed = []; end = e }

-- The callback's `WritePacket`, and the rounds after it.
unfoldable pub reply : Packet → Outcome FrameError (Bytes × WriteEnd) → Echo → Echo
reply k (err e) rest = ended (write_error e)
reply k panic rest = ended panicked
reply k (ok (taken, done)) rest = record {
  sent = taken ++ rest.sent;
  echoed = k ∷ rest.echoed;
  end = rest.end;
}
reply k (ok (taken, w)) rest = record { sent = taken; echoed = []; end = stopped_writing w }

-- `Echo`
unfoldable pub echo : List (Bool × List Write) → Reader → Echo
unfolding reply
echo [] r = ended running
echo ((true, ws) ∷ rounds) r = ended cancelled
echo ((false, ws) ∷ rounds) r = elim (read_frame r) [
  | err e ↦ ended (read_error e)
  | panic ↦ ended panicked
  | ok (k, r') ↦ reply k (write_frame ws k.payload) (echo rounds r')
]
