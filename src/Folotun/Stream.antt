-- ===== src/Folotun/Stream.antt =====
-- The stream socket under main/folotun/frame.go, and io.ReadFull and `writeAll` over it. The socket
-- is not code of the repository: a reader is the list of the results of its Read calls, a writer the
-- list of the answers of its Write calls. The end of a reader is io.EOF; after the last answer a
-- writer blocks.
pub mod Chunks
pub mod Delivery
use folo_xray_apple.Prelude.{
  ℕ, zero, suc, ◌-◌, ◌==◌, Bool, true, false, ◌||◌, not, List, [], ◌∷◌, ◌++◌, leb, ltb,
  if◌then◌else◌, length, take, drop, Outcome, ok, err, ◌>>=◌, Bytes, is_empty,
}
use folo_xray_apple.Folotun.Packet.{FrameError, eof, unexpected_eof, stream_broken}

-- What is left to read: a chunk, or an error other than io.EOF.
pub data Read : Type 0 where
  got : Bytes → Read
  broke : Read

abbrev pub Reader : Type 0
Reader = List Read

-- `io.ReadFull(reader, buf)` for a buffer of `n` bytes; the flag says that some byte was read.
unfoldable pub read_full : ℕ → Bool → Reader → Outcome FrameError (Bytes × Reader)
read_full zero started r = ok ([], r)
read_full (suc n) started [] = err (if started then unexpected_eof else eof)
read_full (suc n) started (broke ∷ r) = err stream_broken
read_full (suc n) started (got c ∷ r) =
    let later = read_full (suc n - length c) (started || not (is_empty c)) r in
    if leb (suc n) (length c)
    then ok (take (suc n) c, got (drop (suc n) c) ∷ r)
    else do (rest, r') ← later; ok (c ++ rest, r')

-- One answer of `writer.Write`: a count, a count with an error, or a negative count.
pub data Write : Type 0 where
  wrote : ℕ → Write
  failed : ℕ → Write
  negative : Write

pub data WriteEnd : Type 0 where
  done invalid_count stream_error short_write blocked : WriteEnd

abbrev prefixed : Bytes → Bytes × WriteEnd → Bytes × WriteEnd
prefixed sent (more, end) = (sent ++ more, end)

-- The checks of one round of the loop of `writeAll`, and `rest`, which is what the rounds after it
-- do. The first component is what the stream took.
write_round : Bytes → Write → Bytes × WriteEnd → Bytes × WriteEnd
write_round payload negative rest = ([], invalid_count)
write_round payload (failed n) rest =
    if ltb (length payload) n then ([], invalid_count) else (take n payload, stream_error)
write_round payload (wrote n) rest =
    if ltb (length payload) n
    then ([], invalid_count)
    else if n == 0
    then ([], short_write)
    else prefixed (take n payload) rest

-- What `payload = payload[written:]` leaves.
abbrev after_write : Bytes → Write → Bytes
after_write payload (wrote n) = drop n payload
after_write payload _ = payload

unfoldable pub write_all : List Write → Bytes → Bytes × WriteEnd
unfolding write_round
write_all ws [] = ([], done)
write_all [] (b ∷ bs) = ([], blocked)
write_all (w ∷ ws) (b ∷ bs) =
    let rest = write_all ws (after_write (b ∷ bs) w) in write_round (b ∷ bs) w rest
