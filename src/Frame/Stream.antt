-- ===== src/Frame/Stream.antt =====
-- `read_exact` of fluidgateway/fluidlink.py and `read_fluidlink_v2_frame` of
-- fluidgateway/fluidlink_v2.py. A stream is the list of the pieces in which its bytes arrive: one
-- `read` returns bytes of one piece, and nothing once no piece is left.
pub mod Reading
pub mod Cutting
pub mod Framing
use fluid_gateway.Common.{
  ℕ, zero, suc, ◌+◌, ◌-◌, Bool, true, false, not, ◌&&◌, ◌||◌, Option, none, some, List, [], ◌∷◌,
  ◌++◌, length, take, drop, ltb, leb, ◌==◌, if◌then◌else◌,
}
use fluid_gateway.Wire.Errors.{
  Bytes, Result, ok, err, truncated_frame, payload_too_large, other, raise, require, say, ◌>>=◌,
  ◌>>◌,
}
use fluid_gateway.Wire.Words.{unpack_le}
use fluid_gateway.Wire.Texts.{max_payload_bytes}
use fluid_gateway.Frame.{Frame, decode, same_magic}

abbrev pub Stream : Type 0
Stream = List Bytes

-- `stream.read(size)`
unfoldable pub read : ℕ → Stream → Bytes × Stream
read size [] = ([], [])
read size (piece ∷ pieces) =
    if leb (length piece) size then (piece, pieces) else (take size piece, drop size piece ∷ pieces)

-- The loop of `read_exact`. A read that is not empty lowers `remaining`, so `size` rounds and one
-- for the test at the end are enough.
read_loop : ℕ → ℕ → Bool → ℕ → Bytes → Stream → Result (Option Bytes × Stream)
read_loop zero size allow_eof remaining chunks stream = raise other (say "out of fuel")
read_loop (suc fuel) size allow_eof remaining chunks stream =
    let (chunk, stream') = read remaining stream in
    let closed =
      if allow_eof && remaining == size
      then ok (none, stream')
      else raise truncated_frame (say "FluidLink peer closed before the complete frame arrived.") in
    let more = read_loop fuel size allow_eof (remaining - length chunk) (chunks ++ chunk) stream' in
    if remaining == 0 then ok (some chunks, stream) else if length chunk == 0 then closed else more

unfoldable pub read_exact : ℕ → Bool → Stream → Result (Option Bytes × Stream)
unfolding read_loop
read_exact size allow_eof stream = read_loop (size + 1) size allow_eof size [] stream

abbrev pub or_empty : Option Bytes → Bytes
or_empty none = []
or_empty (some bs) = bs

-- After the prefix: the rest of the header, the payload, and the decoder.
unfoldable pub read_after : Bytes → Stream → Result (Option Frame × Stream)
read_after prefix stream = do
  require (leb 4 (length prefix) && (leb (length prefix) 56 && same_magic (take 4 prefix)))
      truncated_frame (say "FluidLink v2 header prefix is invalid.")
  (tail, stream₁) ← read_exact (56 - length prefix) false stream
  let header = prefix ++ or_empty tail
  let payload_size = unpack_le (take 4 (drop 52 header))
  require (leb payload_size max_payload_bytes) payload_too_large
      (say "FluidLink v2 payload exceeds the 65,535-byte limit.")
  (payload, stream₂) ← read_exact payload_size false stream₁
  frame ← decode (header ++ or_empty payload)
  ok (some frame, stream₂)

-- `read_fluidlink_v2_frame`; `ok none` is the end of the stream between two frames
unfoldable pub read_frame : Option Bytes → Stream → Result (Option Frame × Stream)
unfolding read_after
read_frame (some prefix) stream = read_after prefix stream
read_frame none stream = do
  (prefix, stream₁) ← read_exact 4 true stream
  elim prefix [ none ↦ ok (none, stream₁) | some bs ↦ read_after bs stream₁ ]
