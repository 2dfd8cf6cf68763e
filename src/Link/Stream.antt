-- ===== src/Link/Stream.antt =====
-- `read_fluidlink_frame` of fluidgateway/fluidlink.py, over the streams of Frame/Stream.
pub mod Reads
use fluid_gateway.Common.{
  ℕ, ◌+◌, ◌-◌, Bool, true, false, ◌&&◌, Option, none, some, ◌++◌, length, take, drop, leb,
}
use fluid_gateway.Wire.Errors.{
  Text, Bytes, Result, ok, truncated_frame, payload_too_large, require, say, ◌>>=◌, ◌>>◌,
}
use fluid_gateway.Wire.Words.{unpack_le}
use fluid_gateway.Frame.{same_magic}
use fluid_gateway.Frame.Stream.{Stream, read_exact, or_empty}
use fluid_gateway.Json.{Value}
use fluid_gateway.Link.Frame.{LinkFrame, max_link_payload, decode_link}

module _ {F : Type 0} (is_finite : F → Bool) (loads : Text → Option (Value F)) where
  -- After the prefix: the rest of the header, the payload, and the decoder.
  unfoldable pub read_link_after : Bytes → Stream → Result (Option (LinkFrame F) × Stream)
  read_link_after prefix stream = do
    require (leb 4 (length prefix) && (leb (length prefix) 56 && same_magic (take 4 prefix)))
        truncated_frame (say "FluidLink header prefix is invalid.")
    (tail, stream₁) ← read_exact (56 - length prefix) false stream
    let header = prefix ++ or_empty tail
    let payload_size = unpack_le (take 4 (drop 52 header))
    require (leb payload_size max_link_payload) payload_too_large
        (say "FluidLink payload exceeds the 1 MiB limit.")
    (payload, stream₂) ← read_exact payload_size false stream₁
    frame ← decode_link is_finite loads (header ++ or_empty payload)
    ok (some frame, stream₂)

  -- `read_fluidlink_frame`; `ok none` is the end of the stream between two frames
  unfoldable pub read_link : Option Bytes → Stream → Result (Option (LinkFrame F) × Stream)
  read_link (some prefix) stream = read_link_after prefix stream
  read_link none stream = do
    (prefix, stream₁) ← read_exact 4 true stream
    elim prefix [ none ↦ ok (none, stream₁) | some bs ↦ read_link_after bs stream₁ ]
