-- ===== src/Wire/Writer.antt =====
-- `_PayloadWriter` of fluidgateway/fluidlink_v2.py. A call is the bytes that it appends to
-- `self.data`, or what it raises; `⊕` is one call after another.
use fluid_gateway.Common.{ℕ, Bool, false, [], ◌∷◌, ◌++◌, length, ltb, leb, ◌==◌, if◌then◌else◌}
use fluid_gateway.Wire.Errors.{Text, Bytes, Result, ok, err, Code, raise, say, show, ◌>>=◌}
use fluid_gateway.Wire.Words.{pack_le}
use fluid_gateway.Wire.Texts.{max_payload_bytes, invalid_payload, encode_bounded_text}

-- Two calls of a writer in turn.
infixr 20 ◌⊕◌
unfoldable pub ◌⊕◌ : Result Bytes → Result Bytes → Result Bytes
ok a ⊕ ok b = ok (a ++ b)
ok a ⊕ err e = err e
err e ⊕ w = err e

unfoldable pub u8 : ℕ → Result Bytes
u8 value =
    if leb value 0xFF
    then ok (value ∷ [])
    else invalid_payload "FluidLink v2 u8 field is out of range."

unfoldable pub u16 : ℕ → Result Bytes
u16 value =
    if leb value 0xFFFF
    then ok (pack_le 2 value)
    else invalid_payload "FluidLink v2 u16 field is out of range."

unfoldable pub u32 : ℕ → Result Bytes
u32 value =
    if leb value 0xFFFFFFFF
    then ok (pack_le 4 value)
    else invalid_payload "FluidLink v2 u32 field is out of range."

unfoldable pub u64 : ℕ → Result Bytes
u64 value =
    if leb value 0xFFFFFFFFFFFFFFFF
    then ok (pack_le 8 value)
    else invalid_payload "FluidLink v2 u64 field is out of range."

-- `raw` with an expected size
unfoldable pub raw : Bytes → ℕ → Result Bytes
raw value expected_size =
    if length value == expected_size
    then ok value
    else raise Code.invalid_payload
        (say "FluidLink v2 binary field must contain " ++ (show expected_size ++ say " bytes."))

unfoldable pub text8 : Text → ℕ → Result Bytes
text8 value maximum_bytes = encode_bounded_text value maximum_bytes false >>= λ encoded.
    if ltb 0xFF (length encoded)
    then invalid_payload "FluidLink v2 text8 field is too large."
    else u8 (length encoded) ⊕ ok encoded

unfoldable pub text16 : Text → ℕ → Bool → Result Bytes
text16 value maximum_bytes allow_empty =
    encode_bounded_text value maximum_bytes allow_empty >>= λ encoded.
    u16 (length encoded) ⊕ ok encoded

-- `finish` on the bytes that the calls before it have appended
unfoldable pub finish : Result Bytes → Result Bytes
finish w = w >>= λ payload.
    if ltb max_payload_bytes (length payload)
    then raise Code.payload_too_large (say "FluidLink v2 payload exceeds the 65,535-byte limit.")
    else ok payload
