-- ===== src/Examples/Frames.antt =====
-- A ping frame through the frame codec and the stream reader.
use fluid_gateway.Common.{◌≡◌, ◌↔◌, refl, none, [], ◌∷◌, ◌++◌, take, drop, arith}
use fluid_gateway.Wire.Errors.{Bytes, ok}
use fluid_gateway.Frame.{Frame, validate, encode, decode}
use fluid_gateway.Frame.RoundTrip.{decode-encode}
use fluid_gateway.Frame.Canonical.{encode-decode}
use fluid_gateway.Frame.Validity.{IsValid, validate_lem}
use fluid_gateway.Frame.Stream.{Stream, read_frame}
use fluid_gateway.Frame.Stream.Cutting.{Finds}
use fluid_gateway.Frame.Stream.Framing.{read_frame-encode}
use fluid_gateway.Examples.Data.{sixteen, ping_frame}

-- The header, and the payload.
abbrev ping_wire : Bytes
ping_wire =
    70
    ∷ 76
    ∷ 78
    ∷ 75
    ∷ 2
    ∷ 1
    ∷ 20
    ∷ 0
    ∷ 0
    ∷ 2
    ∷ 0
    ∷ 0
    ∷ 2
    ∷ 0
    ∷ 0
    ∷ 0
    ∷ 0
    ∷ 0
    ∷ 0
    ∷ 0
    ∷ (sixteen 1 ++ (sixteen 7 ++ (3 ∷ 0 ∷ 0 ∷ 0 ∷ 2 ∷ 104 ∷ 105 ∷ [])))

-- The frame arrives in three pieces, the last with the start of the next frame.
abbrev pieces : Stream
pieces = take 5 ping_wire ∷ take 40 (drop 5 ping_wire) ∷ (drop 45 ping_wire ++ (70 ∷ 76 ∷ [])) ∷ []

ping_encoded : encode ping_frame ≡ ok ping_wire
unfolding encode validate fluid_gateway.Frame.Struct.pack_header fluid_gateway.Wire.Words.pack_le
ping_encoded = refl

decode-encode_example : decode ping_wire ≡ ok ping_frame
decode-encode_example = decode-encode ping_frame ping_wire ping_encoded

ping_decoded : decode ping_wire ≡ ok ping_frame
unfolding decode fluid_gateway.Frame.decode_with fluid_gateway.Frame.Struct.unpack_header
    fluid_gateway.Frame.Struct.split fluid_gateway.Wire.Words.unpack_le validate
ping_decoded = refl

encode-decode_example : encode ping_frame ≡ ok ping_wire
encode-decode_example = encode-decode ping_wire ping_frame (ground arith) ping_decoded

read_frame-encode_example : Finds (read_frame none pieces) ping_frame (70 ∷ 76 ∷ [])
read_frame-encode_example =
    read_frame-encode ping_frame ping_wire (70 ∷ 76 ∷ []) pieces ping_encoded
      (omega arith, (omega arith, (omega arith, tt))) refl

validate_lem_example : (validate ping_frame ≡ ok tt) ↔ IsValid ping_frame
validate_lem_example = validate_lem ping_frame
