-- ===== src/Link/Envelope.antt =====
-- `estimate_equivalent_json_envelope_size` and `FluidLinkFrame.wire_size` of
-- fluidgateway/fluidlink.py: the sizes of a frame as one line of JSON and on the wire.
use fluid_gateway.Common.{
  ℕ, pos, ◌+◌, Bool, Option, none, some, [], ◌∷◌, length, ◌==◌, if◌then◌else◌,
}
use fluid_gateway.Wire.Errors.{Text, Bytes, Result, ok, say, ◌>>=◌, ◌>>◌}
use fluid_gateway.Frame.{request_kind, response_kind, flag_ok}
use fluid_gateway.Json.{Value, Fields, null, boolean, whole, text, object, end, field, put}
use fluid_gateway.Message.BatchId.{hex}
use fluid_gateway.Link.Frame.{LinkFrame, validate_link, encode_json, encode_link}

module _ {F : Type 0} where
  -- `session_id.hex() if session_id else None`
  unfoldable pub session_text : Option Bytes → Value F
  session_text none = null
  session_text (some []) = null
  session_text (some (b ∷ bs)) = text (hex (b ∷ bs))

  abbrev pub request_envelope : LinkFrame F → Fields F
  request_envelope frame = field (say "protocol") (text (say "fluidlink-v1")) (
      field (say "kind")
        (text (if frame.kind == request_kind then say "request" else say "response"))
        (field (say "message_id") (text (hex frame.message_id)) (
          field (say "sequence") (whole (pos frame.sequence)) (
            field (say "op") (whole (pos frame.opcode)) (
              field (say "subject_op") (whole (pos frame.subject_opcode)) (
                field (say "decision_op") (whole (pos frame.decision_opcode)) (
                  field (say "session_id") (session_text frame.session_id)
                    (field (say "payload") (object frame.payload) end))))))))

  -- A response also says whether it is ok.
  unfoldable pub envelope : LinkFrame F → Fields F
  envelope frame =
      if frame.kind == response_kind
      then put (say "ok") (boolean (flag_ok frame.flags)) (request_envelope frame)
      else request_envelope frame

  module _ (is_finite : F → Bool) (dumps : Value F → Option Text) where
    -- `estimate_equivalent_json_envelope_size`
    unfoldable pub json_envelope_size : LinkFrame F → Result ℕ
    json_envelope_size frame = do
      validate_link is_finite frame
      line ← encode_json is_finite dumps (object (envelope frame))
      ok (length line + 1)

    -- `FluidLinkFrame.wire_size`
    unfoldable pub wire_size : LinkFrame F → Result ℕ
    wire_size frame = encode_link is_finite dumps frame >>= λ wire. ok (length wire)
