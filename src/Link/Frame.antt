-- ===== src/Link/Frame.antt =====
-- `FluidLinkFrame` and its codec in fluidgateway/fluidlink.py. What Python's json module does is a
-- parameter: `dumps` is none where `json.dumps` raises, `loads` where `json.loads` does, which is
-- given a hook that raises for the constants that are not JSON.
use fluid_gateway.Common.{
  ℕ, ◌+◌, ◌/◌, ◌%◌, Bool, false, not, ◌&&◌, ◌||◌, Option, none, some, ◌++◌, length, take, drop, any,
  ltb, leb, ◌==◌, if◌then◌else◌,
}
use fluid_gateway.Wire.Errors.{
  Text, Bytes, Result, ok, truncated_frame, invalid_magic, unsupported_wire_version,
  invalid_reserved_bits, payload_too_large, frame_size_mismatch, invalid_kind, invalid_session_flag,
  invalid_message_id, invalid_sequence, invalid_opcode, invalid_subject_opcode,
  invalid_decision_opcode, invalid_flags, invalid_session_id, unsupported_payload_encoding,
  invalid_payload, raise, require, say, show, ◌>>=◌, ◌>>◌,
}
use fluid_gateway.Wire.Utf8.{utf8_encode, utf8_decode}
use fluid_gateway.Frame.{
  request_kind, response_kind, flag_ok, flag_has_session, is_kind, nonzero, is_identity, is_some,
  same_bool, session_fits, session_bytes, same_magic,
}
use fluid_gateway.Frame.Struct.{Header, magic, header_size, pack_header, unpack_header}
use fluid_gateway.Json.{Value, Fields, object, text, end, field, validate_value}
use fluid_gateway.Message.Decision.{bit}

-- `FluidLinkFrame`
pub record LinkFrame (F : Type 0) : Type 0 where
  pub kind : ℕ
  pub opcode : ℕ
  pub subject_opcode : ℕ
  pub decision_opcode : ℕ
  pub flags : ℕ
  pub sequence : ℕ
  pub message_id : Bytes
  pub session_id : Option Bytes
  pub payload : Fields F

-- FLUIDLINK_MAX_PAYLOAD_BYTES
abbrev pub max_link_payload : ℕ
max_link_payload = 1048576

-- `flags & FluidLinkFrameFlag.JSON_PAYLOAD`, bit 2
abbrev pub flag_json : ℕ → Bool
flag_json flags = flags / 4 % 2 == 1

-- `fluidlink_request`, with the id that `uuid4` makes where the caller has none
unfoldable pub link_request :
    {F : Type 0} → Bytes → ℕ → ℕ → ℕ → Option Bytes → Fields F → LinkFrame F
link_request message_id opcode subject sequence session_id payload = record {
  kind = request_kind;
  opcode = opcode;
  subject_opcode = subject;
  decision_opcode = 0;
  flags = 4 + bit (is_some session_id) 2;
  sequence = sequence;
  message_id = message_id;
  session_id = session_id;
  payload = payload;
}

-- `fluidlink_response`: the request, the opcode, the subject and decision opcodes, the session,
-- whether it is a success, and the payload
unfoldable pub link_response :
    {F : Type 0} → LinkFrame F → ℕ → ℕ → ℕ → Option Bytes → Bool → Fields F → LinkFrame F
link_response request opcode subject decision session_id success payload = record {
  kind = response_kind;
  opcode = opcode;
  subject_opcode = subject;
  decision_opcode = decision;
  flags = 4 + bit (is_some session_id) 2 + bit success 1;
  sequence = request.sequence;
  message_id = request.message_id;
  session_id = session_id;
  payload = payload;
}

-- `fluidlink_error_response`
unfoldable pub link_error : {F : Type 0} → LinkFrame F → Text → Text → Option Bytes → LinkFrame F
link_error request code message session_id =
    link_response request 255 request.subject_opcode 255 session_id false
      (field (say "code") (text code) (field (say "message") (text message) end))

module _ {F : Type 0} (is_finite : F → Bool) where
  -- `validate_frame`
  unfoldable pub validate_link : LinkFrame F → Result (Unit {0})
  validate_link frame = do
    require (is_kind frame.kind) invalid_kind
        (say "Unsupported FluidLink frame kind " ++ (show frame.kind ++ say "."))
    validate_value is_finite 1 (object frame.payload)
    require (is_identity frame.message_id) invalid_message_id
        (say "FluidLink message_id must contain 16 nonzero bytes.")
    require (leb 1 frame.sequence && leb frame.sequence 0xFFFFFFFFFFFFFFFF) invalid_sequence
        (say "FluidLink sequence must be an unsigned nonzero 64-bit integer.")
    require (leb frame.opcode 255) invalid_opcode (say "FluidLink opcode must fit in one byte.")
    require (leb frame.subject_opcode 255) invalid_subject_opcode
        (say "FluidLink subject_opcode must fit in one byte.")
    require (leb frame.decision_opcode 255) invalid_decision_opcode
        (say "FluidLink decision_opcode must fit in one byte.")
    require (leb frame.flags 255) invalid_flags (say "FluidLink flags must fit in one byte.")
    require (frame.flags / 8 == 0) invalid_flags (say "FluidLink frame contains unknown flags.")
    require (flag_json frame.flags) unsupported_payload_encoding
        (say "FluidLink v1 requires the JSON payload flag.")
    require (same_bool (flag_has_session frame.flags) (is_some frame.session_id))
        invalid_session_flag (say "FluidLink session flag and session_id disagree.")
    require (session_fits frame.session_id) invalid_session_id
        (say "FluidLink session_id must contain 16 nonzero bytes.")
    require (not (frame.kind == request_kind && flag_ok frame.flags)) invalid_flags
        (say "FluidLink requests cannot carry the OK flag.")

  -- The session id of a header.
  abbrev pub session_of : Header → Option Bytes
  session_of h = if flag_has_session h.flags then some h.session_id else none

  -- The frame with no payload and no opcodes that the decoder checks first.
  abbrev pub bare_frame : Header → LinkFrame F
  bare_frame h = record {
    kind = h.kind;
    opcode = 0;
    subject_opcode = 0;
    decision_opcode = 0;
    flags = h.flags;
    sequence = h.sequence;
    message_id = h.message_id;
    session_id = session_of h;
    payload = end;
  }

  -- `validate_decoded_header`
  unfoldable pub validate_header : Header → Result (Unit {0})
  validate_header h = do
    require (same_magic h.magic) invalid_magic (say "Invalid FluidLink magic.")
    require (h.wire_version == 1) unsupported_wire_version
        (say "Unsupported FluidLink wire version " ++ (show h.wire_version ++ say "."))
    require (is_kind h.kind) invalid_kind
        (say "Unsupported FluidLink frame kind " ++ (show h.kind ++ say "."))
    require (h.reserved == 0) invalid_reserved_bits
        (say "FluidLink reserved header bits must be zero.")
    require (leb h.payload_size max_link_payload) payload_too_large
        (say "FluidLink payload exceeds the 1 MiB limit.")
    validate_link (bare_frame h)
    require (flag_has_session h.flags || not (any nonzero h.session_id)) invalid_session_flag
        (say "FluidLink session bytes require the HAS_SESSION flag.")

abbrev pub link_header : {F : Type 0} → LinkFrame F → ℕ → Header
link_header frame payload_size = record {
  magic = magic;
  wire_version = 1;
  kind = frame.kind;
  opcode = frame.opcode;
  subject_opcode = frame.subject_opcode;
  decision_opcode = frame.decision_opcode;
  flags = frame.flags;
  reserved = 0;
  sequence = frame.sequence;
  message_id = frame.message_id;
  session_id = session_bytes frame.session_id;
  payload_size = payload_size;
}

abbrev pub bad_json : {A : Type 0} → Result A
bad_json =
    raise invalid_payload (say "FluidLink payload must contain bounded standard JSON values.")

abbrev pub not_json : {A : Type 0} → Result A
not_json = raise invalid_payload (say "FluidLink payload must be valid UTF-8 JSON.")

module _ {F : Type 0} (is_finite : F → Bool) (dumps : Value F → Option Text) where
  -- `encode_json`
  unfoldable pub encode_json : Value F → Result Bytes
  encode_json value = elim (dumps value) [
    | none ↦ bad_json
    | some written ↦ elim (utf8_encode written) [ none ↦ bad_json | some bytes ↦ ok bytes ]
  ]

  -- `encode_fluidlink_frame`
  unfoldable pub encode_link : LinkFrame F → Result Bytes
  encode_link frame = do
    validate_link is_finite frame
    payload ← encode_json (object frame.payload)
    require (leb (length payload) max_link_payload) payload_too_large
        (say "FluidLink payload exceeds the 1 MiB limit.")
    ok (pack_header (link_header frame (length payload)) ++ payload)

module _ {F : Type 0} (is_finite : F → Bool) (loads : Text → Option (Value F)) where
  -- `json.loads(data.decode("utf-8"))`
  unfoldable pub parse_json : Bytes → Result (Value F)
  parse_json bytes = elim (utf8_decode bytes) [
    | none ↦ not_json
    | some written ↦ elim (loads written) [ none ↦ not_json | some value ↦ ok value ]
  ]

  unfoldable pub as_object : Value F → Result (Fields F)
  as_object (object fields) = ok fields
  as_object _ = raise invalid_payload (say "FluidLink payload must be a JSON object.")

  abbrev pub link_frame_of : Header → Fields F → LinkFrame F
  link_frame_of h payload = record {
    kind = h.kind;
    opcode = h.opcode;
    subject_opcode = h.subject_opcode;
    decision_opcode = h.decision_opcode;
    flags = h.flags;
    sequence = h.sequence;
    message_id = h.message_id;
    session_id = session_of is_finite h;
    payload = payload;
  }

  -- The decoder on an unpacked header.
  unfoldable pub decode_link_with : Bytes → Header → Result (LinkFrame F)
  decode_link_with wire h = do
    validate_header is_finite h
    require (length wire == header_size + h.payload_size) frame_size_mismatch (
        say "FluidLink frame declares "
        ++ (show (header_size + h.payload_size)
            ++ (say " bytes, received " ++ (show (length wire) ++ say "."))))
    value ← parse_json (drop header_size wire)
    payload ← as_object value
    validate_value is_finite 1 (object payload)
    ok (link_frame_of h payload)

  -- `decode_fluidlink_frame`
  unfoldable pub decode_link : Bytes → Result (LinkFrame F)
  decode_link wire =
      if ltb (length wire) header_size
      then raise truncated_frame (say "FluidLink frame is shorter than its 56-byte header.")
      else decode_link_with wire (unpack_header (take header_size wire))
