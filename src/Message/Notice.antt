-- ===== src/Message/Notice.antt =====
-- The nonce and error payloads of fluidgateway/fluidlink_v2.py, and `_truncate_utf8`.
pub mod Delivery
use fluid_gateway.Common.{
  ℕ, ◌≡◌, refl, false, Option, none, some, List, [], ◌∷◌, ◌++◌, length, take, leb, ◌==◌,
  if◌then◌else◌,
}
use fluid_gateway.Wire.Errors.{Text, Bytes, Result, ok, invalid_payload, raise, say, show}
use fluid_gateway.Wire.Utf8.{utf8_encode, decode_ignore, replace_surrogates}
use fluid_gateway.Wire.Texts.{strip}
use fluid_gateway.Wire.Writer
use fluid_gateway.Wire.Writer.{◌⊕◌}
use fluid_gateway.Wire.Reader
use fluid_gateway.Wire.Reader.{Reader, pure, lift, ◌>>=◌}
use fluid_gateway.Wire.Codec.{
  Encodes-then, Encodes-map, Encodes-finish, Encodes-u16, Encodes-text8, Encodes-text16,
}

abbrev pub max_nonce_bytes : ℕ
max_nonce_bytes = 128

abbrev pub max_reason_bytes : ℕ
max_reason_bytes = 512

-- `encode_nonce_payload`
unfoldable pub encode_nonce : Text → Result Bytes
encode_nonce nonce = Writer.finish (Writer.text8 nonce max_nonce_bytes)

read_nonce : Reader Text
read_nonce = do nonce ← Reader.text8 max_nonce_bytes; pure nonce

-- `decode_nonce_payload`
unfoldable pub decode_nonce : Bytes → Result Text
unfolding read_nonce
decode_nonce = Reader.finish read_nonce

-- A nonce that is encoded is the nonce that is decoded.
pub decode_nonce-encode_nonce :
    (nonce : Text) (bs : Bytes) → encode_nonce nonce ≡ ok bs → decode_nonce bs ≡ ok nonce
unfolding encode_nonce decode_nonce
decode_nonce-encode_nonce nonce bs e =
    Encodes-finish bs (Encodes-map _ (Encodes-text8 nonce max_nonce_bytes) (λ bs. refl)) e

-- `FluidLinkV2ErrorCode`
pub data ErrorCode : Type 0 where
  invalid_frame handshake_required contract_mismatch required_capability_unavailable : ErrorCode
  capability_not_negotiated sequence_mismatch session_mismatch unsupported_opcode : ErrorCode
  unsupported_event_opcode invalid_payload_code runtime_event_rejected session_closed : ErrorCode

abbrev pub error_number : ErrorCode → ℕ
error_number invalid_frame = 1
error_number handshake_required = 2
error_number contract_mismatch = 3
error_number required_capability_unavailable = 4
error_number capability_not_negotiated = 5
error_number sequence_mismatch = 6
error_number session_mismatch = 7
error_number unsupported_opcode = 8
error_number unsupported_event_opcode = 9
error_number invalid_payload_code = 10
error_number runtime_event_rejected = 11
error_number session_closed = 12

error_codes : List ErrorCode
error_codes =
    invalid_frame ∷ handshake_required ∷ contract_mismatch ∷ required_capability_unavailable
    ∷ capability_not_negotiated ∷ sequence_mismatch ∷ session_mismatch ∷ unsupported_opcode
    ∷ unsupported_event_opcode ∷ invalid_payload_code ∷ runtime_event_rejected ∷ session_closed ∷ []

find_code : ℕ → List ErrorCode → Result ErrorCode
find_code value [] =
    raise invalid_payload (say "Unknown FluidLink v2 error code " ++ (show value ++ say "."))
find_code value (c ∷ cs) = if error_number c == value then ok c else find_code value cs

-- `ERROR_NAME_BY_CODE`
unfoldable pub error_name : ErrorCode → Text
error_name invalid_frame = say "invalid_frame"
error_name handshake_required = say "handshake_required"
error_name contract_mismatch = say "contract_mismatch"
error_name required_capability_unavailable = say "required_capability_unavailable"
error_name capability_not_negotiated = say "capability_not_negotiated"
error_name sequence_mismatch = say "sequence_mismatch"
error_name session_mismatch = say "session_mismatch"
error_name unsupported_opcode = say "unsupported_opcode"
error_name unsupported_event_opcode = say "unsupported_event_opcode"
error_name invalid_payload_code = say "invalid_payload"
error_name runtime_event_rejected = say "runtime_event_rejected"
error_name session_closed = say "session_closed"

abbrev pub or_default : Text → Text → Text
or_default [] d = d
or_default (c ∷ cs) d = c ∷ cs

abbrev pub or_none : Option Bytes → Bytes
or_none none = []
or_none (some bs) = bs

-- `_truncate_utf8`: with `errors="replace"` the encoder never fails
unfoldable pub truncate_utf8 : Text → ℕ → Text
truncate_utf8 value maximum_bytes =
    let text = or_default (strip value) (say "FluidLink v2 request failed.") in
    let encoded = or_none (utf8_encode (replace_surrogates text)) in
    if leb (length encoded) maximum_bytes
    then text
    else or_default (decode_ignore (take maximum_bytes encoded)) (say "FluidLink v2 error.")

-- `encode_error_payload`
unfoldable pub encode_error : ErrorCode → Text → Result Bytes
encode_error code message = Writer.finish (
    Writer.u16 (error_number code)
    ⊕ Writer.text16 (truncate_utf8 message max_reason_bytes) max_reason_bytes false)

read_error : Reader (Text × Text)
unfolding find_code error_codes
read_error = do
  value ← Reader.u16
  code ← lift (find_code value error_codes)
  message ← Reader.text16 max_reason_bytes false
  pure (error_name code, message)

-- `decode_error_payload`
unfoldable pub decode_error : Bytes → Result (Text × Text)
unfolding read_error
decode_error = Reader.finish read_error

find_code-error_number : (c : ErrorCode) → find_code (error_number c) error_codes ≡ ok c
unfolding find_code error_codes
find_code-error_number invalid_frame = refl
find_code-error_number _ = refl

-- Where the encoder returns bytes, they decode as the name of the error and the message as
-- `truncate_utf8` leaves it.
pub decode_error-encode_error :
    (code : ErrorCode) (message : Text) (bs : Bytes)
    → encode_error code message ≡ ok bs
    → decode_error bs ≡ ok (error_name code, truncate_utf8 message max_reason_bytes)
unfolding encode_error decode_error
decode_error-encode_error code message bs e =
    Encodes-finish bs
      (Encodes-then _ (Encodes-u16 (error_number code)) (
        let known = find_code-error_number code in
        rw known (
          Encodes-map _
            (Encodes-text16 (truncate_utf8 message max_reason_bytes) max_reason_bytes false)
            (λ bs. refl))))
      e
