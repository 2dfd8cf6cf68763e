-- ===== src/Frame.antt =====
-- `FluidLinkV2Frame` and its codec in fluidgateway/fluidlink_v2.py: the validation, the encoder and
-- the decoder. The frame numbers are naturals, since the wire has no sign; a field that Python
-- checks for its type (`bool`, `int`, `bytes`) has that type here.
pub mod Struct
pub mod Layout
pub mod Validity
pub mod RoundTrip
pub mod Canonical
pub mod Stream
use fluid_gateway.Common.{
  ℕ, zero, ◌+◌, ◌-◌, ◌/◌, ◌%◌, Bool, true, false, not, ◌&&◌, ◌||◌, Option, none, some, List, [],
  ◌∷◌, ◌++◌, length, take, drop, any, ltb, leb, ◌==◌, if◌then◌else◌,
}
use fluid_gateway.Wire.Errors.{
  Text, Bytes, Result, ok, err, Code, truncated_frame, invalid_magic, unsupported_wire_version,
  invalid_reserved_bits, payload_too_large, frame_size_mismatch, invalid_kind, invalid_session_flag,
  invalid_message_id, invalid_sequence, invalid_opcode, invalid_subject_opcode,
  invalid_decision_opcode, invalid_flags, invalid_session_id, raise, require, say, show, ◌>>=◌,
  ◌>>◌,
}
use fluid_gateway.Wire.Texts.{max_payload_bytes}
use Struct.{Header, magic, header_size, pack_header, unpack_header}

pub record Frame : Type 0 where
  pub kind : ℕ
  pub opcode : ℕ
  pub subject_opcode : ℕ
  pub decision_opcode : ℕ
  pub flags : ℕ
  pub sequence : ℕ
  pub message_id : Bytes
  pub session_id : Option Bytes
  pub payload : Bytes

-- `FluidLinkFrameKind`
abbrev pub request_kind : ℕ
request_kind = 1

abbrev pub response_kind : ℕ
response_kind = 2

-- `flags & FluidLinkV2FrameFlag.OK`, bit 0, and `flags & FluidLinkV2FrameFlag.HAS_SESSION`, bit 1
abbrev pub flag_ok : ℕ → Bool
flag_ok flags = flags % 2 == 1

abbrev pub flag_has_session : ℕ → Bool
flag_has_session flags = flags / 2 % 2 == 1

abbrev pub is_kind : ℕ → Bool
is_kind k = k == request_kind || k == response_kind

abbrev pub nonzero : ℕ → Bool
nonzero b = not (b == 0)

-- `isinstance(value, bytes) and len(value) == 16 and any(value)`
abbrev pub is_identity : Bytes → Bool
is_identity value = length value == 16 && any nonzero value

abbrev pub is_some : {A : Type 0} → Option A → Bool
is_some none = false
is_some (some a) = true

abbrev pub same_bool : Bool → Bool → Bool
same_bool true b = b
same_bool false b = not b

abbrev pub session_fits : Option Bytes → Bool
session_fits none = true
session_fits (some s) = is_identity s

unfoldable pub validate : Frame → Result (Unit {0})
validate frame = do
  require (is_kind frame.kind) invalid_kind
      (say "Unsupported FluidLink frame kind " ++ (show frame.kind ++ say "."))
  require (leb (length frame.payload) max_payload_bytes) payload_too_large
      (say "FluidLink v2 payload exceeds the 65,535-byte limit.")
  require (is_identity frame.message_id) invalid_message_id
      (say "FluidLink message_id must contain 16 nonzero bytes.")
  require (leb 1 frame.sequence && leb frame.sequence 0xFFFFFFFFFFFFFFFF) invalid_sequence
      (say "FluidLink sequence must be an unsigned nonzero 64-bit integer.")
  require (leb frame.opcode 255) invalid_opcode (say "FluidLink opcode must fit in one byte.")
  require (leb frame.subject_opcode 255) invalid_subject_opcode
      (say "FluidLink subject_opcode must fit in one byte.")
  require (leb frame.decision_opcode 255) invalid_decision_opcode
      (say "FluidLink decision_opcode must fit in one byte.")
  require (leb frame.flags 255) invalid_flags (say "FluidLink flags must fit in one byte.")
  require (frame.flags / 4 == 0) invalid_flags (say "FluidLink v2 frame contains unknown flags.")
  require (same_bool (flag_has_session frame.flags) (is_some frame.session_id)) invalid_session_flag
      (say "FluidLink session flag and session_id disagree.")
  require (session_fits frame.session_id) invalid_session_id
      (say "FluidLink session_id must contain 16 nonzero bytes.")
  require (not (frame.kind == request_kind && flag_ok frame.flags)) invalid_flags
      (say "FluidLink requests cannot carry the OK flag.")

abbrev pub zero_session : Bytes
zero_session = 0 ∷ 0 ∷ 0 ∷ 0 ∷ 0 ∷ 0 ∷ 0 ∷ 0 ∷ 0 ∷ 0 ∷ 0 ∷ 0 ∷ 0 ∷ 0 ∷ 0 ∷ 0 ∷ []

-- `frame.session_id or bytes(16)`: an empty id is as good as none
abbrev pub session_bytes : Option Bytes → Bytes
session_bytes none = zero_session
session_bytes (some []) = zero_session
session_bytes (some (b ∷ bs)) = b ∷ bs

abbrev pub header_of : Frame → Header
header_of frame = record {
  magic = magic;
  wire_version = 2;
  kind = frame.kind;
  opcode = frame.opcode;
  subject_opcode = frame.subject_opcode;
  decision_opcode = frame.decision_opcode;
  flags = frame.flags;
  reserved = 0;
  sequence = frame.sequence;
  message_id = frame.message_id;
  session_id = session_bytes frame.session_id;
  payload_size = length frame.payload;
}

-- `encode_fluidlink_v2_frame`
unfoldable pub encode : Frame → Result Bytes
encode frame = do validate frame; ok (pack_header (header_of frame) ++ frame.payload)

abbrev pub same_magic : Bytes → Bool
same_magic (a ∷ b ∷ c ∷ d ∷ []) = a == b'F' && (b == b'L' && (c == b'N' && d == b'K'))
same_magic _ = false

abbrev pub frame_of : Header → Bytes → Frame
frame_of h payload = record {
  kind = h.kind;
  opcode = h.opcode;
  subject_opcode = h.subject_opcode;
  decision_opcode = h.decision_opcode;
  flags = h.flags;
  sequence = h.sequence;
  message_id = h.message_id;
  session_id = if flag_has_session h.flags then some h.session_id else none;
  payload = payload;
}

-- The checks of the decoder on an unpacked header.
unfoldable pub decode_with : Bytes → Header → Result Frame
decode_with wire h = do
  require (same_magic h.magic) invalid_magic (say "Invalid FluidLink magic.")
  require (h.wire_version == 2) unsupported_wire_version
      (say "Unsupported FluidLink wire version " ++ (show h.wire_version ++ say "."))
  require (h.reserved == 0) invalid_reserved_bits
      (say "FluidLink reserved header bits must be zero.")
  require (leb h.payload_size max_payload_bytes) payload_too_large
      (say "FluidLink v2 payload exceeds the 65,535-byte limit.")
  require (length wire == header_size + h.payload_size) frame_size_mismatch (
      say "FluidLink frame declares "
      ++ (show (header_size + h.payload_size)
          ++ (say " bytes, received " ++ (show (length wire) ++ say "."))))
  require (is_kind h.kind) invalid_kind
      (say "Unsupported FluidLink frame kind " ++ (show h.kind ++ say "."))
  validate (frame_of h (drop header_size wire))
  require (flag_has_session h.flags || not (any nonzero h.session_id)) invalid_session_flag
      (say "FluidLink session bytes require the HAS_SESSION flag.")
  ok (frame_of h (drop header_size wire))

-- `decode_fluidlink_v2_frame`
unfoldable pub decode : Bytes → Result Frame
decode wire =
    if ltb (length wire) header_size
    then raise truncated_frame (say "FluidLink v2 frame is shorter than its 56-byte header.")
    else decode_with wire (unpack_header (take header_size wire))
