-- ===== src/Session/State.antt =====
-- The state of `FluidLinkV2ServerSession`, `fluidlink_v2_request`, `fluidlink_v2_response` and
-- `_error` of fluidgateway/fluidlink_v2.py.
use fluid_gateway.Common.{ℕ, ◌+◌, Bool, true, false, ◌&&◌, Option, none, some, [], ◌∷◌, ◌==◌}
use fluid_gateway.Wire.Errors.{Text, Bytes, Result, ok, ◌>>=◌, ◌>>◌}
use fluid_gateway.Wire.Texts.{encode_bounded_text}
use fluid_gateway.Frame.{Frame, request_kind, response_kind, is_some}
use fluid_gateway.Message.Hello.{max_name_bytes, max_version_bytes}
use fluid_gateway.Message.Decision.{bit}
use fluid_gateway.Message.Notice.{ErrorCode, encode_error}
use fluid_gateway.Message.Compact.{unknown_decision}

pub record Session : Type 0 where
  pub server_name : Text
  pub server_version : Text
  pub session_id : Option Bytes
  pub contract_digest : Option Bytes
  pub expected_sequence : ℕ
  pub accepted_capabilities : ℕ
  pub closed : Bool

-- `__init__`
unfoldable pub initial : Text → Text → Result Session
initial server_name server_version = do
  encode_bounded_text server_name max_name_bytes false
  encode_bounded_text server_version max_version_bytes false
  ok (record {
    server_name = server_name;
    server_version = server_version;
    session_id = none;
    contract_digest = none;
    expected_sequence = 1;
    accepted_capabilities = 0;
    closed = false;
  })

-- `self.expected_sequence += 1`
abbrev pub advance : Session → Session
advance s = record {
  server_name = s.server_name;
  server_version = s.server_version;
  session_id = s.session_id;
  contract_digest = s.contract_digest;
  expected_sequence = s.expected_sequence + 1;
  accepted_capabilities = s.accepted_capabilities;
  closed = s.closed;
}

-- `self.closed = True`
abbrev pub close : Session → Session
close s = record {
  server_name = s.server_name;
  server_version = s.server_version;
  session_id = s.session_id;
  contract_digest = s.contract_digest;
  expected_sequence = s.expected_sequence;
  accepted_capabilities = s.accepted_capabilities;
  closed = true;
}

-- The three assignments of a handshake that succeeds.
abbrev pub negotiate : Bytes → Bytes → ℕ → Session → Session
negotiate session_id digest accepted s = record {
  server_name = s.server_name;
  server_version = s.server_version;
  session_id = some session_id;
  contract_digest = some digest;
  expected_sequence = s.expected_sequence;
  accepted_capabilities = accepted;
  closed = s.closed;
}

abbrev pub same_bytes : Bytes → Bytes → Bool
same_bytes [] [] = true
same_bytes (a ∷ as') (b ∷ bs) = a == b && same_bytes as' bs
same_bytes _ _ = false

abbrev pub same_session : Option Bytes → Option Bytes → Bool
same_session none none = true
same_session (some a) (some b) = same_bytes a b
same_session _ _ = false

-- `FluidLinkOpcode`
abbrev pub hello_opcode : ℕ
hello_opcode = 1

abbrev pub welcome_opcode : ℕ
welcome_opcode = 2

abbrev pub event_request_opcode : ℕ
event_request_opcode = 10

abbrev pub decision_response_opcode : ℕ
decision_response_opcode = 11

abbrev pub ping_opcode : ℕ
ping_opcode = 20

abbrev pub pong_opcode : ℕ
pong_opcode = 21

abbrev pub goodbye_opcode : ℕ
goodbye_opcode = 30

abbrev pub error_opcode : ℕ
error_opcode = 255

-- `fluidlink_v2_request`, with the id that `uuid4` makes where the caller has none
unfoldable pub request_frame : Bytes → ℕ → ℕ → ℕ → Option Bytes → Bytes → Frame
request_frame message_id opcode subject sequence session_id payload = record {
  kind = request_kind;
  opcode = opcode;
  subject_opcode = subject;
  decision_opcode = 0;
  flags = bit (is_some session_id) 2;
  sequence = sequence;
  message_id = message_id;
  session_id = session_id;
  payload = payload;
}

-- `fluidlink_v2_response`: the request, the opcode, the subject and decision opcodes, the session,
-- whether it is a success, and the payload
unfoldable pub response_frame : Frame → ℕ → ℕ → ℕ → Option Bytes → Bool → Bytes → Frame
response_frame request opcode subject decision session_id success payload = record {
  kind = response_kind;
  opcode = opcode;
  subject_opcode = subject;
  decision_opcode = decision;
  flags = bit success 1 + bit (is_some session_id) 2;
  sequence = request.sequence;
  message_id = request.message_id;
  session_id = session_id;
  payload = payload;
}

-- `_error`. A message that UTF-8 cannot encode makes it raise.
unfoldable pub error_response : Session → Frame → ErrorCode → Text → Result Frame
error_response s request code message = do
  payload ← encode_error code message
  ok (
      response_frame request error_opcode request.subject_opcode unknown_decision s.session_id false
        payload)
