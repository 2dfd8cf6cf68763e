-- ===== src/Session/Handshake.antt =====
-- `_handle_hello`, `_handle_ping` and `_handle_goodbye` of fluidgateway/fluidlink_v2.py.
use Prim.Native.Nat.{bit_and, bit_or}
use fluid_gateway.Common.{
  ℕ, true, not, ◌||◌, Option, none, some, [], ◌++◌, length, ◌==◌, if◌then◌else◌,
}
use fluid_gateway.Wire.Errors.{Text, Bytes, Result, ok, err, say, show_hex, ◌>>=◌}
use fluid_gateway.Wire.Texts.{max_payload_bytes}
use fluid_gateway.Frame.{Frame, is_some}
use fluid_gateway.Message.BatchId.{from_hex}
use fluid_gateway.Message.Capability.{
  and_not, capabilities, supported_capabilities, heartbeat, batched_runtime_events,
}
use fluid_gateway.Message.Hello.{Hello, decode_hello}
use fluid_gateway.Message.Notice.{
  ErrorCode, invalid_frame, contract_mismatch, required_capability_unavailable,
  capability_not_negotiated, invalid_payload_code, decode_nonce, encode_nonce,
}
use fluid_gateway.Message.Welcome.{encode_welcome}
use fluid_gateway.Session.State.{
  Session, negotiate, close, same_bytes, response_frame, error_response, welcome_opcode,
  pong_opcode, goodbye_opcode,
}

abbrev hex_constant : Option Bytes → Bytes
hex_constant none = []
hex_constant (some bs) = bs

-- `FLUIDLINK_V2_CONTRACT_DIGEST` and `FLUIDLINK_V2_BATCH_CONTRACT_DIGEST`
unfoldable pub contract_digest : Bytes
contract_digest =
    hex_constant (from_hex (say "0d24d96aec32d74e123f9e198e51adde74ddf190e8c40b0ac18bddf5c4108b2f"))

unfoldable pub batch_contract_digest : Bytes
batch_contract_digest =
    hex_constant (from_hex (say "bf8727c22ac878ceff6dd0f462d6db5e81174737e839ecdf2e263a6f55268542"))

-- What a hello is offered: the available capabilities, or an error.
pub data Offer : Type 0 where
  offered : ℕ → Offer
  refused : ErrorCode → Text → Offer

unfoldable pub profile_of : Hello → Offer
profile_of hello =
    if same_bytes hello.contract_digest contract_digest
    then offered capabilities
    else if same_bytes hello.contract_digest batch_contract_digest
    then (if bit_and hello.required_capabilities batched_runtime_events == 0
        then refused invalid_payload_code
            (say "The FluidLink v2 batch profile requires its batch capability.")
        else offered supported_capabilities)
    else refused contract_mismatch (say "FluidLink peers do not share the same v2 contract.")

unfoldable pub accepted_of : Hello → ℕ → ℕ
accepted_of hello available =
    bit_and (bit_or hello.requested_capabilities hello.required_capabilities) available

welcome_of : Session → Hello → ℕ → Result Bytes
welcome_of s hello available = encode_welcome (record {
  contract_digest = hello.contract_digest;
  available_capabilities = available;
  accepted_capabilities = accepted_of hello available;
  max_payload = max_payload_bytes;
  server_name = s.server_name;
  server_version = s.server_version;
})

unfoldable pub welcome : Bytes → Session → Frame → Hello → ℕ → Session × Result Frame
unfolding welcome_of
welcome fresh s request hello available =
    let unavailable = and_not hello.required_capabilities available in
    if unavailable == 0
    then (
      negotiate fresh hello.contract_digest (accepted_of hello available) s,
      (do
        payload ← welcome_of s hello available
        ok (response_frame request welcome_opcode 0 0 (some fresh) true payload)),
    )
    else (
      s,
      error_response s request required_capability_unavailable
          (say "Required capability mask 0x" ++ (show_hex unavailable ++ say " is unavailable.")),
    )

unfoldable pub greet : Bytes → Session → Frame → Hello → Offer → Session × Result Frame
greet fresh s request hello (offered available) = welcome fresh s request hello available
greet fresh s request hello (refused code message) = (s, error_response s request code message)

-- `_handle_hello`; the id that `uuid4` makes is an argument
unfoldable pub handle_hello : Bytes → Session → Frame → Session × Result Frame
handle_hello fresh s request =
    if is_some request.session_id
      || (not (request.subject_opcode == 0) || not (request.decision_opcode == 0))
    then (s, error_response s request invalid_frame (say "FluidLink v2 hello header is invalid."))
    else elim (decode_hello request.payload) [
      | err e ↦ (s, error_response s request invalid_payload_code e.message)
      | ok hello ↦ greet fresh s request hello (profile_of hello)
    ]

-- `_handle_ping`
unfoldable pub handle_ping : Session → Frame → Result Frame
handle_ping s request =
    if bit_and s.accepted_capabilities heartbeat == 0
    then error_response s request capability_not_negotiated
        (say "FluidLink v2 heartbeat capability was not negotiated.")
    else elim (decode_nonce request.payload) [
      | err e ↦ error_response s request invalid_payload_code e.message
      | ok nonce ↦ do
        payload ← encode_nonce nonce
        ok (response_frame request pong_opcode 0 0 s.session_id true payload)
    ]

-- `_handle_goodbye`
unfoldable pub handle_goodbye : Session → Frame → Session × Result Frame
handle_goodbye s request =
    if length request.payload == 0
    then (close s, ok (response_frame request goodbye_opcode 0 0 s.session_id true []))
    else (
      s,
      error_response s request invalid_payload_code
          (say "FluidLink v2 goodbye payload must be empty."),
    )
