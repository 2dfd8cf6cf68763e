-- ===== src/Session/Events.antt =====
-- `_handle_runtime_event` and `_handle_operation_batch` of fluidgateway/fluidlink_v2.py.
use Prim.Native.Nat.{bit_and}
use fluid_gateway.Common.{
  ℕ, zero, suc, ◌+◌, Bool, true, not, ◌&&◌, ◌||◌, some, List, [], ◌∷◌, ◌++◌, ltb, leb, ◌==◌,
  if◌then◌else◌,
}
use fluid_gateway.Wire.Errors.{Text, Bytes, Result, ok, err, say, show, ◌>>=◌}
use fluid_gateway.Frame.{Frame}
use fluid_gateway.Message.Amount.{Measured}
use fluid_gateway.Message.Batch.{BatchEvent, decode_batch}
use fluid_gateway.Message.Capability.{required_capabilities, batched_runtime_events}
use fluid_gateway.Message.Compact.{Response, compact_response}
use fluid_gateway.Message.Decision.{Compact, encode_decision}
use fluid_gateway.Message.Event.{Event, operation, decode_event}
use fluid_gateway.Message.Operation.{OperationEvent}
use fluid_gateway.Message.Notice.{
  capability_not_negotiated, unsupported_event_opcode, invalid_payload_code, runtime_event_rejected,
}
use fluid_gateway.Message.Vector.{encode_vector}
use fluid_gateway.Session.State.{
  Session, close, same_session, response_frame, error_response, decision_response_opcode,
}
use fluid_gateway.Session.Handshake.{batch_contract_digest}

-- `event_handler`, with the state it works on: it answers or raises.
abbrev pub Handler : Type 0 → Type 0
Handler S = S → Event Measured → S × Result Response

abbrev pub batch_event_opcode : ℕ
batch_event_opcode = 105

abbrev pub batch_vector_opcode : ℕ
batch_vector_opcode = 7

-- `FluidLinkEventOpcode(opcode)` does not raise
abbrev pub is_event_opcode : ℕ → Bool
is_event_opcode opcode = leb 100 opcode && leb opcode 104

-- `f"{n:03d}"`
unfoldable pub show_padded : ℕ → Text
show_padded n =
    if ltb n 10 then say "00" ++ show n else if ltb n 100 then say "0" ++ show n else show n

unfoldable pub batch_name : Text → ℕ → Text
batch_name batch_id ordinal = say "batch-" ++ (batch_id ++ (say "-" ++ show_padded ordinal))

module _ {S : Type 0} (handler : Handler S) where
  -- The events of a batch, one after another, until one fails.
  unfoldable pub run_batch :
      ℕ → ℕ → Text → OperationEvent Measured → S → S × Result (List (ℕ × Compact))
  run_batch zero ordinal batch_id o h = (h, ok [])
  run_batch (suc n) ordinal batch_id o h =
      let (h', response) = handler h (operation (batch_name batch_id ordinal) o) in
      elim (response >>= compact_response true) [
        | err e ↦ (h', err e)
        | ok decision ↦
            let (h'', decisions) = run_batch n (ordinal + 1) batch_id o h' in
            (h'', decisions >>= λ ds. ok (decision ∷ ds))
      ]

  -- The body of the second `try`: the handler's state, and the payload of the answer.
  unfoldable pub decide_batch : BatchEvent Measured → S → S × Result Bytes
  decide_batch batch h =
      let (h', decisions) = run_batch batch.operation_count 0 batch.batch_id batch.operation h in
      (h', decisions >>= λ ds. encode_vector (record { batch_id = batch.batch_id; decisions = ds }))

  unfoldable pub answer_batch : Session → Frame → S × Result Bytes → Session × S × Result Frame
  answer_batch s request (h, ok payload) = (
    s,
    h,
    ok (
        response_frame request decision_response_opcode batch_event_opcode batch_vector_opcode
          s.session_id true payload),
  )
  answer_batch s request (h, err e) =
      (close s, h, error_response (close s) request runtime_event_rejected e.message)

  -- `_handle_operation_batch`
  unfoldable pub handle_batch : Session → Frame → S → Session × S × Result Frame
  handle_batch s request h =
      if not (same_session s.contract_digest (some batch_contract_digest))
        || bit_and s.accepted_capabilities batched_runtime_events == 0
      then (
        s,
        h,
        error_response s request capability_not_negotiated
            (say "FluidLink v2 batched runtime events were not negotiated."),
      )
      else elim (decode_batch request.payload) [
        | err e ↦ (s, h, error_response s request invalid_payload_code e.message)
        | ok batch ↦ answer_batch s request (decide_batch batch h)
      ]

  -- The body of the second `try` of `_handle_runtime_event`.
  unfoldable pub decide_event : ℕ → Event Measured → S → S × Result (ℕ × Bytes)
  decide_event opcode event h =
      let (h', response) = handler h event in
      (
        h',
        do
          (decision, compact) ← response >>= compact_response (opcode == 103)
          payload ← encode_decision compact
          ok (decision, payload),
      )

  unfoldable pub answer_event :
      Session → Frame → S × Result (ℕ × Bytes) → Session × S × Result Frame
  answer_event s request (h, ok (decision, payload)) = (
    s,
    h,
    ok (
        response_frame request decision_response_opcode request.subject_opcode decision s.session_id
          true payload),
  )
  answer_event s request (h, err e) =
      (s, h, error_response s request runtime_event_rejected e.message)

  -- `_handle_runtime_event`
  unfoldable pub handle_event : Session → Frame → S → Session × S × Result Frame
  handle_event s request h =
      if not (bit_and s.accepted_capabilities required_capabilities == required_capabilities)
      then (
        s,
        h,
        error_response s request capability_not_negotiated
            (say "FluidLink v2 runtime capabilities were not negotiated."),
      )
      else if request.subject_opcode == batch_event_opcode
      then handle_batch s request h
      else if not (is_event_opcode request.subject_opcode)
      then (
        s,
        h,
        error_response s request unsupported_event_opcode
            (say "Unsupported FluidLink event opcode " ++ (show request.subject_opcode ++ say ".")),
      )
      else elim (decode_event request.subject_opcode request.payload) [
        | err e ↦ (s, h, error_response s request invalid_payload_code e.message)
        | ok event ↦ answer_event s request (decide_event request.subject_opcode event h)
      ]
