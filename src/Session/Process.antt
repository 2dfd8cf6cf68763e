-- ===== src/Session/Process.antt =====
-- `FluidLinkV2ServerSession.process` of fluidgateway/fluidlink_v2.py.
use fluid_gateway.Common.{Bool, not, ◌&&◌, ◌||◌, ◌++◌, ◌==◌, if◌then◌else◌}
use fluid_gateway.Wire.Errors.{Bytes, Result, say, show}
use fluid_gateway.Frame.{Frame, request_kind, is_some}
use fluid_gateway.Message.Notice.{
  invalid_frame, sequence_mismatch, handshake_required, session_mismatch, session_closed,
  unsupported_opcode,
}
use fluid_gateway.Session.State.{
  Session, advance, same_session, error_response, hello_opcode, event_request_opcode, ping_opcode,
  goodbye_opcode,
}
use fluid_gateway.Session.Handshake.{handle_hello, handle_ping, handle_goodbye}
use fluid_gateway.Session.Events.{Handler, handle_event}

-- The requests that take a sequence number.
unfoldable pub is_consumed : Session → Frame → Bool
is_consumed s request =
    request.kind == request_kind
    && (request.sequence == s.expected_sequence
        && (not (is_some s.session_id)
            || (same_session request.session_id s.session_id && not s.closed)))

abbrev pub with_handler : {S : Type 0} → S → Session × Result Frame → Session × S × Result Frame
with_handler h (s, r) = (s, h, r)

module _ {S : Type 0} (handler : Handler S) where
  -- A request in the negotiated session, from `self.expected_sequence += 1` on.
  unfoldable pub dispatch : Session → Frame → S → Session × S × Result Frame
  dispatch s request h =
      if not (request.decision_opcode == 0)
      then (
        s,
        h,
        error_response s request invalid_frame
            (say "FluidLink v2 requests must use decision opcode zero."),
      )
      else if request.opcode == event_request_opcode
      then handle_event handler s request h
      else if not (request.subject_opcode == 0)
      then (
        s,
        h,
        error_response s request invalid_frame
            (say "Only runtime event requests may use a subject opcode."),
      )
      else if request.opcode == ping_opcode
      then (s, h, handle_ping s request)
      else if request.opcode == goodbye_opcode
      then with_handler h (handle_goodbye s request)
      else (
        s,
        h,
        error_response s request unsupported_opcode
            (say "Unsupported FluidLink opcode " ++ (show request.opcode ++ say ".")),
      )

  -- A request before the handshake.
  unfoldable pub process_hello : Bytes → Session → Frame → S → Session × S × Result Frame
  process_hello fresh s request h =
      if not (request.opcode == hello_opcode)
      then (
        s,
        h,
        error_response s request handshake_required
            (say "A FluidLink v2 hello request is required first."),
      )
      else with_handler h (handle_hello fresh s request)

  -- `process`: the session and the handler's state afterwards, and the response, or the error that
  -- escapes. The id that `uuid4` would make is an argument.
  unfoldable pub process : Bytes → Session → Frame → S → Session × S × Result Frame
  process fresh s request h =
      if not (request.kind == request_kind)
      then (
        s,
        h,
        error_response s request invalid_frame
            (say "FluidLink v2 server accepts request frames only."),
      )
      else if not (request.sequence == s.expected_sequence)
      then (
        s,
        h,
        error_response s request sequence_mismatch (
            say "Expected sequence "
            ++ (show s.expected_sequence
                ++ (say ", received " ++ (show request.sequence ++ say ".")))),
      )
      else if not (is_some s.session_id)
      then process_hello fresh (advance s) request h
      else if not (same_session request.session_id s.session_id)
      then (
        s,
        h,
        error_response s request session_mismatch
            (say "FluidLink v2 session_id does not match the negotiated session."),
      )
      else if s.closed
      then (
        s,
        h,
        error_response s request session_closed (say "The FluidLink v2 session is already closed."),
      )
      else dispatch (advance s) request h
