-- ===== src/Link/Process.antt =====
-- `FluidLinkServerSession.process` of fluidgateway/fluidlink.py with the rest of its handlers.
use fluid_gateway.Common.{
  ℕ, ◌+◌, Bool, true, not, ◌&&◌, ◌||◌, Option, some, List, [], ◌∷◌, ◌++◌, all, ◌==◌, if◌then◌else◌,
}
use fluid_gateway.Frame.{request_kind, is_some}
use fluid_gateway.Runtime.Data.{is_member}
use fluid_gateway.Wire.Errors.{Text, Bytes, Result, ok, err, say, show, ◌>>=◌}
use fluid_gateway.Json.{Fields, boolean, text, end, field, get, put, Value}
use fluid_gateway.Link.Frame.{LinkFrame, link_response}
use fluid_gateway.Link.Compact.{Floats, compact_link}
use fluid_gateway.Link.Names.{valid_text}
use fluid_gateway.Link.Handshake.{LinkSession, fail, link_hello}
use fluid_gateway.Session.State.{
  same_session, hello_opcode, event_request_opcode, decision_response_opcode, ping_opcode,
  pong_opcode, goodbye_opcode,
}
use fluid_gateway.Session.Events.{is_event_opcode}

-- `self.expected_sequence += 1`, and `self.closed = True`
abbrev pub advance_link : LinkSession → LinkSession
advance_link s = record s { expected_sequence = s.expected_sequence + 1 }

abbrev pub close_link : LinkSession → LinkSession
close_link s = record s { closed = true }

-- What a session must have accepted for runtime events.
unfoldable pub event_capabilities : List Text
event_capabilities =
    say "binary.framing.v1"
    ∷ say "compact.decisions.v1"
    ∷ say "runtime.events.v1"
    ∷ say "runtime.decisions.v1"
    ∷ []

unfoldable pub allows_events : LinkSession → Bool
allows_events s = all (λ name. is_member name s.accepted_capabilities) event_capabilities

-- EVENT_NAME_BY_OPCODE
unfoldable pub event_name : ℕ → Text
event_name opcode =
    if opcode == 100
    then say "session"
    else if opcode == 101
    then say "frame"
    else if opcode == 102
    then say "resource"
    else if opcode == 103
    then say "operation"
    else say "state"

-- The requests that take a sequence number.
unfoldable pub takes_sequence : {F : Type 0} → LinkSession → LinkFrame F → Bool
takes_sequence s request =
    request.kind == request_kind
    && (request.sequence == s.expected_sequence
        && (not (is_some s.session_id)
            || (same_session request.session_id s.session_id && not s.closed)))

-- `event_handler`, with the state it works on: it returns a dict or raises.
abbrev pub DictHandler : Type 0 → Type 0 → Type 0
DictHandler F S = S → Fields F → S × Result (Fields F)

module _ {F : Type 0} where
  -- `_handle_ping`
  unfoldable pub link_pong : LinkSession → LinkFrame F → Option (Value F) → LinkFrame F
  link_pong s request (some (text nonce)) =
      if valid_text {F = F} (some (text nonce)) 128
      then link_response request pong_opcode 0 0 s.session_id true
          (field (say "nonce") (text nonce) end)
      else fail s request (say "invalid_ping")
          (say "FluidLink ping nonce must contain 1 to 128 UTF-8 bytes.")
  link_pong s request _ =
      fail s request (say "invalid_ping")
        (say "FluidLink ping nonce must contain 1 to 128 UTF-8 bytes.")

  unfoldable pub link_ping : LinkSession → LinkFrame F → LinkFrame F
  link_ping s request =
      if not (is_member (say "heartbeat.v1") s.accepted_capabilities)
      then fail s request (say "capability_not_negotiated") (say "heartbeat.v1 was not negotiated.")
      else link_pong s request (get (say "nonce") request.payload)

  -- `_handle_goodbye`
  unfoldable pub link_goodbye : LinkSession → LinkFrame F → LinkSession × LinkFrame F
  link_goodbye s request = (
    close_link s,
    link_response request goodbye_opcode 0 0 s.session_id true
        (field (say "closed") (boolean true) end),
  )

  abbrev pub reply : {S : Type 0} → S → LinkSession × LinkFrame F → LinkSession × S × LinkFrame F
  reply h (s, r) = (s, h, r)

  module _ {S : Type 0} (floats : Floats F) (handler : DictHandler F S) where
    unfoldable pub link_answer : LinkSession → LinkFrame F → Result (ℕ × Fields F) → LinkFrame F
    link_answer s request (ok (decision, compact)) =
        link_response request decision_response_opcode request.subject_opcode decision s.session_id
          true compact
    link_answer s request (err e) = fail s request (say "runtime_event_rejected") e.message

    -- The handler's part of `_handle_runtime_event`.
    unfoldable pub link_decide :
        LinkSession → LinkFrame F → S × Result (Fields F) → LinkSession × S × LinkFrame F
    link_decide s request (h, response) =
        (s, h, link_answer s request (response >>= compact_link floats request.subject_opcode))

    -- `_handle_runtime_event`
    unfoldable pub link_event : LinkSession → LinkFrame F → S → LinkSession × S × LinkFrame F
    link_event s request h =
        if not (allows_events s)
        then (
          s,
          h,
          fail s request (say "capability_not_negotiated")
              (say "FluidLink binary runtime capabilities were not negotiated."),
        )
        else if not (is_event_opcode request.subject_opcode)
        then (
          s,
          h,
          fail s request (say "unsupported_event_opcode") (
              say "Unsupported FluidLink event opcode "
              ++ (show request.subject_opcode ++ say ".")),
        )
        else link_decide s request (
            handler h
              (put (say "event") (text (event_name request.subject_opcode)) request.payload))

    -- A request in the negotiated session, from `self.expected_sequence += 1` on.
    unfoldable pub link_dispatch : LinkSession → LinkFrame F → S → LinkSession × S × LinkFrame F
    link_dispatch s request h =
        if not (request.decision_opcode == 0)
        then (
          s,
          h,
          fail s request (say "invalid_request_header")
              (say "FluidLink requests must use decision opcode zero."),
        )
        else if request.opcode == event_request_opcode
        then link_event s request h
        else if not (request.subject_opcode == 0)
        then (
          s,
          h,
          fail s request (say "invalid_request_header")
              (say "Only runtime event requests may use a subject opcode."),
        )
        else if request.opcode == ping_opcode
        then (s, h, link_ping s request)
        else if request.opcode == goodbye_opcode
        then reply h (link_goodbye s request)
        else (
          s,
          h,
          fail s request (say "unsupported_opcode")
              (say "Unsupported FluidLink opcode " ++ (show request.opcode ++ say ".")),
        )

    -- A request before the handshake.
    unfoldable pub link_opening :
        Bytes → LinkSession → LinkFrame F → S → LinkSession × S × LinkFrame F
    link_opening fresh s request h =
        if not (request.opcode == hello_opcode)
        then (
          s,
          h,
          fail s request (say "handshake_required")
              (say "A FluidLink hello request is required first."),
        )
        else reply h (link_hello fresh s request)

    -- `process`: the session and the handler's state afterwards, and the response.
    unfoldable pub link_process :
        Bytes → LinkSession → LinkFrame F → S → LinkSession × S × LinkFrame F
    link_process fresh s request h =
        if not (request.kind == request_kind)
        then (
          s,
          h,
          fail s request (say "invalid_kind") (say "FluidLink server accepts request frames only."),
        )
        else if not (request.sequence == s.expected_sequence)
        then (
          s,
          h,
          fail s request (say "sequence_mismatch") (
              say "Expected sequence "
              ++ (show s.expected_sequence
                  ++ (say ", received " ++ (show request.sequence ++ say ".")))),
        )
        else if not (is_some s.session_id)
        then link_opening fresh (advance_link s) request h
        else if not (same_session request.session_id s.session_id)
        then (
          s,
          h,
          fail s request (say "session_mismatch")
              (say "FluidLink session_id does not match the negotiated session."),
        )
        else if s.closed
        then (
          s,
          h,
          fail s request (say "session_closed") (say "The FluidLink session is already closed."),
        )
        else link_dispatch (advance_link s) request h
