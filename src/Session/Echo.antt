-- ===== src/Session/Echo.antt =====
-- What every response of `FluidLinkV2ServerSession.process` has in common
-- (fluidgateway/fluidlink_v2.py).
use Prim.Native.Nat.{bit_and}
use fluid_gateway.Common.{
  ℕ, ◌+◌, ◌%◌, ◌≡◌, refl, subst, inl, inr, [], Bool-cases, length, Bool, true, false, not, ◌||◌,
  ◌==◌, if◌then◌else◌, arith,
}
use fluid_gateway.Wire.Errors.{Bytes, Text, Result, ok, err, ◌>>=◌}
use fluid_gateway.Wire.Codec.{Result-cases}
use fluid_gateway.Frame.{Frame, is_some, request_kind, response_kind}
use fluid_gateway.Message.Decision.{bit}
use fluid_gateway.Message.Notice.{ErrorCode, invalid_payload_code, decode_nonce}
use fluid_gateway.Message.Batch.{decode_batch}
use fluid_gateway.Message.Capability.{and_not, heartbeat, required_capabilities}
use fluid_gateway.Message.Event.{decode_event}
use fluid_gateway.Message.Hello.{Hello, decode_hello}
use fluid_gateway.Session.State.{
  Session, advance, close, negotiate, response_frame, error_response, welcome_opcode, pong_opcode,
  goodbye_opcode, ping_opcode, hello_opcode, event_request_opcode, same_session,
}
use fluid_gateway.Session.Handshake.{
  Offer, offered, refused, profile_of, accepted_of, handle_hello, handle_goodbye, handle_ping,
  greet, welcome,
}
use fluid_gateway.Session.Events.{
  Handler, handle_event, handle_batch, decide_batch, decide_event, answer_batch, answer_event,
  is_event_opcode, batch_event_opcode,
}
use fluid_gateway.Session.Process.{with_handler, dispatch, process_hello, process}

-- A response frame that carries the request's sequence number and message id, and the session's id
-- with the flag that goes with it.
pub record Echoes (request : Frame) (s : Session) (f : Frame) : Type 0 where
  pub kind : f.kind ≡ response_kind
  pub sequence : f.sequence ≡ request.sequence
  pub message_id : f.message_id ≡ request.message_id
  pub session_id : f.session_id ≡ s.session_id
  pub flags : f.flags ≡ bit (f.flags % 2 == 1) 1 + bit (is_some s.session_id) 2

response_Echoes :
    (request : Frame) (s : Session) (opcode subject decision : ℕ) (success : Bool) (payload : Bytes)
    → Echoes request s (response_frame request opcode subject decision s.session_id success payload)
unfolding response_frame
response_Echoes request s opcode subject decision success payload = record {
  kind = refl;
  sequence = refl;
  message_id = refl;
  session_id = refl;
  flags = ground arith;
}

error_Echoes :
    (s : Session) (request : Frame) (code : ErrorCode) (message : Text) (f : Frame)
    → error_response s request code message ≡ ok f
    → Echoes request s f
unfolding error_response response_frame
error_Echoes s request code message f h = record {
  kind = ground arith;
  sequence = ground arith;
  message_id = ground arith;
  session_id = ground arith;
  flags = ground arith;
}

-- Every frame among the answers echoes the request.
record AllEcho {S : Type 0} (request : Frame) (answer : Session × S × Result Frame) : Type 0 where
  each : (f : Frame) → answer.2 ≡ ok f → Echoes request answer.0 f

module _ {S : Type 0} where
  if_AllEcho :
      (request : Frame) (b : Bool) (t e : Session × S × Result Frame)
      → AllEcho request t
      → AllEcho request e
      → AllEcho request (if b then t else e)
  if_AllEcho request true t e p q = p
  if_AllEcho request false t e p q = q

  -- A payload that may fail, and the response that is made of it.
  payload_AllEcho :
      (request : Frame) (s : Session) (h : S) (opcode : ℕ) (w : Result Bytes)
      → AllEcho request
          (s, h, w >>= λ payload. ok (response_frame request opcode 0 0 s.session_id true payload))
  payload_AllEcho request s h opcode (ok payload) = record {
    each = λ f e.
        subst (Echoes request s) (ground arith) (response_Echoes request s opcode 0 0 true payload);
  }
  payload_AllEcho request s h opcode (err x) = record { each = λ f e. cc }

  error_AllEcho :
      (request : Frame) (s : Session) (h : S) (code : ErrorCode) (message : Text)
      → AllEcho request (s, h, error_response s request code message)
  error_AllEcho request s h code message = record { each = error_Echoes s request code message }

  response_AllEcho :
      (request : Frame) (s : Session) (h : S) (opcode subject decision : ℕ) (payload : Bytes)
      → AllEcho request
          (s, h, ok (response_frame request opcode subject decision s.session_id true payload))
  response_AllEcho request s h opcode subject decision payload = record {
    each = λ f e.
        subst (Echoes request s) (ground arith)
          (response_Echoes request s opcode subject decision true payload);
  }

  decoded_AllEcho :
      {A : Type 0} (request : Frame) (s : Session) (h : S) (d : Result A)
      (k : A → Session × S × Result Frame)
      → ((a : A) → AllEcho request (k a))
      → AllEcho {S = S} request (elim d [
        | err e ↦ (s, h, error_response s request invalid_payload_code e.message)
        | ok a ↦ k a
      ])
  decoded_AllEcho request s h (ok a) k answers = answers a
  decoded_AllEcho request s h (err e) k answers = error_AllEcho request s h _ _

  greet-AllEcho :
      (fresh : Bytes) (s : Session) (request : Frame) (h : S) (hello : Hello) (offer : Offer)
      → AllEcho request (with_handler h (greet fresh s request hello offer))
  unfolding greet welcome
  greet-AllEcho fresh s request h hello (refused code message) =
      error_AllEcho request s h code message
  greet-AllEcho fresh s request h hello (offered available) =
      elim (Bool-cases (and_not hello.required_capabilities available == 0)) [
        | inl z ↦ rw z (
            payload_AllEcho request
              (negotiate fresh hello.contract_digest (accepted_of hello available) s) h
              welcome_opcode _)
        | inr n ↦ rw n (error_AllEcho request s h _ _)
      ]

  hello_AllEcho :
      (fresh : Bytes) (s : Session) (request : Frame) (h : S)
      → AllEcho request (with_handler h (handle_hello fresh s request))
  unfolding handle_hello
  hello_AllEcho fresh s request h =
      elim (Bool-cases (
        is_some request.session_id
        || (not (request.subject_opcode == 0) || not (request.decision_opcode == 0)))) [
          | inl bad ↦ rw bad (error_AllEcho request s h _ _)
          | inr good ↦ elim (Result-cases (decode_hello request.payload)) [
            | inl (hello, d) ↦
                rw (good, d) (greet-AllEcho fresh s request h hello (profile_of hello))
            | inr (e, d) ↦ rw (good, d) (error_AllEcho request s h _ _)
          ]
        ]

  ping_AllEcho :
      (s : Session) (request : Frame) (h : S) → AllEcho request (s, h, handle_ping s request)
  unfolding handle_ping
  ping_AllEcho s request h = elim (Bool-cases (bit_and s.accepted_capabilities heartbeat == 0)) [
    | inl off ↦ rw off (error_AllEcho request s h _ _)
    | inr on ↦ elim (Result-cases (decode_nonce request.payload)) [
      | inl (nonce, d) ↦ rw (on, d) (payload_AllEcho request s h pong_opcode _)
      | inr (e, d) ↦ rw (on, d) (error_AllEcho request s h _ _)
    ]
  ]

  goodbye_AllEcho :
      (s : Session) (request : Frame) (h : S)
      → AllEcho request (with_handler h (handle_goodbye s request))
  unfolding handle_goodbye
  goodbye_AllEcho s request h = elim (Bool-cases (length request.payload == 0)) [
    | inl e ↦ rw e (response_AllEcho request (close s) h goodbye_opcode 0 0 [])
    | inr e ↦ rw e (error_AllEcho request s h _ _)
  ]

module _ {S : Type 0} (handler : Handler S) where
  answer_batch-AllEcho :
      (s : Session) (request : Frame) (answer : S × Result Bytes)
      → AllEcho request (answer_batch handler s request answer)
  unfolding answer_batch
  answer_batch-AllEcho s request (h, ok payload) = response_AllEcho request s h _ _ _ payload
  answer_batch-AllEcho s request (h, err e) = error_AllEcho request (close s) h _ _

  batch_AllEcho :
      (s : Session) (request : Frame) (h : S) → AllEcho request (handle_batch handler s request h)
  unfolding handle_batch
  batch_AllEcho s request h = if_AllEcho request _ _ _ (error_AllEcho request s h _ _) (
      decoded_AllEcho request s h (decode_batch request.payload) _
        (λ batch. answer_batch-AllEcho s request (decide_batch handler batch h)))

  answer_event-AllEcho :
      (s : Session) (request : Frame) (answer : S × Result (ℕ × Bytes))
      → AllEcho request (answer_event handler s request answer)
  unfolding answer_event
  answer_event-AllEcho s request (h, ok (decision, payload)) =
      response_AllEcho request s h _ _ decision payload
  answer_event-AllEcho s request (h, err e) = error_AllEcho request s h _ _

  event_AllEcho :
      (s : Session) (request : Frame) (h : S) → AllEcho request (handle_event handler s request h)
  unfolding handle_event
  event_AllEcho s request h =
      let error : (code : ErrorCode) (message : Text)
          → AllEcho request (s, h, error_response s request code message) =
        error_AllEcho request s h in
      let decoded =
        decoded_AllEcho request s h (decode_event request.subject_opcode request.payload)
          (λ event.
            answer_event handler s request (decide_event handler request.subject_opcode event h))
          (λ event.
            answer_event-AllEcho s request (decide_event handler request.subject_opcode event h)) in
      let batch = batch_AllEcho s request h in
      if_AllEcho request
        (not (bit_and s.accepted_capabilities required_capabilities == required_capabilities)) _ _
        (error _ _)
        (if_AllEcho request (request.subject_opcode == batch_event_opcode) _ _ batch (
          if_AllEcho request (not (is_event_opcode request.subject_opcode)) _ _ (error _ _)
            decoded))

  dispatch-AllEcho :
      (s : Session) (request : Frame) (h : S) → AllEcho request (dispatch handler s request h)
  unfolding dispatch
  dispatch-AllEcho s request h =
      let error : (code : ErrorCode) (message : Text)
          → AllEcho request (s, h, error_response s request code message) =
        error_AllEcho request s h in
      if_AllEcho request (not (request.decision_opcode == 0)) _ _ (error _ _) (
        if_AllEcho request (request.opcode == event_request_opcode) _ _ (event_AllEcho s request h)
          (if_AllEcho request (not (request.subject_opcode == 0)) _ _ (error _ _) (
            if_AllEcho request (request.opcode == ping_opcode) _ _ (ping_AllEcho s request h) (
              if_AllEcho request (request.opcode == goodbye_opcode) _ _
                (goodbye_AllEcho s request h) (error _ _)))))

  process-AllEcho :
      (fresh : Bytes) (s : Session) (request : Frame) (h : S)
      → AllEcho request (process handler fresh s request h)
  unfolding process process_hello
  process-AllEcho fresh s request h =
      let error : (code : ErrorCode) (message : Text)
          → AllEcho request (s, h, error_response s request code message) =
        error_AllEcho request s h in
      if_AllEcho request (not (request.kind == request_kind)) _ _ (error _ _) (
        if_AllEcho request (not (request.sequence == s.expected_sequence)) _ _ (error _ _) (
          if_AllEcho request (not (is_some s.session_id)) _ _
            (if_AllEcho request (not (request.opcode == hello_opcode)) _ _
              (error_AllEcho request (advance s) h _ _) (hello_AllEcho fresh (advance s) request h))
            (if_AllEcho request (not (same_session request.session_id s.session_id)) _ _ (error _ _)
              (if_AllEcho request s.closed _ _ (error _ _)
                (dispatch-AllEcho (advance s) request h)))))

  -- Every response frame of process, an error included, is of the response kind, carries the
  -- request's sequence number and message id, and has the id of the session as it is afterwards
  -- with the flag that goes with it.
  pub process-Echoes :
      (fresh : Bytes) (s : Session) (request : Frame) (h : S) (f : Frame)
      → (process handler fresh s request h).2 ≡ ok f
      → Echoes request (process handler fresh s request h).0 f
  process-Echoes fresh s request h f e = (process-AllEcho fresh s request h).each f e
