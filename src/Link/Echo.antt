-- ===== src/Link/Echo.antt =====
-- What every response of `FluidLinkServerSession.process` has in common
-- (fluidgateway/fluidlink.py).
use fluid_gateway.Common.{
  ℕ, ◌+◌, ◌%◌, ◌≡◌, refl, Bool, true, false, not, ◌||◌, Option, none, some, List, [], ◌∷◌, if_both,
  ◌==◌, if◌then◌else◌, arith,
}
use fluid_gateway.Wire.Errors.{Text, Bytes, Result, ok, err, say}
use fluid_gateway.Frame.{is_some, request_kind, response_kind}
use fluid_gateway.Message.Decision.{bit}
use fluid_gateway.Json.{
  Value, Fields, text, object, null, foreign, boolean, whole, number, sequence, get,
}
use fluid_gateway.Runtime.Data.{is_member}
use fluid_gateway.Link.Frame.{LinkFrame, link_response, link_error}
use fluid_gateway.Link.Compact.{Floats}
use fluid_gateway.Link.Names.{unsupported, valid_text}
use fluid_gateway.Link.Handshake.{
  LinkSession, fail, settle, negotiate_link, meet, meet_client, link_hello, accept, shares_contract,
}
use fluid_gateway.Link.Process.{
  DictHandler, advance_link, close_link, link_pong, link_ping, link_goodbye, reply, link_answer,
  link_decide, link_event, link_dispatch, link_opening, link_process, allows_events,
}
use fluid_gateway.Session.State.{
  same_session, hello_opcode, event_request_opcode, ping_opcode, goodbye_opcode,
}
use fluid_gateway.Session.Events.{is_event_opcode}

module _ {F : Type 0} where
  -- A response frame that carries the request's sequence number and message id, the session's id,
  -- and the flags for JSON, for the session id and for nothing else but success.
  pub record LinkEchoes (request : LinkFrame F) (s : LinkSession) (f : LinkFrame F) : Type 0 where
    pub kind : f.kind ≡ response_kind
    pub sequence : f.sequence ≡ request.sequence
    pub message_id : f.message_id ≡ request.message_id
    pub session_id : f.session_id ≡ s.session_id
    pub flags : f.flags ≡ 4 + bit (is_some s.session_id) 2 + bit (f.flags % 2 == 1) 1

  response_LinkEchoes :
      (request : LinkFrame F) (s : LinkSession) (opcode subject decision : ℕ) (success : Bool)
      (payload : Fields F)
      → LinkEchoes request s
          (link_response request opcode subject decision s.session_id success payload)
  unfolding link_response
  response_LinkEchoes request s opcode subject decision success payload = record {
    kind = refl;
    sequence = refl;
    message_id = refl;
    session_id = refl;
    flags = ground arith;
  }

  fail-LinkEchoes :
      (s : LinkSession) (request : LinkFrame F) (code message : Text)
      → LinkEchoes request s (fail s request code message)
  unfolding fail link_error
  fail-LinkEchoes s request code message = response_LinkEchoes request s _ _ _ false _

  -- An answer with the session that it leaves.
  record Fine (request : LinkFrame F) (answer : LinkSession × LinkFrame F) : Type 0 where
    echo : LinkEchoes request answer.0 answer.1

  fail-Fine :
      (s : LinkSession) (request : LinkFrame F) (code message : Text)
      → Fine request (s, fail s request code message)
  fail-Fine s request code message = record { echo = fail-LinkEchoes s request code message }

  if_Fine :
      (request : LinkFrame F) (b : Bool) (t e : LinkSession × LinkFrame F)
      → Fine request t
      → Fine request e
      → Fine request (if b then t else e)
  if_Fine request b t e p q = if_both (Fine request) b t e p q

  settle-Fine :
      (fresh : Bytes) (s : LinkSession) (request : LinkFrame F) (accepted missing : List Text)
      → Fine request (settle fresh s request accepted missing)
  unfolding settle
  settle-Fine fresh s request accepted (name ∷ names) = fail-Fine s request _ _
  settle-Fine fresh s request accepted [] = record {
    echo = response_LinkEchoes request (accept fresh accepted s) _ _ _ true _;
  }

  negotiate_link-Fine :
      (fresh : Bytes) (s : LinkSession) (request : LinkFrame F)
      (requested required : Result (List Text))
      → Fine request (negotiate_link fresh s request requested required)
  unfolding negotiate_link
  negotiate_link-Fine fresh s request (ok requested) (ok required) =
      settle-Fine fresh s request _ (unsupported required)
  negotiate_link-Fine fresh s request (err e) required = fail-Fine s request _ _
  negotiate_link-Fine fresh s request (ok requested) (err e) = fail-Fine s request _ _

  meet_client-Fine :
      (fresh : Bytes) (s : LinkSession) (request : LinkFrame F) (client : Option (Value F))
      → Fine request (meet_client fresh s request client)
  unfolding meet_client meet
  meet_client-Fine fresh s request (some (object client)) =
      if_Fine request (not (valid_text (get (say "name") client) 128)) _ _ (fail-Fine s request _ _)
        (if_Fine request (not (valid_text (get (say "version") client) 64)) _ _
          (fail-Fine s request _ _)
          (if_Fine request (not (shares_contract (get (say "contract_sha256") request.payload))) _ _
            (fail-Fine s request _ _) (negotiate_link-Fine fresh s request _ _)))
  meet_client-Fine fresh s request none = fail-Fine s request _ _
  meet_client-Fine fresh s request (some null) = fail-Fine s request _ _
  meet_client-Fine fresh s request (some foreign) = fail-Fine s request _ _
  meet_client-Fine fresh s request (some (boolean b)) = fail-Fine s request _ _
  meet_client-Fine fresh s request (some (whole n)) = fail-Fine s request _ _
  meet_client-Fine fresh s request (some (number x)) = fail-Fine s request _ _
  meet_client-Fine fresh s request (some (text t)) = fail-Fine s request _ _
  meet_client-Fine fresh s request (some (sequence vs)) = fail-Fine s request _ _

  link_hello-Fine :
      (fresh : Bytes) (s : LinkSession) (request : LinkFrame F)
      → Fine request (link_hello fresh s request)
  unfolding link_hello
  link_hello-Fine fresh s request =
      if_Fine request
        (is_some request.session_id
          || (not (request.subject_opcode == 0) || not (request.decision_opcode == 0)))
        _ _ (fail-Fine s request _ _) (meet_client-Fine fresh s request _)

  link_pong-LinkEchoes :
      (s : LinkSession) (request : LinkFrame F) (nonce : Option (Value F))
      → LinkEchoes request s (link_pong s request nonce)
  unfolding link_pong
  link_pong-LinkEchoes s request (some (text t)) =
      if_both (LinkEchoes request s) (valid_text {F = F} (some (text t)) 128) _ _
        (response_LinkEchoes request s _ _ _ true _) (fail-LinkEchoes s request _ _)
  link_pong-LinkEchoes s request none = fail-LinkEchoes s request _ _
  link_pong-LinkEchoes s request (some null) = fail-LinkEchoes s request _ _
  link_pong-LinkEchoes s request (some foreign) = fail-LinkEchoes s request _ _
  link_pong-LinkEchoes s request (some (boolean b)) = fail-LinkEchoes s request _ _
  link_pong-LinkEchoes s request (some (whole n)) = fail-LinkEchoes s request _ _
  link_pong-LinkEchoes s request (some (number x)) = fail-LinkEchoes s request _ _
  link_pong-LinkEchoes s request (some (sequence vs)) = fail-LinkEchoes s request _ _
  link_pong-LinkEchoes s request (some (object fs)) = fail-LinkEchoes s request _ _

  link_ping-LinkEchoes :
      (s : LinkSession) (request : LinkFrame F) → LinkEchoes request s (link_ping s request)
  unfolding link_ping
  link_ping-LinkEchoes s request =
      if_both (LinkEchoes request s) (not (is_member (say "heartbeat.v1") s.accepted_capabilities))
        _ _ (fail-LinkEchoes s request _ _) (link_pong-LinkEchoes s request _)

  link_goodbye-Fine :
      (s : LinkSession) (request : LinkFrame F) → Fine request (link_goodbye s request)
  unfolding link_goodbye
  link_goodbye-Fine s request = record {
    echo = response_LinkEchoes request (close_link s) _ _ _ true _;
  }

  module _ {S : Type 0} (floats : Floats F) (handler : DictHandler F S) where
    record FineWith (request : LinkFrame F) (answer : LinkSession × S × LinkFrame F) : Type 0 where
      echo : LinkEchoes request answer.0 answer.2

    fail-FineWith :
        (s : LinkSession) (request : LinkFrame F) (h : S) (code message : Text)
        → FineWith request (s, h, fail s request code message)
    fail-FineWith s request h code message = record {
      echo = fail-LinkEchoes s request code message;
    }

    reply-FineWith :
        (request : LinkFrame F) (h : S) (answer : LinkSession × LinkFrame F)
        → Fine request answer
        → FineWith request (reply h answer)
    reply-FineWith request h answer fine = record { echo = fine.echo }

    if_FineWith :
        (request : LinkFrame F) (b : Bool) (t e : LinkSession × S × LinkFrame F)
        → FineWith request t
        → FineWith request e
        → FineWith request (if b then t else e)
    if_FineWith request b t e p q = if_both (FineWith request) b t e p q

    link_answer-LinkEchoes :
        (s : LinkSession) (request : LinkFrame F) (answer : Result (ℕ × Fields F))
        → LinkEchoes request s (link_answer floats handler s request answer)
    unfolding link_answer
    link_answer-LinkEchoes s request (ok (decision, compact)) =
        response_LinkEchoes request s _ _ decision true compact
    link_answer-LinkEchoes s request (err e) = fail-LinkEchoes s request _ _

    link_event-FineWith :
        (s : LinkSession) (request : LinkFrame F) (h : S)
        → FineWith request (link_event floats handler s request h)
    unfolding link_event link_decide
    link_event-FineWith s request h =
        if_FineWith request (not (allows_events s)) _ _ (fail-FineWith s request h _ _) (
          if_FineWith request (not (is_event_opcode request.subject_opcode)) _ _
            (fail-FineWith s request h _ _) (record { echo = link_answer-LinkEchoes s request _ }))

    link_dispatch-FineWith :
        (s : LinkSession) (request : LinkFrame F) (h : S)
        → FineWith request (link_dispatch floats handler s request h)
    unfolding link_dispatch
    link_dispatch-FineWith s request h =
        let error : (code message : Text) → FineWith request (s, h, fail s request code message) =
          fail-FineWith s request h in
        if_FineWith request (not (request.decision_opcode == 0)) _ _ (error _ _) (
          if_FineWith request (request.opcode == event_request_opcode) _ _
            (link_event-FineWith s request h)
            (if_FineWith request (not (request.subject_opcode == 0)) _ _ (error _ _) (
              if_FineWith request (request.opcode == ping_opcode) _ _
                (record { echo = link_ping-LinkEchoes s request })
                (if_FineWith request (request.opcode == goodbye_opcode) _ _
                  (reply-FineWith request h _ (link_goodbye-Fine s request)) (error _ _)))))

    link_process-FineWith :
        (fresh : Bytes) (s : LinkSession) (request : LinkFrame F) (h : S)
        → FineWith request (link_process floats handler fresh s request h)
    unfolding link_process link_opening
    link_process-FineWith fresh s request h =
        let error : (code message : Text) → FineWith request (s, h, fail s request code message) =
          fail-FineWith s request h in
        if_FineWith request (not (request.kind == request_kind)) _ _ (error _ _) (
          if_FineWith request (not (request.sequence == s.expected_sequence)) _ _ (error _ _) (
            if_FineWith request (not (is_some s.session_id)) _ _
              (if_FineWith request (not (request.opcode == hello_opcode)) _ _
                (fail-FineWith (advance_link s) request h _ _)
                (reply-FineWith request h _ (link_hello-Fine fresh (advance_link s) request)))
              (if_FineWith request (not (same_session request.session_id s.session_id)) _ _
                (error _ _)
                (if_FineWith request s.closed _ _ (error _ _)
                  (link_dispatch-FineWith (advance_link s) request h)))))

    -- Every response of the JSON protocol, an error included, is of the response kind, carries the
    -- request's sequence number and message id, and has the id of the session as it is afterwards
    -- with the flag that goes with it.
    pub link_process-LinkEchoes :
        (fresh : Bytes) (s : LinkSession) (request : LinkFrame F) (h : S)
        → LinkEchoes request
            (link_process floats handler fresh s request h).0
            (link_process floats handler fresh s request h).2
    link_process-LinkEchoes fresh s request h = (link_process-FineWith fresh s request h).echo
