-- ===== src/Link/Lifetime.antt =====
-- What holds of a `FluidLinkServerSession` (fluidgateway/fluidlink.py) over its whole life, from the
-- moves of the automaton.
use fluid_gateway.Common.{
  ◌≡◌, ◌∙◌, refl, ◌⊎◌, inl, inr, Bool-cases, Bool, true, false, not, ◌&&◌, ◌||◌, List, [], ◌∷◌,
  ◌==◌, arith,
}
use fluid_gateway.Wire.Errors.{Text, Bytes}
use fluid_gateway.Frame.{is_some}
use fluid_gateway.Runtime.Data.{is_member}
use fluid_gateway.Link.Frame.{LinkFrame}
use fluid_gateway.Link.Compact.{Floats}
use fluid_gateway.Link.Names.{link_capabilities}
use fluid_gateway.Link.Handshake.{LinkSession, new_session}
use fluid_gateway.Link.Process.{
  DictHandler, advance_link, takes_sequence, allows_events, link_dispatch, link_event, link_opening,
  link_process, link_goodbye,
}
use fluid_gateway.Link.Moves.{
  LinkMove, rejected, consumed, ended, opened, link_process-LinkMove, link_process_rejected,
}
use fluid_gateway.Session.State.{event_request_opcode}

-- What a session has accepted is available, and without an id it has accepted nothing and is open.
pub record IsSafeLink (s : LinkSession) : Type 0 where
  pub accepted :
      (name : Text)
      → is_member name s.accepted_capabilities ≡ true
      → is_member name link_capabilities ≡ true
  pub unset : (is_some s.session_id ≡ true) ⊎ ((s.accepted_capabilities ≡ []) × (s.closed ≡ false))

LinkMove-IsSafeLink :
    {F : Type 0} (fresh : Bytes) (request : LinkFrame F) (s s' : LinkSession)
    → LinkMove fresh request s s'
    → IsSafeLink s
    → IsSafeLink s'
LinkMove-IsSafeLink fresh request s s' (rejected left) safe = safe
LinkMove-IsSafeLink fresh request s s' (consumed taken) safe = record {
  accepted = safe.accepted;
  unset = safe.unset;
}
LinkMove-IsSafeLink fresh request s s' (ended taken set live) safe = record {
  accepted = safe.accepted;
  unset = inl set;
}
LinkMove-IsSafeLink fresh request s s' (opened requested required names taken unset asks settled)
      safe =
    record {
      accepted = λ name h. let member = settled.exactly name in ground arith;
      unset = inl refl;
    }

-- A session with an id keeps it and its capabilities, and stays closed.
pub record KeepsLink (s s' : LinkSession) : Type 0 where
  pub session_id : s'.session_id ≡ s.session_id
  pub accepted : s'.accepted_capabilities ≡ s.accepted_capabilities
  pub closed : (not s.closed || s'.closed) ≡ true

LinkMove-KeepsLink :
    {F : Type 0} (fresh : Bytes) (request : LinkFrame F) (s s' : LinkSession)
    → is_some s.session_id ≡ true
    → LinkMove fresh request s s'
    → KeepsLink s s'
LinkMove-KeepsLink fresh request s s' set (rejected left) = record {
  session_id = refl;
  accepted = refl;
  closed = ground arith;
}
LinkMove-KeepsLink fresh request s s' set (consumed taken) = record {
  session_id = refl;
  accepted = refl;
  closed = ground arith;
}
LinkMove-KeepsLink fresh request s s' set (ended taken _ live) = record {
  session_id = refl;
  accepted = refl;
  closed = ground arith;
}
LinkMove-KeepsLink fresh request s s' set
      (opened requested required names taken unset asks settled) =
    absurd (ground arith)

stays_closed : (a b c : Bool) → (not a || b) ≡ true → (not b || c) ≡ true → (not a || c) ≡ true
stays_closed a b c h k = ground arith

module _ {F : Type 0} {S : Type 0} (floats : Floats F) (handler : DictHandler F S) where
  -- A connection: its requests, one after another, each with the id that `uuid4` would make, and the
  -- responses to them.
  unfoldable pub link_run :
      List (Bytes × LinkFrame F) → LinkSession → S → LinkSession × S × List (LinkFrame F)
  link_run [] s h = (s, h, [])
  link_run ((fresh, request) ∷ requests) s h =
      let (s', h', response) = link_process floats handler fresh s request h in
      let (s'', h'', responses) = link_run requests s' h' in (s'', h'', response ∷ responses)

  run_IsSafeLink :
      (requests : List (Bytes × LinkFrame F)) (s : LinkSession) (h : S)
      → IsSafeLink s
      → IsSafeLink (link_run requests s h).0
  unfolding link_run
  run_IsSafeLink [] s h safe = safe
  run_IsSafeLink ((fresh, request) ∷ requests) s h safe = run_IsSafeLink requests _ _ (
      LinkMove-IsSafeLink fresh request s _ (link_process-LinkMove floats handler fresh s request h)
        safe)

  -- However a new session of the JSON protocol is used, each capability that it has accepted is
  -- available, and until it has an id it has accepted none and is not closed.
  pub link_run-IsSafeLink :
      (name version : Text) (requests : List (Bytes × LinkFrame F)) (h : S)
      → IsSafeLink (link_run requests (new_session name version) h).0
  unfolding new_session
  link_run-IsSafeLink name version requests h =
      run_IsSafeLink requests (new_session name version) h
        (record { accepted = λ name e. cc; unset = inr (refl, refl) })

  pub link_run-KeepsLink :
      (requests : List (Bytes × LinkFrame F)) (s : LinkSession) (h : S)
      → is_some s.session_id ≡ true
      → KeepsLink s (link_run requests s h).0
  unfolding link_run
  link_run-KeepsLink [] s h set = record {
    session_id = refl;
    accepted = refl;
    closed = ground arith;
  }
  link_run-KeepsLink ((fresh, request) ∷ requests) s h set =
      let (s', h', response) = link_process floats handler fresh s request h in
      let first : KeepsLink s s' =
        LinkMove-KeepsLink fresh request s s' set
          (link_process-LinkMove floats handler fresh s request h) in
      let set' : is_some s'.session_id ≡ true = rw first.session_id set in
      let rest = link_run-KeepsLink requests s' h' set' in
      record {
        session_id = rest.session_id ∙ first.session_id;
        accepted = rest.accepted ∙ first.accepted;
        closed =
            stays_closed s.closed s'.closed (link_run requests s' h').0.closed first.closed
              rest.closed;
      }

  closed_rejects :
      (s : LinkSession) (request : LinkFrame F)
      → is_some s.session_id ≡ true
      → s.closed ≡ true
      → takes_sequence s request ≡ false
  unfolding takes_sequence
  closed_rejects s request set closed = ground arith

  -- A session of the JSON protocol that has an id and is closed goes through any list of requests
  -- without a change to itself or to the handler's state.
  pub link_run_closed :
      (requests : List (Bytes × LinkFrame F)) (s : LinkSession) (h : S)
      → is_some s.session_id ≡ true
      → s.closed ≡ true
      → ((link_run requests s h).0 ≡ s) × ((link_run requests s h).1 ≡ h)
  unfolding link_run
  link_run_closed [] s h set closed = (refl, refl)
  link_run_closed ((fresh, request) ∷ requests) s h set closed =
      let (same, same') =
        link_process_rejected floats handler fresh s request h
          (closed_rejects s request set closed) in
      let rest = link_run_closed requests s h set closed in rw (same, same') rest

  -- Only a runtime event in a session that allows them gets to the handler.
  link_event_handler :
      (s : LinkSession) (request : LinkFrame F) (h : S)
      → allows_events s ≡ false
      → (link_event floats handler s request h).1 ≡ h
  unfolding link_event
  link_event_handler s request h e = rw e refl

  link_dispatch_handler :
      (s : LinkSession) (request : LinkFrame F) (h : S)
      → (allows_events s && request.opcode == event_request_opcode) ≡ false
      → (link_dispatch floats handler s request h).1 ≡ h
  unfolding link_dispatch link_goodbye
  link_dispatch_handler s request h e = elim (Bool-cases (allows_events s)) [
    | inr off ↦ let event = link_event_handler s request h off in ground arith
    | inl on ↦ ground arith
  ]

  same_capabilities :
      (s : LinkSession) (b : Bool) → (allows_events (advance_link s) && b) ≡ (allows_events s && b)
  unfolding allows_events
  same_capabilities s b = refl

  -- In the JSON protocol the handler's state stays as it is unless the session has an id and has
  -- accepted all the capabilities of runtime events, and the request is a runtime event.
  pub link_process_handler :
      (fresh : Bytes) (s : LinkSession) (request : LinkFrame F) (h : S)
      → (is_some s.session_id && (allows_events s && request.opcode == event_request_opcode))
        ≡ false
      → (link_process floats handler fresh s request h).1 ≡ h
  unfolding link_process link_opening
  link_process_handler fresh s request h e = elim (Bool-cases (is_some s.session_id)) [
    | inr unset ↦ ground arith
    | inl set ↦
        let quiet : (allows_events s && request.opcode == event_request_opcode) ≡ false =
          ground arith in
        let dispatched =
          link_dispatch_handler (advance_link s) request h (same_capabilities s _ ∙ quiet) in
        ground arith
  ]
