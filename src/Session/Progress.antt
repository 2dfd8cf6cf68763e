-- ===== src/Session/Progress.antt =====
-- How `process` of fluidgateway/fluidlink_v2.py changes the session.
use fluid_gateway.Common.{
  ℕ, ◌+◌, ◌≡◌, refl, ◌⊎◌, inl, inr, true, false, not, ◌||◌, Option, none, some, ◌==◌, ==→eq, [],
  ◌∷◌, if◌then◌else◌, Bool-cases, arith,
}
use fluid_gateway.Wire.Errors.{Bytes, Result, ok}
use fluid_gateway.Wire.Codec.{Result-cases}
use fluid_gateway.Message.Capability.{and_not}
use fluid_gateway.Message.MaskLaws.{IsOffer}
use fluid_gateway.Message.Hello.{Hello, decode_hello}
use fluid_gateway.Session.Automaton.{Offers, Move, rejected, consumed, ended, opened}
use fluid_gateway.Frame.{Frame, is_some}
use fluid_gateway.Session.State.{Session, advance, close, negotiate, same_bytes, hello_opcode}
use fluid_gateway.Session.Handshake.{
  Offer, offered, refused, contract_digest, batch_contract_digest, profile_of, accepted_of,
  handle_hello, handle_goodbye, greet, welcome,
}
use fluid_gateway.Session.Events.{Handler, handle_event, handle_batch, answer_batch, answer_event}
use fluid_gateway.Session.Process.{is_consumed, dispatch, process_hello, process}

module _ {S : Type 0} (handler : Handler S) where
  -- A request that takes no sequence number changes neither the session nor the handler's state.
  pub process_rejected :
      (fresh : Bytes) (s : Session) (request : Frame) (h : S)
      → is_consumed s request ≡ false
      → ((process handler fresh s request h).0 ≡ s) × ((process handler fresh s request h).1 ≡ h)
  unfolding process is_consumed
  process_rejected fresh s request h e = (ground arith, ground arith)

  events_end :
      (s : Session) (request : Frame) (h : S)
      → ((handle_event handler s request h).0 ≡ s)
        ⊎ ((handle_event handler s request h).0 ≡ close s)
  unfolding handle_event handle_batch answer_batch answer_event
  events_end s request h = ground arith

goodbye_end :
    (s : Session) (request : Frame)
    → ((handle_goodbye s request).0 ≡ s) ⊎ ((handle_goodbye s request).0 ≡ close s)
unfolding handle_goodbye
goodbye_end s request = ground arith

same_bytes-eq : (a b : Bytes) → same_bytes a b ≡ true → a ≡ b
same_bytes-eq [] [] h = refl
same_bytes-eq [] (y ∷ b) h = cc
same_bytes-eq (x ∷ a) [] h = cc
same_bytes-eq (x ∷ a) (y ∷ b) h =
    let first : x ≡ y = ground arith in
    let rest = same_bytes-eq a b (ground arith) in rw (first, rest) refl

-- What a hello is offered is what its contract grants.
pub profile_of-Offers :
    (hello : Hello) (available : ℕ) → profile_of hello ≡ offered available → Offers hello available
unfolding profile_of
profile_of-Offers hello available h =
    elim (Bool-cases (same_bytes hello.contract_digest contract_digest)) [
      | inl e ↦ inl (same_bytes-eq _ _ e, ground arith)
      | inr n ↦ elim (Bool-cases (same_bytes hello.contract_digest batch_contract_digest)) [
        | inl e ↦ inr (same_bytes-eq _ _ e, ground arith, ground arith)
        | inr n' ↦ absurd (ground arith)
      ]
    ]

pub Offers-IsOffer : (hello : Hello) (available : ℕ) → Offers hello available → IsOffer available
Offers-IsOffer hello available (inl (digest, granted)) = inl granted
Offers-IsOffer hello available (inr (digest, granted, batches)) = inr granted

-- A session after `_handle_hello`: unchanged, or open with what was agreed on.
abbrev Opens : Bytes → Session → Result Hello → Session → Type 0
Opens fresh s decoded s' =
    (s' ≡ s)
    ⊎ ((hello : Hello) × (available : ℕ) × (decoded ≡ ok hello)
        × Offers hello available
        × (and_not hello.required_capabilities available ≡ 0)
        × (s' ≡ negotiate fresh hello.contract_digest (accepted_of hello available) s))

greet_end :
    (fresh : Bytes) (s : Session) (request : Frame) (decoded : Result Hello) (hello : Hello)
    (offer : Offer)
    → decoded ≡ ok hello
    → profile_of hello ≡ offer
    → Opens fresh s decoded (greet fresh s request hello offer).0
unfolding greet welcome
greet_end fresh s request decoded hello (refused code message) d e = inl refl
greet_end fresh s request decoded hello (offered available) d e =
    elim (Bool-cases (and_not hello.required_capabilities available == 0)) [
      | inl z ↦
          rw z (inr (hello, available, d, profile_of-Offers hello available e, ground arith, refl))
      | inr n ↦ rw n (inl refl)
    ]

hello_end :
    (fresh : Bytes) (s : Session) (request : Frame)
    → Opens fresh s (decode_hello request.payload) (handle_hello fresh s request).0
unfolding handle_hello
hello_end fresh s request =
    elim (Bool-cases (
      is_some request.session_id
      || (not (request.subject_opcode == 0) || not (request.decision_opcode == 0)))) [
        | inl bad ↦ rw bad (inl refl)
        | inr good ↦ elim (Result-cases (decode_hello request.payload)) [
          | inl (hello, d) ↦
              rw (good, d) (greet_end fresh s request (ok hello) hello (profile_of hello) refl refl)
          | inr (e, d) ↦ rw (good, d) (inl refl)
        ]
      ]

module _ {S : Type 0} (handler : Handler S) where
  dispatch_end :
      (s : Session) (request : Frame) (h : S)
      → ((dispatch handler s request h).0 ≡ s) ⊎ ((dispatch handler s request h).0 ≡ close s)
  unfolding dispatch
  dispatch_end s request h =
      let events = events_end handler s request h in
      let goodbye = goodbye_end s request in ground arith

  opening_end :
      (fresh : Bytes) (s : Session) (request : Frame) (h : S)
      → let s' = (process_hello handler fresh s request h).0 in
        (s' ≡ s)
        ⊎ ((request.opcode ≡ hello_opcode) × Opens fresh s (decode_hello request.payload) s')
  unfolding process_hello
  opening_end fresh s request h = elim (Bool-cases (request.opcode == 1)) [
    | inl e ↦ rw e (inr (==→eq request.opcode 1 e, hello_end fresh s request))
    | inr n ↦ rw n (inl refl)
  ]

  -- A consumed request goes to the handshake or to the negotiated session.
  process_opening :
      (fresh : Bytes) (s : Session) (request : Frame) (h : S)
      → is_consumed s request ≡ true
      → is_some s.session_id ≡ false
      → process handler fresh s request h ≡ process_hello handler fresh (advance s) request h
  unfolding process is_consumed
  process_opening fresh s request h e unset = ground arith

  pub process_negotiated :
      (fresh : Bytes) (s : Session) (request : Frame) (h : S)
      → is_consumed s request ≡ true
      → is_some s.session_id ≡ true
      → (process handler fresh s request h ≡ dispatch handler (advance s) request h)
        × (s.closed ≡ false)
  unfolding process is_consumed
  process_negotiated fresh s request h e set = (ground arith, ground arith)

  none_of_not_some : (o : Option Bytes) → is_some o ≡ false → o ≡ none
  none_of_not_some none e = refl
  none_of_not_some (some a) e = cc

  open_Move :
      (fresh : Bytes) (s s' : Session) (request : Frame)
      → is_consumed s request ≡ true
      → s.session_id ≡ none
      → (s' ≡ advance s)
        ⊎ ((request.opcode ≡ hello_opcode)
            × Opens fresh (advance s) (decode_hello request.payload) s')
      → Move fresh request s s'
  unfolding accepted_of
  open_Move fresh s s' request takes n (inl e) = rw e (consumed takes)
  open_Move fresh s s' request takes n (inr (o, inl e)) = rw e (consumed takes)
  open_Move fresh s s' request takes n (inr (o, inr (hello, available, d, offer, known, e))) =
      rw e (opened hello available takes n o d offer known)

  -- Whatever the request, the handler and the fresh id, process takes the session along a move of
  -- the abstract automaton that the request allows: a request that takes no sequence number is
  -- rejected; one that does may do no more, may close an open session, or may open one that had no
  -- id, and then the request is a hello under one of the two contracts, which grants all that the
  -- hello requires, and the session has the fresh id, that contract and exactly what is asked for
  -- and granted.
  pub process-Move :
      (fresh : Bytes) (s : Session) (request : Frame) (h : S)
      → Move fresh request s (process handler fresh s request h).0
  process-Move fresh s request h = elim (Bool-cases (is_consumed s request)) [
    | inr lacks ↦
        let (same, _) = process_rejected handler fresh s request h lacks in rw same (rejected lacks)
    | inl takes ↦ elim (Bool-cases (is_some s.session_id)) [
      | inr unset ↦ rw (process_opening fresh s request h takes unset) (
          open_Move fresh s _ request takes (none_of_not_some s.session_id unset)
            (opening_end fresh (advance s) request h))
      | inl set ↦
          let (negotiated, live) = process_negotiated fresh s request h takes set in
          elim (dispatch_end (advance s) request h) [
            | inl e ↦ rw (negotiated, e) (consumed takes)
            | inr e ↦ rw (negotiated, e) (ended takes set live)
          ]
    ]
  ]

  -- The expected sequence number grows by one where the request is of the request kind, has the
  -- expected number, and meets either no session id or the same id and a session that is not
  -- closed; otherwise it stays.
  pub process_sequence :
      (fresh : Bytes) (s : Session) (request : Frame) (h : S)
      → (process handler fresh s request h).0.expected_sequence
        ≡ s.expected_sequence + (if is_consumed s request then 1 else 0)
  process_sequence fresh s request h = elim (Bool-cases (is_consumed s request)) [
    | inr lacks ↦
        let (same, _) = process_rejected handler fresh s request h lacks in
        rw (lacks, same) (omega arith)
    | inl takes ↦ elim (Bool-cases (is_some s.session_id)) [
      | inr unset ↦
          rw (takes, process_opening fresh s request h takes unset)
            (sequence_open fresh s _ request (opening_end fresh (advance s) request h))
      | inl set ↦
          let (negotiated, live) = process_negotiated fresh s request h takes set in
          elim (dispatch_end (advance s) request h) [
            | inl e ↦ rw (takes, negotiated, e) refl
            | inr e ↦ rw (takes, negotiated, e) refl
          ]
    ]
  ]
    where
      sequence_open :
          (fresh : Bytes) (s s' : Session) (request : Frame)
          → (s' ≡ advance s)
            ⊎ ((request.opcode ≡ hello_opcode)
                × Opens fresh (advance s) (decode_hello request.payload) s')
          → s'.expected_sequence ≡ s.expected_sequence + 1
      sequence_open fresh s s' request (inl e) = rw e refl
      sequence_open fresh s s' request (inr (o, inl e)) = rw e refl
      sequence_open fresh s s' request (inr (o, inr (hello, available, d, offer, known, e))) =
          rw e refl
