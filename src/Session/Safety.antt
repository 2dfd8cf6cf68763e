-- ===== src/Session/Safety.antt =====
-- What holds of a `FluidLinkV2ServerSession` (fluidgateway/fluidlink_v2.py) over its whole life,
-- from the moves of the automaton.
use fluid_gateway.Common.{
  ℕ, ◌≡◌, refl, ◌∙◌, ◌||◌, ◌⊎◌, inl, inr, Bool, true, false, not, none, some, List, [], ◌∷◌, arith,
}
use fluid_gateway.Wire.Errors.{Text, Bytes, ok}
use fluid_gateway.Frame.{Frame, is_some}
use fluid_gateway.Message.Capability.{and_not}
use fluid_gateway.Message.Hello.{Hello, decode_hello-masks}
use fluid_gateway.Message.MaskLaws.{accepted_available}
use fluid_gateway.Session.State.{Session, initial}
use fluid_gateway.Session.Events.{Handler}
use fluid_gateway.Session.Automaton.{Grants, Offers, Move, rejected, consumed, ended, opened}
use fluid_gateway.Session.Process.{is_consumed, process}
use fluid_gateway.Session.Progress.{process_rejected, process-Move, Offers-IsOffer}

-- What a session with an id has agreed on: its contract grants all that it has accepted.
pub record Agreed (s : Session) : Type 0 where
  pub digest : Bytes
  pub available : ℕ
  pub contract : s.contract_digest ≡ some digest
  pub grants : Grants digest available
  pub accepted : and_not s.accepted_capabilities available ≡ 0

-- Before the handshake a session has accepted nothing, has no contract and is not closed.
abbrev Unused : Session → Type 0
Unused s =
    (s.session_id ≡ none)
    × (s.contract_digest ≡ none)
    × (s.accepted_capabilities ≡ 0)
    × (s.closed ≡ false)

abbrev pub IsSafe : Session → Type 0
IsSafe s = Unused s ⊎ ((is_some s.session_id ≡ true) × Agreed s)

pub initial-IsSafe : (name version : Text) (s : Session) → initial name version ≡ ok s → IsSafe s
unfolding initial
initial-IsSafe name version s h = inl (ground arith, ground arith, ground arith, ground arith)

Offers-Grants :
    (hello : Hello) (available : ℕ)
    → Offers hello available
    → Grants hello.contract_digest available
Offers-Grants hello available (inl o) = inl o
Offers-Grants hello available (inr (digest, granted, batches)) = inr (digest, granted)

Move-IsSafe :
    (fresh : Bytes) (request : Frame) (s s' : Session)
    → Move fresh request s s'
    → IsSafe s
    → IsSafe s'
Move-IsSafe fresh request s s' (rejected lacks) safe = safe
Move-IsSafe fresh request s s' (consumed takes) (inl unused) = inl unused
Move-IsSafe fresh request s s' (consumed takes) (inr (set, agreed)) = inr (
  set,
  record {
    digest = agreed.digest;
    available = agreed.available;
    contract = agreed.contract;
    grants = agreed.grants;
    accepted = agreed.accepted;
  },
)
Move-IsSafe fresh request s s' (ended takes set live) (inl unused) =
    let unset = unused.0 in absurd (ground arith)
Move-IsSafe fresh request s s' (ended takes set live) (inr (_, agreed)) = inr (
  set,
  record {
    digest = agreed.digest;
    available = agreed.available;
    contract = agreed.contract;
    grants = agreed.grants;
    accepted = agreed.accepted;
  },
)
Move-IsSafe fresh request s s' (opened hello available takes unset o d offer known) safe =
    let (lt, lt') = decode_hello-masks request.payload hello d in
    inr (
      refl,
      record {
        digest = hello.contract_digest;
        available = available;
        contract = refl;
        grants = Offers-Grants hello available offer;
        accepted =
            accepted_available available hello.requested_capabilities hello.required_capabilities
              (Offers-IsOffer hello available offer) lt lt';
      },
    )

-- A negotiated session keeps its id, its contract and its capabilities, and a closed one stays
-- closed.
pub record Keeps (s s' : Session) : Type 0 where
  pub session_id : s'.session_id ≡ s.session_id
  pub contract_digest : s'.contract_digest ≡ s.contract_digest
  pub accepted : s'.accepted_capabilities ≡ s.accepted_capabilities
  pub closed : (not s.closed || s'.closed) ≡ true

Move-Keeps :
    (fresh : Bytes) (request : Frame) (s s' : Session)
    → is_some s.session_id ≡ true
    → Move fresh request s s'
    → Keeps s s'
Move-Keeps fresh request s s' set (rejected lacks) = record {
  session_id = refl;
  contract_digest = refl;
  accepted = refl;
  closed = ground arith;
}
Move-Keeps fresh request s s' set (consumed takes) = record {
  session_id = refl;
  contract_digest = refl;
  accepted = refl;
  closed = ground arith;
}
Move-Keeps fresh request s s' set (ended takes _ live) = record {
  session_id = refl;
  contract_digest = refl;
  accepted = refl;
  closed = ground arith;
}
Move-Keeps fresh request s s' set (opened hello available takes unset o d offer known) =
    absurd (ground arith)

closed_after : (a b c : Bool) → (not a || b) ≡ true → (not b || c) ≡ true → (not a || c) ≡ true
closed_after a b c h k = ground arith

module _ {S : Type 0} (handler : Handler S) where
  -- A connection: its requests, one after another, each with the id that `uuid4` would make.
  unfoldable pub run : List (Bytes × Frame) → Session → S → Session × S
  run [] s h = (s, h)
  run ((fresh, request) ∷ requests) s h =
      let (s', h', response) = process handler fresh s request h in run requests s' h'

  run-IsSafe' :
      (requests : List (Bytes × Frame)) (s : Session) (h : S)
      → IsSafe s
      → IsSafe (run requests s h).0
  unfolding run
  run-IsSafe' [] s h safe = safe
  run-IsSafe' ((fresh, request) ∷ requests) s h safe =
      run-IsSafe' requests _ _
        (Move-IsSafe fresh request s _ (process-Move handler fresh s request h) safe)

  -- However a new session is used, once it has an id it has one of the two contracts and has
  -- accepted no capability that this contract does not grant; until then it has no contract, has
  -- accepted nothing and is not closed.
  pub run-IsSafe :
      (name version : Text) (s : Session) (requests : List (Bytes × Frame)) (h : S)
      → initial name version ≡ ok s
      → IsSafe (run requests s h).0
  run-IsSafe name version s requests h e =
      run-IsSafe' requests s h (initial-IsSafe name version s e)

  -- Whatever requests a session that has an id goes through, it keeps its id, contract digest and
  -- accepted capabilities, and it stays closed if it was closed.
  pub run-Keeps :
      (requests : List (Bytes × Frame)) (s : Session) (h : S)
      → is_some s.session_id ≡ true
      → Keeps s (run requests s h).0
  unfolding run
  run-Keeps [] s h set = record {
    session_id = refl;
    contract_digest = refl;
    accepted = refl;
    closed = ground arith;
  }
  run-Keeps ((fresh, request) ∷ requests) s h set =
      let (s', h', response) = process handler fresh s request h in
      let first : Keeps s s' =
        Move-Keeps fresh request s s' set (process-Move handler fresh s request h) in
      let set' : is_some s'.session_id ≡ true = rw first.session_id set in
      let rest = run-Keeps requests s' h' set' in
      record {
        session_id = rest.session_id ∙ first.session_id;
        contract_digest = rest.contract_digest ∙ first.contract_digest;
        accepted = rest.accepted ∙ first.accepted;
        closed =
            closed_after s.closed s'.closed (run requests s' h').0.closed first.closed rest.closed;
      }

  -- A session that has an id and is closed goes through any list of requests without a change to
  -- itself or to the handler's state.
  pub run_closed :
      (requests : List (Bytes × Frame)) (s : Session) (h : S)
      → is_some s.session_id ≡ true
      → s.closed ≡ true
      → run requests s h ≡ (s, h)
  unfolding run is_consumed
  run_closed [] s h set shut = refl
  run_closed ((fresh, request) ∷ requests) s h set shut =
      let lacks : is_consumed s request ≡ false = ground arith in
      let (same, same') = process_rejected handler fresh s request h lacks in
      rw (same, same') (run_closed requests s h set shut)
