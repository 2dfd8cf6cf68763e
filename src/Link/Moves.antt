-- ===== src/Link/Moves.antt =====
-- How `FluidLinkServerSession.process` of fluidgateway/fluidlink.py changes the session, as the moves
-- of an abstract automaton.
use fluid_gateway.Common.{
  ◌≡◌, refl, ◌⊎◌, inl, inr, Bool-cases, true, false, Option, none, some, List, [], ◌∷◌, ◌==◌, ==→eq,
  ◌&&◌, ◌||◌, arith,
}
use fluid_gateway.Wire.Errors.{Text, Bytes, Result, ok, err, say}
use fluid_gateway.Frame.{is_some}
use fluid_gateway.Json.{
  Value, Fields, object, null, foreign, boolean, whole, number, text, sequence, get,
}
use fluid_gateway.Link.Frame.{LinkFrame}
use fluid_gateway.Link.Compact.{Floats}
use fluid_gateway.Link.Names.{link_capabilities, agreed, unsupported, string_set}
use fluid_gateway.Link.Agreed.{is_member-agreed, unsupported_none}
use fluid_gateway.Runtime.Data.{is_member}
use fluid_gateway.Session.State.{hello_opcode}
use fluid_gateway.Link.Handshake.{
  LinkSession, accept, settle, negotiate_link, meet, meet_client, link_hello, get_list,
  shares_contract,
}
use fluid_gateway.Link.Process.{
  DictHandler, advance_link, close_link, takes_sequence, link_goodbye, link_decide, link_event,
  link_dispatch, link_opening, link_process,
}

-- What a hello asks for: the two lists of names in its payload, under the contract of the protocol.
pub record Asks {F : Type 0} (request : LinkFrame F) (requested required : List Text) : Type 0 where
  pub hello : request.opcode ≡ hello_opcode
  pub contract : shares_contract (get (say "contract_sha256") request.payload) ≡ true
  pub requests : string_set (get_list (say "capabilities") request.payload) ≡ ok requested
  pub requires : string_set (get_list (say "required_capabilities") request.payload) ≡ ok required

-- What a server agrees on: all that is required is available, and a name is accepted exactly where it
-- is available and asked for.
pub record Settles (requested required accepted : List Text) : Type 0 where
  pub available :
      (name : Text) → is_member name required ≡ true → is_member name link_capabilities ≡ true
  pub exactly :
      (name : Text)
      → is_member name accepted ≡ (
          is_member name link_capabilities && (is_member name requested || is_member name required))

-- A request that takes no sequence number is rejected. One that does may do no more, may end an open
-- session, or may open one that has no id, with the fresh id and with what its hello and the server
-- agree on.
pub data LinkMove {F : Type 0} (fresh : Bytes) (request : LinkFrame F) (s : LinkSession)
    : LinkSession → Type 0 where
  rejected : takes_sequence s request ≡ false → LinkMove fresh request s s
  consumed : takes_sequence s request ≡ true → LinkMove fresh request s (advance_link s)
  ended :
      takes_sequence s request ≡ true
      → is_some s.session_id ≡ true
      → s.closed ≡ false
      → LinkMove fresh request s (close_link (advance_link s))
  opened :
      (requested required accepted : List Text)
      → takes_sequence s request ≡ true
      → s.session_id ≡ none
      → Asks request requested required
      → Settles requested required accepted
      → LinkMove fresh request s (accept fresh accepted (advance_link s))

agreed-Settles :
    (requested required : List Text)
    → unsupported required ≡ []
    → Settles requested required (agreed requested required)
agreed-Settles requested required e = record {
  available = λ name m. unsupported_none name required e m;
  exactly = λ name. is_member-agreed name requested required;
}

-- A session after `_handle_hello`: unchanged, or open with what was agreed on.
abbrev Opened : Bytes → LinkSession → Result (List Text) → Result (List Text) → LinkSession → Type 0
Opened fresh s requests requires s' =
    (s' ≡ s)
    ⊎ ((requested : List Text) × (required : List Text) × (requests ≡ ok requested)
        × (requires ≡ ok required)
        × Settles requested required (agreed requested required)
        × (s' ≡ accept fresh (agreed requested required) s))

module _ {F : Type 0} (fresh : Bytes) (s : LinkSession) (request : LinkFrame F) where
  settle_end :
      (requested required missing : List Text)
      → unsupported required ≡ missing
      → Opened fresh s
          (ok requested)
          (ok required)
          (settle fresh s request (agreed requested required) missing).0
  unfolding settle
  settle_end requested required (name ∷ names) e = inl refl
  settle_end requested required [] e =
      inr (requested, required, refl, refl, agreed-Settles requested required e, refl)

  negotiate_link_end :
      (requests requires : Result (List Text))
      → Opened fresh s requests requires (negotiate_link fresh s request requests requires).0
  unfolding negotiate_link
  negotiate_link_end (ok requested) (ok required) = settle_end requested required _ refl
  negotiate_link_end (err e) required = inl refl
  negotiate_link_end (ok requested) (err e) = inl refl

  abbrev requests_of : Result (List Text)
  requests_of = string_set (get_list (say "capabilities") request.payload)

  abbrev requires_of : Result (List Text)
  requires_of = string_set (get_list (say "required_capabilities") request.payload)

  -- The same, where the hello shares the contract of the server.
  abbrev Met : LinkSession → Type 0
  Met s' =
      (s' ≡ s)
      ⊎ ((shares_contract (get (say "contract_sha256") request.payload) ≡ true)
          × Opened fresh s requests_of requires_of s')

  meet_end : (client : Fields F) → Met (meet fresh s request client).0
  unfolding meet
  meet_end client =
      let either : ((meet fresh s request client).0 ≡ s)
          ⊎ ((shares_contract (get (say "contract_sha256") request.payload) ≡ true)
              × ((meet fresh s request client).0
                  ≡ (negotiate_link fresh s request requests_of requires_of).0)) =
        ground arith in
      elim either [
        | inl same ↦ inl same
        | inr (shared, same) ↦ inr (shared, rw same (negotiate_link_end requests_of requires_of))
      ]

  meet_client_end : (client : Option (Value F)) → Met (meet_client fresh s request client).0
  unfolding meet_client
  meet_client_end (some (object client)) = meet_end client
  meet_client_end none = inl refl
  meet_client_end (some null) = inl refl
  meet_client_end (some foreign) = inl refl
  meet_client_end (some (boolean b)) = inl refl
  meet_client_end (some (whole n)) = inl refl
  meet_client_end (some (number x)) = inl refl
  meet_client_end (some (text t)) = inl refl
  meet_client_end (some (sequence vs)) = inl refl

  link_hello_end : Met (link_hello fresh s request).0
  unfolding link_hello
  link_hello_end =
      let client = get (say "client") request.payload in
      let either : ((link_hello fresh s request).0 ≡ s)
          ⊎ ((link_hello fresh s request).0 ≡ (meet_client fresh s request client).0) =
        ground arith in
      elim either [ inl same ↦ inl same | inr same ↦ rw same (meet_client_end client) ]

unset_none : (o : Option Bytes) → is_some o ≡ false → o ≡ none
unset_none none e = refl
unset_none (some b) e = cc

module _ {F : Type 0} {S : Type 0} (floats : Floats F) (handler : DictHandler F S) where
  link_dispatch_end :
      (s : LinkSession) (request : LinkFrame F) (h : S)
      → ((link_dispatch floats handler s request h).0 ≡ s)
        ⊎ ((link_dispatch floats handler s request h).0 ≡ close_link s)
  unfolding link_dispatch link_event link_decide link_goodbye
  link_dispatch_end s request h = ground arith

  link_opening_end :
      (fresh : Bytes) (s : LinkSession) (request : LinkFrame F) (h : S)
      → let s' = (link_opening floats handler fresh s request h).0 in
        (s' ≡ s) ⊎ ((request.opcode ≡ hello_opcode) × Met fresh s request s')
  unfolding link_opening
  link_opening_end fresh s request h = elim (Bool-cases (request.opcode == 1)) [
    | inl e ↦ rw e (inr (==→eq request.opcode 1 e, link_hello_end fresh s request))
    | inr n ↦ rw n (inl refl)
  ]

  pub link_process_rejected :
      (fresh : Bytes) (s : LinkSession) (request : LinkFrame F) (h : S)
      → takes_sequence s request ≡ false
      → ((link_process floats handler fresh s request h).0 ≡ s)
        × ((link_process floats handler fresh s request h).1 ≡ h)
  unfolding link_process takes_sequence
  link_process_rejected fresh s request h e = (ground arith, ground arith)

  -- A request that takes a sequence number goes to the handshake or to the negotiated session.
  link_process_taken :
      (fresh : Bytes) (s : LinkSession) (request : LinkFrame F) (h : S)
      → takes_sequence s request ≡ true
      → ((is_some s.session_id ≡ false)
          × ((link_process floats handler fresh s request h).0
              ≡ (link_opening floats handler fresh (advance_link s) request h).0))
        ⊎ ((is_some s.session_id ≡ true)
            × (s.closed ≡ false)
            × ((link_process floats handler fresh s request h).0
                ≡ (link_dispatch floats handler (advance_link s) request h).0))
  unfolding link_process takes_sequence
  link_process_taken fresh s request h e = elim (Bool-cases (is_some s.session_id)) [
    | inl set ↦ inr (set, ground arith, ground arith)
    | inr unset ↦ inl (unset, ground arith)
  ]

  open_LinkMove :
      (fresh : Bytes) (s s' : LinkSession) (request : LinkFrame F)
      → takes_sequence s request ≡ true
      → s.session_id ≡ none
      → (s' ≡ advance_link s)
        ⊎ ((request.opcode ≡ hello_opcode) × Met fresh (advance_link s) request s')
      → LinkMove fresh request s s'
  open_LinkMove fresh s s' request takes n (inl e) = rw e (consumed takes)
  open_LinkMove fresh s s' request takes n (inr (o, inl e)) = rw e (consumed takes)
  open_LinkMove fresh s s' request takes n (inr (o, inr (shared, inl e))) = rw e (consumed takes)
  open_LinkMove fresh s s' request takes n
        (inr (o, inr (shared, inr (requested, required, asked, demanded, settled, e)))) =
      rw e (
        opened requested required (agreed requested required) takes n
          (record { hello = o; contract = shared; requests = asked; requires = demanded }) settled)

  -- Whatever the request, the handler and the fresh id, process of the JSON protocol takes the
  -- session along a move of its abstract automaton that the request allows: a request that takes
  -- no sequence number is rejected; one that does may do no more, may close an open session, or
  -- may open one that had no id, and then the request is a hello under the contract, each name
  -- that it lists as required is available, and the session has the fresh id and accepts exactly
  -- the available names that the hello requests or requires.
  pub link_process-LinkMove :
      (fresh : Bytes) (s : LinkSession) (request : LinkFrame F) (h : S)
      → LinkMove fresh request s (link_process floats handler fresh s request h).0
  link_process-LinkMove fresh s request h = elim (Bool-cases (takes_sequence s request)) [
    | inr left ↦ rw (link_process_rejected fresh s request h left).0 (rejected left)
    | inl taken ↦ elim (link_process_taken fresh s request h taken) [
      | inr (set, live, same) ↦ elim (link_dispatch_end (advance_link s) request h) [
        | inl kept ↦ rw (same, kept) (consumed taken)
        | inr closed ↦ rw (same, closed) (ended taken set live)
      ]
      | inl (unset, same) ↦ rw same (
          open_LinkMove fresh s _ request taken (unset_none s.session_id unset)
            (link_opening_end fresh (advance_link s) request h))
    ]
  ]
