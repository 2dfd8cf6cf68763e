-- ===== src/Session/Automaton.antt =====
-- An abstract automaton of a FluidLink v2 session, apart from messages: what a request may do to
-- `FluidLinkV2ServerSession` of fluidgateway/fluidlink_v2.py.
use Prim.Native.Nat.{bit_and, bit_or}
use fluid_gateway.Common.{ℕ, ◌≡◌, ◌⊎◌, true, false, none, ◌==◌}
use fluid_gateway.Wire.Errors.{Bytes, ok}
use fluid_gateway.Frame.{Frame, is_some}
use fluid_gateway.Message.Capability.{
  and_not, capabilities, supported_capabilities, batched_runtime_events,
}
use fluid_gateway.Message.Hello.{Hello, decode_hello}
use fluid_gateway.Session.State.{Session, advance, close, negotiate, hello_opcode}
use fluid_gateway.Session.Handshake.{contract_digest, batch_contract_digest}
use fluid_gateway.Session.Process.{is_consumed}

-- The capabilities that go with a contract.
abbrev pub Grants : Bytes → ℕ → Type 0
Grants digest available =
    ((digest ≡ contract_digest) × (available ≡ capabilities))
    ⊎ ((digest ≡ batch_contract_digest) × (available ≡ supported_capabilities))

-- A hello under one of the two contracts; the batch contract asks for its own capability.
abbrev pub Offers : Hello → ℕ → Type 0
Offers hello available =
    ((hello.contract_digest ≡ contract_digest) × (available ≡ capabilities))
    ⊎ ((hello.contract_digest ≡ batch_contract_digest)
        × (available ≡ supported_capabilities)
        × ((bit_and hello.required_capabilities batched_runtime_events == 0) ≡ false))

-- A request that takes no sequence number is rejected. One that does may do no more, may end an open
-- session, or may open one that has no id: then it is a hello whose contract grants all that the
-- hello requires, and the session has the fresh id, that contract, and what is both asked for and
-- granted.
pub data Move (fresh : Bytes) (request : Frame) (s : Session) : Session → Type 0 where
  rejected : is_consumed s request ≡ false → Move fresh request s s
  consumed : is_consumed s request ≡ true → Move fresh request s (advance s)
  ended :
      is_consumed s request ≡ true
      → is_some s.session_id ≡ true
      → s.closed ≡ false
      → Move fresh request s (close (advance s))
  opened :
      (hello : Hello) (available : ℕ)
      → is_consumed s request ≡ true
      → s.session_id ≡ none
      → request.opcode ≡ hello_opcode
      → decode_hello request.payload ≡ ok hello
      → Offers hello available
      → and_not hello.required_capabilities available ≡ 0
      → Move fresh request s (
          negotiate fresh hello.contract_digest
            (bit_and (bit_or hello.requested_capabilities hello.required_capabilities) available)
            (advance s))
