-- ===== src/Message/Event/Codec.antt =====
-- `encode_runtime_event_payload` against `decode_runtime_event_payload`, for every kind of event.
use fluid_gateway.Common.{ℕ, ◌≡◌, refl}
use fluid_gateway.Wire.Errors.{Text, Bytes, ok}
use fluid_gateway.Wire.Reader
use fluid_gateway.Wire.Codec.{Encodes-map, Encodes-finish}
use fluid_gateway.Message.Amount.{Amount, Measured, quotient}
use fluid_gateway.Message.Enum.{Encodes-enum, state_actions, state_actions-IsComplete}
use fluid_gateway.Message.Operation.{
  OperationEvent, Measures, measured, encode_operation, read_operation, Encodes-operation,
}
use fluid_gateway.Message.Event.{
  Event, session, frame, resource, operation, state, read_session, read_frame, read_resource,
  event_opcode, encode_event, event_reader, map_reader, decode_event,
}
use fluid_gateway.Message.Event.RoundTrip.{
  Agrees, Time, SameSession, SameResource, map_finish, read_session-encode_session,
  read_frame-encode_frame, read_resource-encode_resource,
}

-- The event that the server should see: the same one, with its times as microseconds over 1000 and its
-- sizes as bytes over 1048576.
abbrev pub SameEvent : Event Amount → Event Measured → Type 0
SameEvent (session s) (session s') = SameSession s s'
SameEvent (frame f) (frame f') =
    Agrees Time f.target f'.target
    × (f' ≡ record { action = f.action; frame = f.frame; target = f'.target })
SameEvent (resource r) (resource r') = SameResource r r'
SameEvent (operation id o) (operation id' o') =
    (cost : ℕ) × (size : ℕ) × (id' ≡ id)
    × Measures o cost size
    × (o' ≡ measured o (quotient cost 1000) (quotient size 1048576))
SameEvent (state a) (state a') = a' ≡ a
SameEvent _ _ = ⊥

operation_back :
    (id : Text) (o : OperationEvent Amount) (id' : Text) (o' : OperationEvent Measured) (bs : Bytes)
    → SameEvent (operation id o) (operation id' o')
    → encode_operation id o ≡ ok bs
    → Reader.finish (map_reader (λ (id, o). operation id o) read_operation) bs
      ≡ ok (operation id' o')
unfolding encode_operation
operation_back id o id' o' bs (cost, size, e, m, same) h =
    rw (e, same)
      (map_finish (λ (id, o). operation id o) read_operation bs
        (Encodes-finish bs (Encodes-operation id o cost size m) h))

-- Whatever runtime event a client encodes, the server decodes the same event under the opcode of
-- the event, each time as the number of microseconds on the wire over 1000 and each size as the
-- number of bytes on the wire over 1048576, where the client gave a number that scales to them.
pub decode_event-encode_event :
    (e : Event Amount) (e' : Event Measured) (bs : Bytes)
    → SameEvent e e'
    → encode_event e ≡ ok bs
    → decode_event (event_opcode e) bs ≡ ok e'
unfolding encode_event decode_event event_reader
decode_event-encode_event (session s) (session s') bs same h =
    map_finish session read_session bs (read_session-encode_session s s' bs same h)
decode_event-encode_event (session s) (frame f') bs same h = absurd same
decode_event-encode_event (session s) (resource r') bs same h = absurd same
decode_event-encode_event (session s) (operation id' o') bs same h = absurd same
decode_event-encode_event (session s) (state a') bs same h = absurd same
decode_event-encode_event (frame f) (session s') bs same h = absurd same
decode_event-encode_event (frame f) (frame f') bs same h =
    map_finish frame read_frame bs (rw same.1 (read_frame-encode_frame f f'.target bs same.0 h))
decode_event-encode_event (frame f) (resource r') bs same h = absurd same
decode_event-encode_event (frame f) (operation id' o') bs same h = absurd same
decode_event-encode_event (frame f) (state a') bs same h = absurd same
decode_event-encode_event (resource r) (session s') bs same h = absurd same
decode_event-encode_event (resource r) (frame f') bs same h = absurd same
decode_event-encode_event (resource r) (resource r') bs same h =
    map_finish resource read_resource bs (read_resource-encode_resource r r' bs same h)
decode_event-encode_event (resource r) (operation id' o') bs same h = absurd same
decode_event-encode_event (resource r) (state a') bs same h = absurd same
decode_event-encode_event (operation id o) (session s') bs same h = absurd same
decode_event-encode_event (operation id o) (frame f') bs same h = absurd same
decode_event-encode_event (operation id o) (resource r') bs same h = absurd same
decode_event-encode_event (operation id o) (operation id' o') bs same h =
    operation_back id o id' o' bs same h
decode_event-encode_event (operation id o) (state a') bs same h = absurd same
decode_event-encode_event (state a) (session s') bs same h = absurd same
decode_event-encode_event (state a) (frame f') bs same h = absurd same
decode_event-encode_event (state a) (resource r') bs same h = absurd same
decode_event-encode_event (state a) (operation id' o') bs same h = absurd same
decode_event-encode_event (state a) (state a') bs same h = rw same (
    Encodes-finish bs
      (Encodes-map _ (Encodes-enum state_actions a state_actions-IsComplete) (λ rest. refl)) h)
