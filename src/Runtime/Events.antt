-- ===== src/Runtime/Events.antt =====
-- The event stream of fluidgateway/events.py on top of the controller. The lines of the file are an
-- argument, and `loads` stands for json.loads: its error has the message of the JSONDecodeError.
pub mod Calls
pub mod Replayed
use fluid_gateway.Common.{
  ℕ, ℤ, ◌+◌, Bool, true, false, not, Option, none, some, List, [], ◌∷◌, ◌++◌, ◌==◌, if◌then◌else◌,
}
use fluid_gateway.Wire.Errors.{Text, Result, ok, err, say, show, ◌>>=◌}
use fluid_gateway.Wire.Texts.{strip}
use fluid_gateway.Json.{
  Value, Fields, null, foreign, boolean, whole, number, text, sequence, object, get,
}
use fluid_gateway.Runtime.Data.{Quantity, Resource, same_text}
use fluid_gateway.Runtime.Parsing.{
  Python, value_error, is_truthy, text_or, choice_text, optional_text, text_items, frame_of_value,
}
use fluid_gateway.Runtime.Controller.{
  Controller, ControllerResult, Registration, Submission, new_controller, register_resource,
  submit_operation,
}

-- The response of `process_event_payload`, with its event index.
pub data Response (F : Type 0) : Type 0 where
  resource_response : Option ℕ → Resource F → Response F
  operation_response : Option ℕ → ControllerResult F → Response F

-- `EventReplayResult`, with the controller in place of its snapshot
pub record EventReplay (F : Type 0) : Type 0 where
  pub events_processed : ℕ
  pub resource_events : ℕ
  pub operation_events : ℕ
  pub results : List (Option ℕ × ControllerResult F)
  pub controller : Controller F

abbrev text_or_missing : Text → Text
text_or_missing [] = say "missing"
text_or_missing (c ∷ cs) = c ∷ cs

-- `not text or text.startswith("#")`
unfoldable pub is_skipped : Text → Bool
is_skipped [] = true
is_skipped (c ∷ cs) = c == 35

module _ {F : Type 0} where
  -- The counting of `replay_event_stream`.
  unfoldable pub note_response : EventReplay F → Controller F → Response F → EventReplay F
  note_response r c (resource_response index resource) = record r {
    events_processed = r.events_processed + 1;
    resource_events = r.resource_events + 1;
    controller = c;
  }
  note_response r c (operation_response index result) = record r {
    events_processed = r.events_processed + 1;
    operation_events = r.operation_events + 1;
    results = r.results ++ (index, result) ∷ [];
    controller = c;
  }

  unfoldable pub value_or_null : Option (Value F) → Value F
  value_or_null none = null
  value_or_null (some value) = value

  unfoldable pub as_event : ℕ → Value F → Result (Option (Fields F))
  as_event index (object payload) = ok (some payload)
  as_event index _ =
      value_error (say "JSONL event on line " ++ (show index ++ say " must be an object."))

  unfoldable pub decoded_event : ℕ → Result (Value F) → Result (Option (Fields F))
  decoded_event index (ok value) = as_event index value
  decoded_event index (err e) =
      value_error (say "Invalid JSON on line " ++ (show index ++ (say ": " ++ e.message)))

  -- One round of `iter_jsonl`, with no event for a line that is skipped
  unfoldable pub read_event : (Text → Result (Value F)) → ℕ → Text → Result (Option (Fields F))
  read_event loads index line =
      let t = strip line in if is_skipped t then ok none else decoded_event index (loads t)

  abbrev pub new_replay : EventReplay F
  new_replay = record {
    events_processed = 0;
    resource_events = 0;
    operation_events = 0;
    results = [];
    controller = new_controller;
  }

  module _ (python : Python F) where
    -- `first or second`
    unfoldable pub either : Option (Value F) → Option (Value F) → Option (Value F)
    either none second = second
    either (some value) second = if is_truthy python value then some value else second

    -- A value that must be there and be true.
    unfoldable pub needed : Option (Value F) → Text → Result (Value F)
    needed none message = value_error message
    needed (some value) message = if is_truthy python value then ok value else value_error message

    unfoldable pub registration_of : Value F → Fields F → Result (Registration F)
    registration_of resource_id payload = do
      aliases ← text_items python (get (say "aliases") payload) (say "Expected a list value.")
      ok (record {
        resource_id = python.to_text resource_id;
        kind = text_or python (say "unknown") (get (say "kind") payload);
        memory = text_or python (say "ram") (get (say "memory") payload);
        size_mb = value_or_null (get (say "size_mb") payload);
        lifetime = text_or python (say "unknown") (get (say "lifetime") payload);
        aliases = some aliases;
      })

    abbrev missing_type : Value F → Text
    missing_type operation_id =
        say "Operation event "
        ++ (python.to_text operation_id ++ say " requires an operation type.")

    unfoldable pub submission_of : Value F → Value F → Fields F → Result (Submission F)
    submission_of operation_id operation_type payload = do
      frame ← frame_of_value python (get (say "frame") payload)
      depends_on ← text_items python (get (say "depends_on") payload) (say "Expected a list value.")
      ok (record {
        operation_id = python.to_text operation_id;
        operation_type = python.to_text operation_type;
        source = optional_text python (get (say "source") payload);
        target = optional_text python (get (say "target") payload);
        queue = text_or python (say "unknown") (get (say "queue") payload);
        reason = text_or python [] (get (say "reason") payload);
        cost_ms = value_or_null (get (say "cost_ms") payload);
        size_mb = value_or_null (get (say "size_mb") payload);
        frame = frame;
        depends_on = some depends_on;
      })

    unfoldable pub event_type : Fields F → Text
    event_type payload =
        choice_text python [] (either (get (say "event") payload) (get (say "type") payload))

  module _ (q : Quantity F) (python : Python F) where
    -- `register_resource_event`
    unfoldable pub register_resource_event :
        Controller F → Fields F → Result (Controller F × Resource F)
    register_resource_event c payload = do
      resource_id ←
          needed python (either python (get (say "id") payload) (get (say "resource_id") payload))
            (say "Resource event requires 'id' or 'resource_id'.")
      registration ← registration_of python resource_id payload
      register_resource q python c registration

    -- `submit_operation_event`
    unfoldable pub submit_operation_event :
        Controller F → Fields F → Result (Controller F × ControllerResult F)
    submit_operation_event c payload = do
      operation_id ←
          needed python (either python (get (say "id") payload) (get (say "operation_id") payload))
            (say "Operation event requires 'id' or 'operation_id'.")
      operation_type ←
          needed python
            (either python (get (say "operation_type") payload)
              (either python (get (say "op") payload) (get (say "kind") payload)))
            (missing_type python operation_id)
      submission ← submission_of python operation_id operation_type payload
      submit_operation q python c submission

    -- `process_event_payload`
    unfoldable pub process_event_payload :
        Controller F → Fields F → Option ℕ → Result (Controller F × Response F)
    process_event_payload c payload event_index =
        if same_text (event_type python payload) (say "resource")
        then register_resource_event c payload
          >>= (λ (c', resource). ok (c', resource_response event_index resource))
        else if same_text (event_type python payload) (say "operation")
        then submit_operation_event c payload
          >>= (λ (c', result). ok (c', operation_response event_index result))
        else value_error
            (say "Unsupported event type: " ++ text_or_missing (event_type python payload))

    unfoldable pub replay_event : ℕ → Option (Fields F) → EventReplay F → Result (EventReplay F)
    replay_event index none r = ok r
    replay_event index (some payload) r =
        process_event_payload r.controller payload (some index) >>= λ (c, response).
        ok (note_response r c response)

    unfoldable pub replay_lines :
        (Text → Result (Value F)) → ℕ → List Text → EventReplay F → Result (EventReplay F)
    replay_lines loads index [] r = ok r
    replay_lines loads index (line ∷ lines) r = do
      event ← read_event loads index line
      next ← replay_event index event r
      replay_lines loads (index + 1) lines next

    -- `replay_event_stream`
    unfoldable pub replay_event_stream :
        (Text → Result (Value F)) → List Text → Result (EventReplay F)
    replay_event_stream loads lines = replay_lines loads 1 lines new_replay
