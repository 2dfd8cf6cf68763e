-- ===== src/Examples/Streams.antt =====
-- A stream of a comment, a texture, an empty line and a copy of the texture to itself.
use fluid_gateway.Common.{ℕ, pos, ◌≡◌, refl, false, some, List, [], ◌∷◌, if◌then◌else◌}
use fluid_gateway.Wire.Errors.{Text, Result, ok, say}
use fluid_gateway.Json.{Value, whole, text, object, end, field}
use fluid_gateway.Runtime.Data.{same_text}
use fluid_gateway.Runtime.Parsing.{value_error}
use fluid_gateway.Runtime.Controller.{ControllerResult, new_controller}
use fluid_gateway.Runtime.Events.{EventReplay, replay_event_stream}
use fluid_gateway.Runtime.Events.Replayed.{IsReplayed, replay_event_stream-IsReplayed}
use fluid_gateway.Examples.Plans.{whole_numbers, self_copy, self_copy_removed}
use fluid_gateway.Examples.Manifests.{shop}
use fluid_gateway.Examples.Controllers.{naturals}

abbrev resource_event : Value ℕ
resource_event = object (
    field (say "event") (text (say "resource")) (
      field (say "resource_id") (text (say "t")) (
        field (say "kind") (text (say "texture")) (
          field (say "memory") (text (say "vram")) (
            field (say "size_mb") (whole (pos 8))
              (field (say "lifetime") (text (say "asset")) end))))))

abbrev operation_event : Value ℕ
operation_event = object (
    field (say "type") (text (say "operation")) (
      field (say "id") (text (say "op")) (
        field (say "op") (text (say "copy")) (
          field (say "source") (text (say "t")) (
            field (say "target") (text (say "t")) (
              field (say "queue") (text (say "copy")) (
                field (say "cost_ms") (whole (pos 2))
                  (field (say "size_mb") (whole (pos 8)) end))))))))

abbrev loads : Text → Result (Value ℕ)
loads t =
    if same_text t (say "r")
    then ok resource_event
    else if same_text t (say "o")
    then ok operation_event
    else value_error (say "Expecting value")

abbrev stream : List Text
stream = say "# scene" ∷ say "r" ∷ say " " ∷ say "o" ∷ []

abbrev copy_result : ControllerResult ℕ
copy_result = record { operation = self_copy; decision = some self_copy_removed; executed = false }

abbrev replayed : EventReplay ℕ
replayed = record {
  events_processed = 2;
  resource_events = 1;
  operation_events = 1;
  results = (some 4, copy_result) ∷ [];
  controller = record {
    optimization = record new_controller.optimization {
      resources = shop;
      replacements = (say "op", []) ∷ [];
      operation_ids = say "op" ∷ [];
      removed_ids = say "op" ∷ [];
    };
    executed_operations = [];
    decisions = self_copy_removed ∷ [];
  };
}

stream-replayed : replay_event_stream whole_numbers naturals loads stream ≡ ok replayed
unfolding replay_event_stream fluid_gateway.Runtime.Events.replay_lines
    fluid_gateway.Runtime.Events.read_event fluid_gateway.Runtime.Events.is_skipped
    fluid_gateway.Wire.Texts.strip say fluid_gateway.Wire.Texts.is_space
    fluid_gateway.Runtime.Events.replay_event fluid_gateway.Runtime.Events.decoded_event
    fluid_gateway.Runtime.Events.as_event fluid_gateway.Runtime.Events.process_event_payload
    fluid_gateway.Runtime.Events.event_type fluid_gateway.Runtime.Parsing.choice_text
    fluid_gateway.Runtime.Parsing.text_or fluid_gateway.Runtime.Events.either fluid_gateway.Json.get
    fluid_gateway.Runtime.Parsing.is_truthy fluid_gateway.Runtime.Events.register_resource_event
    fluid_gateway.Runtime.Events.needed fluid_gateway.Runtime.Events.registration_of
    fluid_gateway.Runtime.Parsing.text_items fluid_gateway.Runtime.Controller.register_resource
    fluid_gateway.Runtime.Parsing.parse_resource
    fluid_gateway.Runtime.Controller.registration_payload fluid_gateway.Runtime.Parsing.required_id
    fluid_gateway.Runtime.Parsing.id_or fluid_gateway.Runtime.Parsing.resource_of
    fluid_gateway.Runtime.Controller.names_or_none fluid_gateway.Runtime.Controller.text_values
    fluid_gateway.Runtime.Parsing.nonnegative_number fluid_gateway.Runtime.Events.value_or_null
    fluid_gateway.Runtime.Parsing.float_of fluid_gateway.Runtime.Parsing.is_boolean
    fluid_gateway.Runtime.Controller.add_resource fluid_gateway.Runtime.Data.lookup
    fluid_gateway.Runtime.State.initial fluid_gateway.Runtime.Events.submit_operation_event
    fluid_gateway.Runtime.Events.submission_of fluid_gateway.Runtime.Parsing.frame_of_value
    fluid_gateway.Runtime.Controller.submit_operation fluid_gateway.Runtime.Parsing.parse_operation
    fluid_gateway.Runtime.Controller.submission_payload fluid_gateway.Runtime.Parsing.operation_of
    fluid_gateway.Runtime.Controller.whole_or_null fluid_gateway.Runtime.Controller.submit_parsed
    fluid_gateway.Runtime.Controller.take_result fluid_gateway.Runtime.State.process
    fluid_gateway.Runtime.Events.note_response fluid_gateway.Runtime.State.conclude
    fluid_gateway.Runtime.Decide.decide_operation fluid_gateway.Runtime.Decide.decide_as
    fluid_gateway.Runtime.Parsing.operation_type fluid_gateway.Runtime.Parsing.operation_types
    fluid_gateway.Runtime.Decide.decide_transfer fluid_gateway.Runtime.Decide.find_resource
    fluid_gateway.Runtime.Parsing.optional_text fluid_gateway.Runtime.Controller.text_or_null
    fluid_gateway.Runtime.Parsing.nonempty fluid_gateway.Runtime.State.retained_by
    fluid_gateway.Runtime.State.with_dependencies fluid_gateway.Runtime.State.apply_decision
    fluid_gateway.Runtime.State.dependencies_of fluid_gateway.Runtime.State.add_id
    fluid_gateway.Runtime.State.store fluid_gateway.Runtime.State.add_if_empty
    fluid_gateway.Runtime.State.unique fluid_gateway.Runtime.Parsing.normalized_choice
    fluid_gateway.Runtime.State.replacements_of fluid_gateway.Runtime.State.replaced
    fluid_gateway.Runtime.Parsing.resource_types fluid_gateway.Runtime.Parsing.memory_layers
stream-replayed = refl

replay_event_stream-IsReplayed_example : IsReplayed whole_numbers naturals replayed
replay_event_stream-IsReplayed_example =
    replay_event_stream-IsReplayed whole_numbers naturals loads stream replayed stream-replayed
