-- ===== src/Examples/Controllers.antt =====
-- A manifest file of one texture, and a controller that registers it, copies it and releases it.
use fluid_gateway.Common.{
  ℕ, ℤ, ◌+◌, pos, ◌≡◌, refl, true, false, Option, none, some, List, [], ◌∷◌, ◌==◌,
}
use fluid_gateway.Wire.Errors.{Text, Result, ok, say}
use fluid_gateway.Json.{
  Value, Values, Fields, null, foreign, boolean, whole, number, text, sequence, object, nil, item,
  end, field,
}
use fluid_gateway.Runtime.Data.{Resource, Operation}
use fluid_gateway.Runtime.State.{Manifest, optimize_manifest}
use fluid_gateway.Runtime.Parsing.{Python, value_error, load_manifest}
use fluid_gateway.Runtime.Parsing.Keyed.{IsLoaded, load_manifest-IsLoaded}
use fluid_gateway.Runtime.Controller.{Controller, Registration, Submission, new_controller}
use fluid_gateway.Wire.Texts.{strip}
use fluid_gateway.Runtime.Controller.Passed.{Reads, IsPlainResource, IsPlainOperation}
use fluid_gateway.Runtime.Controller.Planned.{plan_from, carry_out, plan_from-carry_out}
use fluid_gateway.Runtime.Controller.Commands.{
  Command, registers, submits, releases, perform_all, IsConsistent, perform_all-IsConsistent,
}
use fluid_gateway.Examples.Plans.{whole_numbers, texture, self_copy}
use fluid_gateway.Examples.Manifests.{shop}

abbrev text_of : Value ℕ → Text
text_of (text t) = t
text_of _ = []

abbrev int_of : Value ℕ → Result ℤ
int_of (whole n) = ok n
int_of _ = value_error []

abbrev amount_of : Value ℕ → Option ℕ
amount_of (number x) = some x
amount_of (whole (pos n)) = some n
amount_of _ = none

abbrev pub naturals : Python ℕ
naturals = record {
  to_text = text_of;
  lower = λ t. t;
  to_int = int_of;
  to_float = amount_of;
  is_zero = λ n. n == 0;
  foreign_is_true = true;
  is_finite = λ n. true;
  is_negative = λ n. false;
  zero = 0;
}

abbrev texture_entry : Value ℕ
texture_entry = object (
    field (say "id") (text (say "t")) (
      field (say "kind") (text (say "texture")) (
        field (say "memory") (text (say "vram")) (
          field (say "size_mb") (whole (pos 8))
            (field (say "lifetime") (text (say "asset")) end)))))

abbrev copy_entry : Value ℕ
copy_entry = object (
    field (say "id") (text (say "op")) (
      field (say "type") (text (say "copy")) (
        field (say "source") (text (say "t")) (
          field (say "target") (text (say "t")) (
            field (say "queue") (text (say "copy")) (
              field (say "cost_ms") (whole (pos 2))
                (field (say "size_mb") (whole (pos 8)) end)))))))

abbrev file : Value ℕ
file = object (
    field (say "resources") (sequence (item texture_entry nil))
      (field (say "operations") (sequence (item copy_entry nil)) end))

abbrev loaded : Manifest ℕ
loaded = record { name = say "m"; resources = shop; operations = self_copy ∷ [] }

example_loads : load_manifest naturals (say "m") file ≡ ok loaded
unfolding load_manifest fluid_gateway.Runtime.Parsing.list_field fluid_gateway.Json.get say
    fluid_gateway.Runtime.Parsing.parse_resources fluid_gateway.Runtime.Parsing.parse_resource
    fluid_gateway.Runtime.Parsing.required_id fluid_gateway.Runtime.Parsing.id_or
    fluid_gateway.Wire.Texts.strip fluid_gateway.Runtime.Parsing.text_or
    fluid_gateway.Runtime.Parsing.is_truthy fluid_gateway.Wire.Texts.is_space
    fluid_gateway.Runtime.Parsing.resource_of fluid_gateway.Runtime.Parsing.text_items
    fluid_gateway.Runtime.Parsing.nonnegative_number fluid_gateway.Runtime.Parsing.float_of
    fluid_gateway.Runtime.Parsing.is_boolean fluid_gateway.Runtime.Data.lookup
    fluid_gateway.Runtime.Parsing.parse_operations fluid_gateway.Runtime.Parsing.parse_operation
    fluid_gateway.Runtime.Parsing.operation_of fluid_gateway.Runtime.Parsing.frame_of_value
    fluid_gateway.Runtime.Parsing.normalized_choice fluid_gateway.Runtime.Parsing.operation_type
    fluid_gateway.Runtime.Parsing.optional_text fluid_gateway.Runtime.Parsing.resource_types
    fluid_gateway.Runtime.Parsing.memory_layers fluid_gateway.Runtime.Parsing.operation_types
    fluid_gateway.Runtime.Parsing.nonempty fluid_gateway.Runtime.Parsing.choice_text
example_loads = refl

load_manifest-IsLoaded_example : IsLoaded naturals loaded
load_manifest-IsLoaded_example = load_manifest-IsLoaded naturals (say "m") file loaded example_loads

naturals-Reads : Reads naturals
naturals-Reads = record {
  texts = λ t. refl;
  floats = λ x. refl;
  wholes = λ n. refl;
  kinds = λ t known. refl;
  memories = λ t known. refl;
  types = λ type. refl;
}

texture-IsPlainResource : IsPlainResource naturals texture
unfolding say strip fluid_gateway.Wire.Texts.is_space fluid_gateway.Runtime.Parsing.resource_types
    fluid_gateway.Runtime.Parsing.memory_layers
texture-IsPlainResource = record {
  id = ((λ e. cc), refl);
  kind = ((λ e. cc), refl);
  known_kind = refl;
  memory = ((λ e. cc), refl);
  known_memory = refl;
  size_mb = (refl, refl);
  lifetime = λ e. cc;
}

self_copy-IsPlainOperation : IsPlainOperation naturals self_copy
unfolding say strip fluid_gateway.Wire.Texts.is_space
self_copy-IsPlainOperation = record {
  id = ((λ e. cc), refl);
  source = ((λ e. cc), refl);
  target = ((λ e. cc), refl);
  queue = λ e. cc;
  cost_ms = (refl, refl);
  size_mb = (refl, refl);
}

plan_from-carry_out_example :
    plan_from whole_numbers naturals ◌+◌ (λ n. n) loaded (carry_out whole_numbers naturals loaded)
    ≡ optimize_manifest whole_numbers (λ t. t) ◌+◌ (λ n. n) loaded
unfolding fluid_gateway.Runtime.Data.lookup
plan_from-carry_out_example =
    plan_from-carry_out whole_numbers naturals ◌+◌ (λ n. n) loaded naturals-Reads
      (record {
        resources = ((refl, texture-IsPlainResource), tt);
        distinct = refl;
        operations = (self_copy-IsPlainOperation, tt);
      })

abbrev registration : Registration ℕ
registration = record {
  resource_id = say "t";
  kind = say "texture";
  memory = say "vram";
  size_mb = number 8;
  lifetime = say "asset";
  aliases = none;
}

abbrev submission : Submission ℕ
submission = record {
  operation_id = say "op";
  operation_type = say "copy";
  source = some (say "t");
  target = some (say "t");
  queue = say "copy";
  reason = [];
  cost_ms = whole (pos 2);
  size_mb = number 8;
  frame = none;
  depends_on = none;
}

abbrev usage : List (Command whole_numbers naturals)
usage =
    registers registration
    ∷ submits submission
    ∷ registers registration
    ∷ releases (say "t")
    ∷ registers registration
    ∷ []

-- The second registration of the texture is refused, the one after the release is not.
registered : (perform_all whole_numbers naturals usage new_controller).optimization.resources ≡ shop
unfolding perform_all fluid_gateway.Runtime.Controller.Commands.perform
    fluid_gateway.Runtime.Controller.register_resource fluid_gateway.Runtime.Parsing.parse_resource
    fluid_gateway.Runtime.Controller.registration_payload fluid_gateway.Runtime.Parsing.required_id
    fluid_gateway.Runtime.Parsing.id_or fluid_gateway.Wire.Texts.strip
    fluid_gateway.Runtime.Parsing.text_or fluid_gateway.Json.get say
    fluid_gateway.Runtime.Parsing.is_truthy fluid_gateway.Wire.Texts.is_space
    fluid_gateway.Runtime.Parsing.resource_of fluid_gateway.Runtime.Parsing.text_items
    fluid_gateway.Runtime.Controller.names_or_none fluid_gateway.Runtime.Parsing.nonnegative_number
    fluid_gateway.Runtime.Parsing.float_of fluid_gateway.Runtime.Parsing.is_boolean
    fluid_gateway.Runtime.Controller.add_resource fluid_gateway.Runtime.Data.lookup
    fluid_gateway.Runtime.Controller.submit_operation fluid_gateway.Runtime.Parsing.parse_operation
    fluid_gateway.Runtime.Controller.submission_payload fluid_gateway.Runtime.Parsing.operation_of
    fluid_gateway.Runtime.Parsing.frame_of_value fluid_gateway.Runtime.Controller.whole_or_null
    fluid_gateway.Runtime.Controller.submit_parsed fluid_gateway.Runtime.Controller.take_result
    fluid_gateway.Runtime.State.process fluid_gateway.Runtime.State.initial
    fluid_gateway.Runtime.State.conclude fluid_gateway.Runtime.Decide.decide_operation
    fluid_gateway.Runtime.Decide.decide_as fluid_gateway.Runtime.Parsing.operation_type
    fluid_gateway.Runtime.Parsing.operation_types fluid_gateway.Runtime.Parsing.choice_text
    fluid_gateway.Runtime.Decide.decide_transfer fluid_gateway.Runtime.Decide.find_resource
    fluid_gateway.Runtime.Parsing.optional_text fluid_gateway.Runtime.Controller.text_or_null
    fluid_gateway.Runtime.Parsing.nonempty fluid_gateway.Runtime.State.retained_by
    fluid_gateway.Runtime.State.apply_decision fluid_gateway.Runtime.State.add_id
    fluid_gateway.Runtime.Parsing.normalized_choice fluid_gateway.Runtime.Parsing.resource_types
    fluid_gateway.Runtime.Parsing.memory_layers fluid_gateway.Runtime.Controller.release
    fluid_gateway.Runtime.State.release_resource fluid_gateway.Runtime.State.discard
registered = refl

released :
    (perform_all whole_numbers naturals
      (registers registration ∷ releases (say "t") ∷ [])
      new_controller).optimization.resources
    ≡ []
unfolding perform_all fluid_gateway.Runtime.Controller.Commands.perform
    fluid_gateway.Runtime.Controller.release fluid_gateway.Runtime.State.release_resource
    fluid_gateway.Runtime.State.discard fluid_gateway.Runtime.State.initial say
    fluid_gateway.Runtime.Controller.register_resource fluid_gateway.Runtime.Parsing.parse_resource
    fluid_gateway.Runtime.Controller.registration_payload fluid_gateway.Runtime.Parsing.required_id
    fluid_gateway.Runtime.Parsing.id_or fluid_gateway.Wire.Texts.strip
    fluid_gateway.Runtime.Parsing.text_or fluid_gateway.Json.get
    fluid_gateway.Runtime.Parsing.is_truthy fluid_gateway.Wire.Texts.is_space
    fluid_gateway.Runtime.Parsing.resource_of fluid_gateway.Runtime.Parsing.text_items
    fluid_gateway.Runtime.Controller.names_or_none fluid_gateway.Runtime.Parsing.nonnegative_number
    fluid_gateway.Runtime.Parsing.float_of fluid_gateway.Runtime.Parsing.is_boolean
    fluid_gateway.Runtime.Controller.add_resource fluid_gateway.Runtime.Data.lookup
released = refl

perform_all-IsConsistent_example :
    IsConsistent whole_numbers naturals
      (perform_all whole_numbers naturals usage new_controller).optimization
perform_all-IsConsistent_example = perform_all-IsConsistent whole_numbers naturals usage
