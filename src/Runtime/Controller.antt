-- ===== src/Runtime/Controller.antt =====
-- `FluidGatewayController` of fluidgateway/control.py. Its dict of resources is the one of its
-- optimization state.
pub mod Passed
pub mod Planned
pub mod Commands
use fluid_gateway.Common.{
  ℕ, ℤ, Bool, true, false, Option, none, some, List, [], ◌∷◌, ◌++◌, map, if◌then◌else◌,
}
use fluid_gateway.Frame.{is_some}
use fluid_gateway.Wire.Errors.{Text, Result, ok, err, other, raise, say, ◌>>=◌}
use fluid_gateway.Json.{
  Value, Values, Fields, null, whole, number, text, sequence, object, nil, item, end, field,
}
use fluid_gateway.Runtime.Data.{Quantity, Resource, Operation, Decision, same_text, lookup}
use fluid_gateway.Runtime.State.{
  State, Processed, processed, duplicate_id, key_error, process, release_resource, initial, total,
}
use fluid_gateway.Runtime.Parsing.{Python, value_error, parse_resource, parse_operation}

-- `FluidGatewayController`
pub record Controller (F : Type 0) : Type 0 where
  pub optimization : State F
  pub executed_operations : List (Operation F)
  pub decisions : List (Decision F)

-- `ControllerResult`
pub record ControllerResult (F : Type 0) : Type 0 where
  pub operation : Operation F
  pub decision : Option (Decision F)
  pub executed : Bool

-- The arguments of `register_resource` and of `submit_operation`. What they pass on unread as a cost
-- or a size may be any value: the event stream gives them what it finds.
pub record Registration (F : Type 0) : Type 0 where
  pub resource_id : Text
  pub kind : Text
  pub memory : Text
  pub size_mb : Value F
  pub lifetime : Text
  pub aliases : Option (List Text)

pub record Submission (F : Type 0) : Type 0 where
  pub operation_id : Text
  pub operation_type : Text
  pub source : Option Text
  pub target : Option Text
  pub queue : Text
  pub reason : Text
  pub cost_ms : Value F
  pub size_mb : Value F
  pub frame : Option ℤ
  pub depends_on : Option (List Text)

-- `__init__`
abbrev pub new_controller : {F : Type 0} → Controller F
new_controller = record { optimization = initial []; executed_operations = []; decisions = [] }

module _ {F : Type 0} where
  unfoldable pub text_values : List Text → Values F
  text_values [] = nil
  text_values (t ∷ ts) = item (text t) (text_values ts)

  -- `names or []`
  unfoldable pub names_or_none : Option (List Text) → Value F
  names_or_none none = sequence nil
  names_or_none (some names) = sequence (text_values names)

  unfoldable pub text_or_null : Option Text → Value F
  text_or_null none = null
  text_or_null (some t) = text t

  unfoldable pub whole_or_null : Option ℤ → Value F
  whole_or_null none = null
  whole_or_null (some n) = whole n

  -- The dicts that the two methods parse.
  unfoldable pub registration_payload : Registration F → Value F
  registration_payload r = object (
      field (say "id") (text r.resource_id) (
        field (say "kind") (text r.kind) (
          field (say "memory") (text r.memory) (
            field (say "size_mb") r.size_mb (
              field (say "lifetime") (text r.lifetime)
                (field (say "aliases") (names_or_none r.aliases) end))))))

  unfoldable pub submission_payload : Submission F → Value F
  submission_payload o = object (
      field (say "id") (text o.operation_id) (
        field (say "type") (text o.operation_type) (
          field (say "source") (text_or_null o.source) (
            field (say "target") (text_or_null o.target) (
              field (say "queue") (text o.queue) (
                field (say "reason") (text o.reason) (
                  field (say "cost_ms") o.cost_ms (
                    field (say "size_mb") o.size_mb (
                      field (say "frame") (whole_or_null o.frame)
                        (field (say "depends_on") (names_or_none o.depends_on) end))))))))))

  abbrev pub with_resource : Controller F → Resource F → Controller F
  with_resource c r = record c {
    optimization = record c.optimization { resources = c.optimization.resources ++ (r.id, r) ∷ [] };
  }

  -- The end of `register_resource`.
  unfoldable pub add_resource : Controller F → Resource F → Result (Controller F × Resource F)
  add_resource c r =
      if is_some (lookup (same_text r.id) c.optimization.resources)
      then value_error (say "Duplicate resource id: " ++ r.id)
      else ok (with_resource c r, r)

  -- The end of `submit_operation`. A key is never missing, see Runtime/State/Counted.
  unfoldable pub take_result :
      Controller F → Processed F → Result (Controller F × ControllerResult F)
  take_result c (processed s o (some decision)) = ok (
    record c { optimization = s; decisions = c.decisions ++ decision ∷ [] },
    record { operation = o; decision = some decision; executed = false },
  )
  take_result c (processed s o none) = ok (
    record c { optimization = s; executed_operations = c.executed_operations ++ o ∷ [] },
    record { operation = o; decision = none; executed = true },
  )
  take_result c (duplicate_id message) = value_error message
  take_result c key_error = value_error (say "KeyError")

  module _ (q : Quantity F) (python : Python F) where
    -- `register_resource`
    unfoldable pub register_resource :
        Controller F → Registration F → Result (Controller F × Resource F)
    register_resource c r = parse_resource python (registration_payload r) >>= add_resource c

    -- The end of `submit_operation`, after the parse.
    unfoldable pub submit_parsed :
        Controller F → Operation F → Result (Controller F × ControllerResult F)
    submit_parsed c o = take_result c (process q python.lower c.optimization o)

    -- `submit_operation`
    unfoldable pub submit_operation :
        Controller F → Submission F → Result (Controller F × ControllerResult F)
    submit_operation c o = parse_operation python (submission_payload o) >>= submit_parsed c

    -- `release_resource`
    unfoldable pub release : Controller F → Text → Controller F × Option (Resource F)
    release c resource_id =
        let (s, resource) = release_resource q c.optimization resource_id in
        (record c { optimization = s }, resource)

    -- The savings of `snapshot`.
    unfoldable pub saved_ms : (F → F → F) → (F → F) → Controller F → F
    saved_ms add round4 c =
        round4 (total add q.nothing (map (λ d. d.estimated_saved_ms) c.decisions))

    unfoldable pub saved_mb : (F → F → F) → (F → F) → Controller F → F
    saved_mb add round4 c =
        round4 (total add q.nothing (map (λ d. d.estimated_saved_mb) c.decisions))
