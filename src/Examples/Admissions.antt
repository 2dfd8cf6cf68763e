-- ===== src/Examples/Admissions.antt =====
-- The results of a copy that is staged before a draw and of an operation that no gate was asked about,
-- and a text, which is no result.
use fluid_gateway.Common.{ℕ, ◌+◌, ◌≡◌, refl, Bool, true, false, none, [], ◌∷◌}
use fluid_gateway.Wire.Errors.{ok, say}
use fluid_gateway.Json.{Value, Values, whole, number, text, sequence, object, nil, item, end, field}
use fluid_gateway.Planner.Admission.{
  AdmissionAction, Contribution, AdmissionDecision, AdmissionPlan, build_admission_plan,
}
use fluid_gateway.Planner.Admission.Balanced.{IsBalanced, build_admission_plan-IsBalanced}
use fluid_gateway.Examples.Controllers.{naturals}

abbrev never : Value ℕ → Bool
never value = false

abbrev staged_result : Value ℕ
staged_result = object (
    field (say "operation")
      (object (
        field (say "id") (text (say "op")) (
          field (say "type") (text (say "copy"))
            (field (say "cost_ms") (number 2) (field (say "size_mb") (number 8) end)))))
      (field (say "execution_gate")
        (object (field (say "action") (text (say "prestage_before_draw")) end)) end))

abbrev plain_result : Value ℕ
plain_result = object (
    field (say "operation")
      (object (field (say "id") (text (say "draw")) (field (say "cost_ms") (number 3) end))) end)

abbrev results : Values ℕ
results = item staged_result (item (text (say "note")) (item plain_result nil))

abbrev staged : AdmissionDecision ℕ
staged = record {
  action = AdmissionAction.admit_prefetch;
  operation_id = say "op";
  frame = none;
  queue = say "unknown";
  resource_id = Value.null;
  phase = say "prefetch";
  admitted = true;
  contribution = Contribution.prestaged;
  cost_ms = 2;
  size_mb = 8;
  reason = say "Admit operation into the prefetch phase before draw-critical work.";
}

abbrev plain : AdmissionDecision ℕ
plain = record {
  action = AdmissionAction.admit_now;
  operation_id = say "draw";
  frame = none;
  queue = say "unknown";
  resource_id = Value.null;
  phase = say "current-frame";
  admitted = true;
  contribution = Contribution.hot_path;
  cost_ms = 3;
  size_mb = 0;
  reason = say "Admit operation into the current executable frame path.";
}

abbrev admissions : AdmissionPlan ℕ
admissions = record {
  operation_count = 2;
  immediate_count = 1;
  prefetch_count = 1;
  deferred_count = 0;
  reused_count = 0;
  held_count = 0;
  estimated_hot_path_cost_ms = 3;
  estimated_prestaged_cost_ms = 2;
  estimated_prestaged_transfer_mb = 8;
  estimated_avoided_cost_ms = 0;
  estimated_avoided_transfer_mb = 0;
  estimated_held_cost_ms = 0;
  estimated_held_transfer_mb = 0;
  slots = staged ∷ plain ∷ [];
}

plan-built : build_admission_plan naturals never ◌+◌ results ≡ ok admissions
unfolding build_admission_plan fluid_gateway.Planner.Admission.slots_of
    fluid_gateway.Planner.Admission.operation_result fluid_gateway.Runtime.Parsing.is_truthy
    fluid_gateway.Runtime.Events.value_or_null fluid_gateway.Json.get say
    fluid_gateway.Planner.Admission.build_admission_decision
    fluid_gateway.Planner.Admission.dict_or_empty fluid_gateway.Planner.Admission.as_dict
    fluid_gateway.Planner.Admission.number_of fluid_gateway.Planner.Admission.float_or_zero
    fluid_gateway.Runtime.Parsing.frame_of_value fluid_gateway.Planner.Admission.count
    fluid_gateway.Planner.Admission.sum_cost fluid_gateway.Planner.Admission.sum_size
    fluid_gateway.Planner.Admission.decide_admission fluid_gateway.Planner.Admission.same_action
    fluid_gateway.Runtime.Parsing.text_or fluid_gateway.Runtime.State.total
    fluid_gateway.Runtime.Events.either fluid_gateway.Planner.Admission.transfer_size
    fluid_gateway.Planner.Admission.contributing fluid_gateway.Planner.Admission.same_contribution
plan-built = refl

build_admission_plan-IsBalanced_example : IsBalanced naturals never admissions
build_admission_plan-IsBalanced_example =
    build_admission_plan-IsBalanced naturals never ◌+◌ results admissions plan-built
