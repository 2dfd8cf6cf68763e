-- ===== src/Planner/Admission.antt =====
-- The admission controller of fluidgateway/admission.py, on the dicts that it is given. `overflows`
-- says where `float` of a value raises an OverflowError, which the code does not catch.
pub mod Balanced
use fluid_gateway.Common.{
  ℕ, ℤ, ◌+◌, Bool, true, false, Option, none, some, List, [], ◌∷◌, map, length, ◌||◌, if◌then◌else◌,
}
use fluid_gateway.Wire.Errors.{Text, Result, ok, say, ◌>>=◌}
use fluid_gateway.Json.{
  Value, Values, Fields, null, foreign, boolean, whole, number, text, sequence, object, nil, item,
  end, field, get,
}
use fluid_gateway.Runtime.Data.{same_text}
use fluid_gateway.Runtime.State.{total}
use fluid_gateway.Runtime.Parsing.{Python, value_error, is_truthy, text_or, frame_of_value}
use fluid_gateway.Runtime.Events.{either, value_or_null}

-- The texts of `AdmissionDecision.action` and `contribution`.
pub data AdmissionAction : Type 0 where
  admit_now admit_prefetch reject_redundant reuse_existing hold_next_frame : AdmissionAction

pub data Contribution : Type 0 where
  hot_path prestaged avoided reused held : Contribution

-- `AdmissionDecision`
pub record AdmissionDecision (F : Type 0) : Type 0 where
  pub action : AdmissionAction
  pub operation_id : Text
  pub frame : Option ℤ
  pub queue : Text
  pub resource_id : Value F
  pub phase : Text
  pub admitted : Bool
  pub contribution : Contribution
  pub cost_ms : F
  pub size_mb : F
  pub reason : Text

-- `AdmissionPlan`
pub record AdmissionPlan (F : Type 0) : Type 0 where
  pub operation_count : ℕ
  pub immediate_count : ℕ
  pub prefetch_count : ℕ
  pub deferred_count : ℕ
  pub reused_count : ℕ
  pub held_count : ℕ
  pub estimated_hot_path_cost_ms : F
  pub estimated_prestaged_cost_ms : F
  pub estimated_prestaged_transfer_mb : F
  pub estimated_avoided_cost_ms : F
  pub estimated_avoided_transfer_mb : F
  pub estimated_held_cost_ms : F
  pub estimated_held_transfer_mb : F
  pub slots : List (AdmissionDecision F)

unfoldable pub same_action : AdmissionAction → AdmissionAction → Bool
same_action AdmissionAction.admit_now AdmissionAction.admit_now = true
same_action AdmissionAction.admit_prefetch AdmissionAction.admit_prefetch = true
same_action AdmissionAction.reject_redundant AdmissionAction.reject_redundant = true
same_action AdmissionAction.reuse_existing AdmissionAction.reuse_existing = true
same_action AdmissionAction.hold_next_frame AdmissionAction.hold_next_frame = true
same_action _ _ = false

unfoldable pub same_contribution : Contribution → Contribution → Bool
same_contribution Contribution.hot_path Contribution.hot_path = true
same_contribution Contribution.prestaged Contribution.prestaged = true
same_contribution Contribution.avoided Contribution.avoided = true
same_contribution Contribution.reused Contribution.reused = true
same_contribution Contribution.held Contribution.held = true
same_contribution _ _ = false

module _ {F : Type 0} where
  -- `count`
  unfoldable pub count : AdmissionAction → List (AdmissionDecision F) → ℕ
  count action [] = 0
  count action (slot ∷ slots) =
      let rest = count action slots in if same_action slot.action action then rest + 1 else rest

  unfoldable pub contributing :
      Contribution → List (AdmissionDecision F) → List (AdmissionDecision F)
  contributing c [] = []
  contributing c (slot ∷ slots) =
      let rest = contributing c slots in
      if same_contribution slot.contribution c then slot ∷ rest else rest

  unfoldable pub as_dict : Value F → Result (Fields F)
  as_dict (object fields) = ok fields
  as_dict _ = value_error (say "AttributeError")

  -- `dict.get(key, default)`
  abbrev pub get_or : Option (Value F) → Option (Value F) → Option (Value F)
  get_or none default = default
  get_or (some value) default = some value

  module _ (python : Python F) (overflows : Value F → Bool) where
    -- `value or {}`
    unfoldable pub dict_or_empty : Option (Value F) → Result (Fields F)
    dict_or_empty none = ok end
    dict_or_empty (some value) = if is_truthy python value then as_dict value else ok end

    unfoldable pub float_or_zero : Value F → Result F
    float_or_zero value = elim (python.to_float value) [
      | some x ↦ ok x
      | none ↦ if overflows value then value_error (say "OverflowError") else ok python.zero
    ]

    -- `number`
    unfoldable pub number_of : Option (Value F) → Result F
    number_of none = ok python.zero
    number_of (some value) = if is_truthy python value then float_or_zero value else ok python.zero

    -- `transfer_size`
    unfoldable pub transfer_size : Text → F → F
    transfer_size operation_type size_mb =
        if same_text operation_type (say "copy")
          || (same_text operation_type (say "upload") || same_text operation_type (say "allocate"))
        then size_mb
        else python.zero

    -- The part of a decision that all branches share.
    abbrev pub decision_on :
        Fields F
        → Fields F
        → Option ℤ
        → AdmissionAction
        → Text
        → Bool
        → Contribution
        → F
        → F
        → Text
        → AdmissionDecision F
    decision_on operation gate frame action phase admitted contribution cost_ms size_mb reason =
        record {
          action = action;
          operation_id =
              text_or python []
                (either python (get (say "id") operation) (get (say "operation_id") gate));
          frame = frame;
          queue =
              text_or python (say "unknown")
                (either python (get (say "queue") operation) (get (say "queue") gate));
          resource_id =
              value_or_null
                (either python (get (say "target") operation) (get (say "resource_id") gate));
          phase = phase;
          admitted = admitted;
          contribution = contribution;
          cost_ms = cost_ms;
          size_mb = size_mb;
          reason = reason;
        }

    -- The branches on what the gate says.
    unfoldable pub decide_admission : Fields F → Fields F → Option ℤ → F → F → AdmissionDecision F
    decide_admission operation gate frame cost_ms size_mb =
        let gate_action = text_or python (say "execute_now") (get (say "action") gate) in
        let transfer = transfer_size (text_or python [] (get (say "type") operation)) size_mb in
        let make = decision_on operation gate frame in
        if same_text gate_action (say "prestage_before_draw")
        then make AdmissionAction.admit_prefetch (say "prefetch") true Contribution.prestaged
            cost_ms transfer
            (say "Admit operation into the prefetch phase before draw-critical work.")
        else if same_text gate_action (say "defer_redundant_work")
        then make AdmissionAction.reject_redundant (say "deferred") false Contribution.avoided
            cost_ms size_mb (say "Reject redundant work from the executable queue.")
        else if same_text gate_action (say "reuse_existing_resource")
        then make AdmissionAction.reuse_existing (say "reuse") false Contribution.reused cost_ms
            size_mb (say "Use an existing resource instead of executing equivalent work.")
        else if same_text gate_action (say "hold_noncritical_work")
        then make AdmissionAction.hold_next_frame (say "next-frame") false Contribution.held cost_ms
            transfer (say "Hold non-critical work outside the current hot frame.")
        else make AdmissionAction.admit_now
            (text_or python (say "current-frame") (get (say "preferred_phase") gate)) true
            Contribution.hot_path cost_ms python.zero
            (say "Admit operation into the current executable frame path.")

    -- `build_admission_decision`
    unfoldable pub build_admission_decision : Fields F → Result (AdmissionDecision F)
    build_admission_decision result = do
      operation ← dict_or_empty (get (say "operation") result)
      gate ← dict_or_empty (get (say "execution_gate") result)
      cost_ms ← number_of (get (say "cost_ms") operation)
      size_mb ← number_of (get (say "size_mb") operation)
      frame ← frame_of_value python (get_or (get (say "frame") operation) (get (say "frame") gate))
      ok (decide_admission operation gate frame cost_ms size_mb)

    -- `isinstance(result, dict) and result.get("operation")`, with the dict
    unfoldable pub operation_result : Value F → Option (Fields F)
    operation_result (object result) =
        if is_truthy python (value_or_null (get (say "operation") result))
        then some result
        else none
    operation_result _ = none

    unfoldable pub slots_of : Values F → Result (List (AdmissionDecision F))
    slots_of nil = ok []
    slots_of (item value values) = elim (operation_result value) [
      | none ↦ slots_of values
      | some result ↦
          build_admission_decision result
          >>= (λ slot. slots_of values >>= λ slots. ok (slot ∷ slots))
    ]

    module _ (add : F → F → F) where
      -- `sum_cost` and `sum_size`
      unfoldable pub sum_cost : List (AdmissionDecision F) → Contribution → F
      sum_cost slots contribution =
          total add python.zero (map (λ slot. slot.cost_ms) (contributing contribution slots))

      unfoldable pub sum_size : List (AdmissionDecision F) → Contribution → F
      sum_size slots contribution =
          total add python.zero (map (λ slot. slot.size_mb) (contributing contribution slots))

      abbrev pub plan_of_slots : List (AdmissionDecision F) → AdmissionPlan F
      plan_of_slots slots = record {
        operation_count = length slots;
        immediate_count = count AdmissionAction.admit_now slots;
        prefetch_count = count AdmissionAction.admit_prefetch slots;
        deferred_count = count AdmissionAction.reject_redundant slots;
        reused_count = count AdmissionAction.reuse_existing slots;
        held_count = count AdmissionAction.hold_next_frame slots;
        estimated_hot_path_cost_ms = sum_cost slots Contribution.hot_path;
        estimated_prestaged_cost_ms = sum_cost slots Contribution.prestaged;
        estimated_prestaged_transfer_mb = sum_size slots Contribution.prestaged;
        estimated_avoided_cost_ms =
            add (sum_cost slots Contribution.avoided) (sum_cost slots Contribution.reused);
        estimated_avoided_transfer_mb =
            add (sum_size slots Contribution.avoided) (sum_size slots Contribution.reused);
        estimated_held_cost_ms = sum_cost slots Contribution.held;
        estimated_held_transfer_mb = sum_size slots Contribution.held;
        slots = slots;
      }

      -- `build_admission_plan`
      unfoldable pub build_admission_plan : Values F → Result (AdmissionPlan F)
      build_admission_plan results = slots_of results >>= λ slots. ok (plan_of_slots slots)
