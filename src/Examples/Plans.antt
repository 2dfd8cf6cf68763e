-- ===== src/Examples/Plans.antt =====
-- A copy of a resource to itself, with sizes and costs that are natural numbers.
use fluid_gateway.Common.{ℕ, refl, none, some, [], ◌∷◌, ◌==◌}
use fluid_gateway.Wire.Errors.{say}
use fluid_gateway.Message.Enum.{OperationType}
use fluid_gateway.Runtime.Data.{Quantity, Resource, Operation, Decision, Action, Policy}
use fluid_gateway.Runtime.Decide.{decide_operation}
use fluid_gateway.Runtime.Soundness.{Sound, decide_operation-Sound}

abbrev pub whole_numbers : Quantity ℕ
whole_numbers = record { same = λ a b. a == b; is_nothing = λ a. a == 0; nothing = 0 }

abbrev pub texture : Resource ℕ
texture = record {
  id = say "t";
  kind = say "texture";
  memory = say "vram";
  size_mb = 8;
  lifetime = say "asset";
  aliases = [];
}

abbrev pub self_copy : Operation ℕ
self_copy = record {
  id = say "op";
  type = OperationType.copy;
  source = some (say "t");
  target = some (say "t");
  queue = say "copy";
  reason = [];
  cost_ms = 2;
  size_mb = 8;
  frame = none;
  depends_on = [];
}

abbrev pub self_copy_removed : Decision ℕ
self_copy_removed = record {
  operation_id = say "op";
  action = Action.remove;
  policy = Policy.eliminate_self_copy;
  estimated_saved_ms = 2;
  estimated_saved_mb = 8;
}

decide_operation-Sound_example :
    Sound whole_numbers (λ t. t) ((say "t", texture) ∷ []) [] [] [] self_copy self_copy_removed
unfolding decide_operation fluid_gateway.Runtime.Decide.decide_transfer
    fluid_gateway.Runtime.Decide.find_resource fluid_gateway.Runtime.Data.lookup say
    fluid_gateway.Runtime.Decide.decide_as
decide_operation-Sound_example =
    decide_operation-Sound whole_numbers (λ t. t) ((say "t", texture) ∷ []) [] [] [] self_copy
      self_copy_removed refl
