-- ===== src/Message/Compact.antt =====
-- `compact_runtime_response` and `numeric_value` of fluidgateway/fluidlink.py: what a decision
-- frame keeps of the runtime's response.
use fluid_gateway.Common.{ℕ, ◌≡◌, ◌↔◌, Bool, true, false, Option, none, some, String, ◌++◌, arith}
use fluid_gateway.Wire.Errors.{Result, ok, other, raise, say, ◌>>=◌}
use fluid_gateway.Message.Amount.{Decimal, decimal}
use fluid_gateway.Message.Decision.{Compact}

-- The policies of `DECISION_OPCODE_BY_POLICY`, and any other text.
pub data Policy : Type 0 where
  eliminate_self_copy deduplicate_identical_transfer collapse_aliased_resource_copy : Policy
  remove_orphan_sync remove_empty_sync reuse_transient_buffer unlisted : Policy

abbrev pub execute : ℕ
execute = 0

abbrev pub unknown_decision : ℕ
unknown_decision = 255

-- `DECISION_OPCODE_BY_POLICY.get(policy, UNKNOWN)`
abbrev pub decision_opcode : Policy → ℕ
decision_opcode eliminate_self_copy = 1
decision_opcode deduplicate_identical_transfer = 2
decision_opcode collapse_aliased_resource_copy = 3
decision_opcode remove_orphan_sync = 4
decision_opcode remove_empty_sync = 5
decision_opcode reuse_transient_buffer = 6
decision_opcode unlisted = unknown_decision

-- A value that should be a number: None, no number, a finite number that is not negative, or any
-- other number.
pub data Number : Type 0 where
  absent not_number out_of_domain : Number
  number : Decimal → Number

pub record PolicyDecision : Type 0 where
  pub policy : Policy
  pub estimated_saved_ms : Number
  pub estimated_saved_mb : Number

pub record OperationResult : Type 0 where
  pub executed : Bool
  pub decision : Option PolicyDecision

-- `result` is none where the response has no dict under that key.
pub record Response : Type 0 where
  pub accepted : Bool
  pub result : Option OperationResult

abbrev pub zero_amount : Decimal
zero_amount = record { coefficient = 0; places = 0 }

-- `numeric_value`
unfoldable pub numeric_value : Number → String → Result Decimal
numeric_value absent name = ok zero_amount
numeric_value not_number name =
    raise other (say "Runtime decision " ++ (say name ++ say " must be numeric."))
numeric_value out_of_domain name =
    raise other (say "Runtime decision " ++ (say name ++ say " must be finite and non-negative."))
numeric_value (number d) name = ok d

compact_decision : Option PolicyDecision → Result (ℕ × Decimal × Decimal)
compact_decision none = ok (execute, zero_amount, zero_amount)
compact_decision (some d) = do
  saved_ms ← numeric_value d.estimated_saved_ms "estimated_saved_ms"
  saved_mb ← numeric_value d.estimated_saved_mb "estimated_saved_mb"
  ok (decision_opcode d.policy, saved_ms, saved_mb)

compact_operation : Bool → Option OperationResult → Result (ℕ × Compact)
unfolding compact_decision
compact_operation accepted none =
    raise other (say "Runtime operation response is missing its result object.")
compact_operation accepted (some result) = do
  (opcode, saved_ms, saved_mb) ← compact_decision result.decision
  ok (
    opcode,
    record {
      accepted = accepted;
      executed = some result.executed;
      saved_time = decimal saved_ms;
      saved_memory = decimal saved_mb;
    },
  )

-- `compact_runtime_response`; only an operation's response has a decision
unfoldable pub compact_response : Bool → Response → Result (ℕ × Compact)
unfolding compact_operation
compact_response false response = ok (
  execute,
  record {
    accepted = response.accepted;
    executed = none;
    saved_time = decimal zero_amount;
    saved_memory = decimal zero_amount;
  },
)
compact_response true response = compact_operation response.accepted response.result

-- The compact form of an operation's response has the opcode EXECUTE exactly where the response
-- carries no decision, and it says whether the operation was executed.
pub compact_response_opcode :
    (r : OperationResult) (accepted : Bool) {opcode : ℕ} {c : Compact}
    → compact_response true (record { accepted = accepted; result = some r }) ≡ ok (opcode, c)
    → ((opcode ≡ execute) ↔ (r.decision ≡ none)) × (c.executed ≡ some r.executed)
unfolding compact_response
compact_response_opcode r accepted {opcode} {c} h =
    ((λ e. ground arith, λ e. ground arith), ground arith)
