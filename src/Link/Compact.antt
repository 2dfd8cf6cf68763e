-- ===== src/Link/Compact.antt =====
-- `compact_runtime_response` and `numeric_value` of fluidgateway/fluidlink.py, on the dicts that the
-- runtime's handler returns.
use fluid_gateway.Common.{
  ℤ, ℕ, Bool, false, not, ◌||◌, Option, none, some, ◌++◌, ◌==◌, if◌then◌else◌,
}
use fluid_gateway.Runtime.Data.{same_text}
use fluid_gateway.Wire.Errors.{Text, Result, ok, other, raise, say, ◌>>=◌}
use fluid_gateway.Json.{
  Value, Fields, null, boolean, whole, number, text, sequence, object, end, field, get,
}

-- What the code does with floats: `math.isfinite`, `x < 0`, `0.0`, and `float(n)`, which raises
-- OverflowError where it is none.
pub record Floats (F : Type 0) : Type 0 where
  pub is_finite : F → Bool
  pub is_negative : F → Bool
  pub zero : F
  pub of_whole : ℤ → Option F

abbrev pub operation_event : ℕ
operation_event = 103

-- `DECISION_OPCODE_BY_POLICY.get(policy, UNKNOWN)` for a text
unfoldable pub opcode_of_policy : Text → ℕ
opcode_of_policy policy =
    if same_text policy (say "eliminate-self-copy")
    then 1
    else if same_text policy (say "deduplicate-identical-transfer")
    then 2
    else if same_text policy (say "collapse-aliased-resource-copy")
    then 3
    else if same_text policy (say "remove-orphan-sync")
    then 4
    else if same_text policy (say "remove-empty-sync")
    then 5
    else if same_text policy (say "reuse-transient-buffer")
    then 6
    else 255

module _ {F : Type 0} where
  -- `value is True`
  unfoldable pub is_true : Option (Value F) → Bool
  is_true (some (boolean b)) = b
  is_true _ = false

  -- The same for any value; a list or a dict is not a key of a dict.
  unfoldable pub policy_opcode : Option (Value F) → Result ℕ
  policy_opcode (some (text policy)) = ok (opcode_of_policy policy)
  policy_opcode (some (sequence vs)) = raise other (say "unhashable type: 'list'")
  policy_opcode (some (object fs)) = raise other (say "unhashable type: 'dict'")
  policy_opcode _ = ok 255

  module _ (floats : Floats F) where
    unfoldable pub finite_nonnegative : F → Text → Result F
    finite_nonnegative result name =
        if not (floats.is_finite result) || floats.is_negative result
        then raise other
            (say "Runtime decision " ++ (name ++ say " must be finite and non-negative."))
        else ok result

    -- `numeric_value`
    unfoldable pub link_number : Option (Value F) → Text → Result F
    link_number none name = ok floats.zero
    link_number (some null) name = ok floats.zero
    link_number (some (whole n)) name = elim (floats.of_whole n) [
      | some result ↦ finite_nonnegative result name
      | none ↦
          raise other
            (say "Runtime decision " ++ (name ++ say " must fit in a finite floating-point value."))
    ]
    link_number (some (number x)) name = finite_nonnegative x name
    link_number (some _) name =
        raise other (say "Runtime decision " ++ (name ++ say " must be numeric."))

    unfoldable pub link_decision : Option (Value F) → Result (ℕ × F × F)
    link_decision (some (object decision)) = do
      opcode ← policy_opcode (get (say "policy") decision)
      saved_ms ← link_number (get (say "estimated_saved_ms") decision) (say "estimated_saved_ms")
      saved_mb ← link_number (get (say "estimated_saved_mb") decision) (say "estimated_saved_mb")
      ok (opcode, saved_ms, saved_mb)
    link_decision _ = ok (0, floats.zero, floats.zero)

    abbrev pub compact_result : Bool → Bool → F → F → Fields F
    compact_result accepted executed saved_ms saved_mb = field (say "accepted") (boolean accepted) (
        field (say "executed") (boolean executed)
          (field (say "saved_ms") (number saved_ms) (field (say "saved_mb") (number saved_mb) end)))

    unfoldable pub link_operation : Bool → Option (Value F) → Result (ℕ × Fields F)
    link_operation accepted (some (object result)) = do
      (opcode, saved_ms, saved_mb) ← link_decision (get (say "decision") result)
      ok (opcode, compact_result accepted (is_true (get (say "executed") result)) saved_ms saved_mb)
    link_operation accepted _ =
        raise other (say "Runtime operation response is missing its result object.")

    -- `compact_runtime_response`
    unfoldable pub compact_link : ℕ → Fields F → Result (ℕ × Fields F)
    compact_link event_opcode response =
        let accepted = is_true (get (say "ok") response) in
        if event_opcode == operation_event
        then link_operation accepted (get (say "result") response)
        else ok (0, field (say "accepted") (boolean accepted) end)
