-- ===== src/Runtime/Events/Calls.antt =====
-- What the calls of a controller (fluidgateway/control.py) that a replay makes leave and add.
use fluid_gateway.Common.{
  ℕ, ◌+◌, ◌≡◌, ◌∙◌, refl, sym, ap, subst, Bool-cases, inl, inr, Option, none, some, List, [], ◌∷◌,
  ◌++◌, append_assoc, append-nil, length, length-append, if◌then◌else◌, arith,
}
use fluid_gateway.Frame.{is_some}
use fluid_gateway.Wire.Errors.{ok, err, >>=-eq-ok}
use fluid_gateway.Runtime.Data.{Quantity, Resource, Operation, Decision, same_text, lookup}
use fluid_gateway.Runtime.State.{Processed, processed, duplicate_id, key_error, process}
use fluid_gateway.Runtime.State.Current.{same_resources}
use fluid_gateway.Runtime.Parsing.{Python, parse_resource, parse_operation}
use fluid_gateway.Runtime.Controller.{
  Controller, ControllerResult, Registration, Submission, register_resource, submit_operation,
  add_resource, take_result, submit_parsed, submission_payload, registration_payload,
}

module _ {F : Type 0} where
  unfoldable pub executed_one : ControllerResult F → List (Operation F)
  executed_one result = if result.executed then result.operation ∷ [] else []

  unfoldable pub decision_one : ControllerResult F → List (Decision F)
  decision_one result = elim result.decision [ none ↦ [] | some decision ↦ decision ∷ [] ]

  -- The operations that the results executed, and their decisions, in order.
  unfoldable pub collected :
      {A : Type 0} → (ControllerResult F → List A) → List (Option ℕ × ControllerResult F) → List A
  collected one [] = []
  collected one ((index, result) ∷ results) = one result ++ collected one results

  pub collected-append :
      {A : Type 0} (one : ControllerResult F → List A) (index : Option ℕ)
      (result : ControllerResult F) (results : List (Option ℕ × ControllerResult F))
      → collected one (results ++ (index, result) ∷ []) ≡ collected one results ++ one result
  unfolding collected
  collected-append one index result [] = append-nil (one result)
  collected-append one index result ((i, first) ∷ results) =
      ap (λ t. one first ++ t) (collected-append one index result results)
      ∙ sym (append_assoc (one first) (collected one results) (one result))

  -- What a call of the controller leaves as it was, and what it adds.
  pub record Submitted (c c' : Controller F) (result : ControllerResult F) : Type 0 where
    pub resources : c'.optimization.resources ≡ c.optimization.resources
    pub executed : c'.executed_operations ≡ c.executed_operations ++ executed_one result
    pub decisions : c'.decisions ≡ c.decisions ++ decision_one result

  pub record Registered (c c' : Controller F) : Type 0 where
    pub resources : length c'.optimization.resources ≡ length c.optimization.resources + 1
    pub executed : c'.executed_operations ≡ c.executed_operations
    pub decisions : c'.decisions ≡ c.decisions

  module _ (q : Quantity F) (python : Python F) where
    take_result-Submitted :
        (c c' : Controller F) (o : Operation F) (result : ControllerResult F) (r : Processed F)
        → process q python.lower c.optimization o ≡ r
        → take_result c r ≡ ok (c', result)
        → Submitted c c' result
    unfolding take_result executed_one decision_one
    take_result-Submitted c c' o result (processed s o' none) p e =
        subst (λ x. elim x [ ok y ↦ Submitted c y.0 y.1 | err z ↦ Unit ]) e
          (record {
            resources = same_resources q python.lower c.optimization s o o' none p;
            executed = refl;
            decisions = sym (append-nil c.decisions);
          })
    take_result-Submitted c c' o result (processed s o' (some d)) p e =
        subst (λ x. elim x [ ok y ↦ Submitted c y.0 y.1 | err z ↦ Unit ]) e
          (record {
            resources = same_resources q python.lower c.optimization s o o' (some d) p;
            executed = sym (append-nil c.executed_operations);
            decisions = refl;
          })
    take_result-Submitted c c' o result (duplicate_id message) p e = cc
    take_result-Submitted c c' o result key_error p e = cc

    pub submit_operation-Submitted :
        (c c' : Controller F) (o : Submission F) (result : ControllerResult F)
        → submit_operation q python c o ≡ ok (c', result)
        → Submitted c c' result
    unfolding submit_operation submit_parsed
    submit_operation-Submitted c c' o result e =
        let (operation, parsed, e') =
          >>=-eq-ok (parse_operation python (submission_payload o)) _ e in
        take_result-Submitted c c' operation result
          (process q python.lower c.optimization operation) refl e'

    pub register_resource-Registered :
        (c c' : Controller F) (x : Registration F) (resource : Resource F)
        → register_resource q python c x ≡ ok (c', resource)
        → Registered c c'
    unfolding register_resource add_resource
    register_resource-Registered c c' x resource e =
        let (r, parsed, e') = >>=-eq-ok (parse_resource python (registration_payload x)) _ e in
        elim (Bool-cases (is_some (lookup (same_text r.id) c.optimization.resources))) [
          | inl there ↦ absurd (ground arith)
          | inr fresh ↦
              let made : ok _ ≡ ok (c', resource) = rw fresh at e' in
              subst (λ x. elim x [ ok y ↦ Registered c y.0 | err z ↦ Unit ]) made
                (record {
                  resources = length-append c.optimization.resources ((r.id, r) ∷ []);
                  executed = refl;
                  decisions = refl;
                })
        ]
