-- ===== src/Runtime/Controller/Planned.antt =====
-- The controller of fluidgateway/control.py against `optimize_manifest` of fluidgateway/runtime.py.
use fluid_gateway.Common.{
  ◌≡◌, refl, ap, ◌∙◌, true, false, Option, none, some, List, [], ◌∷◌, ◌++◌, append_assoc,
  append-nil, All, Bool-cases, inl, inr, arith,
}
use fluid_gateway.Frame.{is_some}
use fluid_gateway.Wire.Errors.{Text, Result, ok, err, ◌>>=◌}
use fluid_gateway.Runtime.Data.{Quantity, Resource, Operation, Decision, same_text, lookup}
use fluid_gateway.Runtime.Parsing.{Python}
use fluid_gateway.Runtime.Parsing.Keyed.{distinct_keys, same_text_comm}
use fluid_gateway.Runtime.State.{
  State, Processed, processed, duplicate_id, key_error, process, Optimized, collect, optimize,
  Manifest, Plan, initial, plan_of, finish, optimize_manifest,
}
use fluid_gateway.Runtime.Controller.{
  Controller, new_controller, take_result, submit_parsed, submit_operation, add_resource,
  register_resource,
}
use fluid_gateway.Runtime.Controller.Passed.{
  Reads, IsPlainResource, IsPlainOperation, submission_of, registration_of,
  parse_operation-submission_payload, parse_resource-registration_payload,
}

-- A key between two lists of entries that have no key twice is in neither.
module _ {F : Type 0} (python : Python F) where
  lookup-middle :
      (k key : Text) (r : Resource F) (d rest : List (Text × Resource F))
      → same_text k key ≡ true
      → is_some (lookup (same_text k) (d ++ (key, r) ∷ rest)) ≡ true
  unfolding lookup
  lookup-middle k key r [] rest e = rw e refl
  lookup-middle k key r ((other, s) ∷ d) rest e = ground (arith, lookup-middle k key r d rest e)

  lookup-distinct :
      (key : Text) (r : Resource F) (d rest : List (Text × Resource F))
      → distinct_keys python (d ++ (key, r) ∷ rest) ≡ true
      → is_some (lookup (same_text key) d) ≡ false
  unfolding lookup
  lookup-distinct key r [] rest e = refl
  lookup-distinct key r ((k, s) ∷ d) rest e =
      let ih = lookup-distinct key r d rest (ground arith) in
      elim (Bool-cases (same_text key k)) [
        | inl same ↦
            let found = lookup-middle k key r d rest (same_text_comm python k key ∙ same) in
            absurd (ground arith)
        | inr other ↦ ground arith
      ]

-- What a manifest is like whose entries a caller can pass to a controller: no id twice among its
-- resources, names without space around them, known kinds and memories, and finite amounts.
pub record IsPlainManifest {F : Type 0} (python : Python F) (m : Manifest F) : Type 0 where
  pub resources : All (λ x. (x.0 ≡ x.1.id) × IsPlainResource python x.1) m.resources
  pub distinct : distinct_keys python m.resources ≡ true
  pub operations : All (IsPlainOperation python) m.operations

module _ {F : Type 0} (q : Quantity F) (python : Python F) where
  -- The resources of a manifest are registered and its operations submitted, one after another, as
  -- long as no call raises.
  unfoldable pub register_all : List (Text × Resource F) → Controller F → Result (Controller F)
  register_all [] c = ok c
  register_all ((key, r) ∷ rest) c =
      register_resource q python c (registration_of r) >>= λ (c', resource). register_all rest c'

  unfoldable pub submit_all : List (Operation F) → Controller F → Result (Controller F)
  submit_all [] c = ok c
  submit_all (o ∷ os) c =
      submit_operation q python c (submission_of o) >>= λ (c', result). submit_all os c'

  unfoldable pub carry_out : Manifest F → Result (Controller F)
  carry_out m = register_all m.resources new_controller >>= submit_all m.operations

  abbrev planned : Optimized q python.lower → Option (Controller F)
  planned (Optimized.optimized s kept decisions) =
      some (record { optimization = s; executed_operations = kept; decisions = decisions })
  planned (Optimized.refused message) = none
  planned Optimized.missing_key = none

  abbrev returned : Result (Controller F) → Option (Controller F)
  returned (ok c) = some c
  returned (err e) = none

  abbrev stocked : List (Text × Resource F) → Controller F
  stocked d = record { optimization = initial d; executed_operations = []; decisions = [] }

  module _ (reads : Reads python) where
    register_all-ok :
        (rest d : List (Text × Resource F))
        → All (λ x. (x.0 ≡ x.1.id) × IsPlainResource python x.1) rest
        → distinct_keys python (d ++ rest) ≡ true
        → register_all rest (stocked d) ≡ ok (stocked (d ++ rest))
    unfolding register_all register_resource add_resource initial
    register_all-ok [] d plain distinct = rw (append-nil d) refl
    register_all-ok ((key, r) ∷ rest) d ((named, plain), plains) distinct =
        let unlike : distinct_keys python (d ++ (r.id, r) ∷ rest) ≡ true = rw named at distinct in
        let fresh = lookup-distinct python r.id r d rest unlike in
        let split : (d ++ (r.id, r) ∷ []) ++ rest ≡ d ++ (r.id, r) ∷ rest =
          append_assoc d ((r.id, r) ∷ []) rest in
        let ih = register_all-ok rest (d ++ (r.id, r) ∷ []) plains (rw split unlike) in
        rw (parse_resource-registration_payload python reads r plain, fresh, named)
          (ih ∙ ap (λ x. ok (stocked x)) split)

    -- One round, by what holds of the rounds after it.
    returned-take_result :
        (r : Processed F) (c : Controller F) (os : List (Operation F))
        → ((s : State F) (kept : List (Operation F)) (ds : List (Decision F))
            → returned (
                submit_all os
                  (record { optimization = s; executed_operations = kept; decisions = ds }))
              ≡ planned (optimize q python.lower os s kept ds))
        → returned (take_result c r >>= λ x. submit_all os x.0)
          ≡ planned (
              collect q python.lower c.executed_operations c.decisions r
                (optimize q python.lower os))
    unfolding take_result collect
    returned-take_result (processed s o none) c os ih =
        ih s (c.executed_operations ++ o ∷ []) c.decisions
    returned-take_result (processed s o (some d)) c os ih =
        ih s c.executed_operations (c.decisions ++ d ∷ [])
    returned-take_result (duplicate_id message) c os ih = refl
    returned-take_result key_error c os ih = refl

    returned-submit_all :
        (os : List (Operation F))
        → All (IsPlainOperation python) os
        → (s : State F) (kept : List (Operation F)) (ds : List (Decision F))
        → returned (
            submit_all os (record { optimization = s; executed_operations = kept; decisions = ds }))
          ≡ planned (optimize q python.lower os s kept ds)
    unfolding submit_all submit_operation submit_parsed optimize
    returned-submit_all [] plain s kept ds = refl
    returned-submit_all (o ∷ os) (plain, plains) s kept ds =
        rw (parse_operation-submission_payload python reads o plain) (
          returned-take_result (process q python.lower s o)
            (record { optimization = s; executed_operations = kept; decisions = ds }) os
            (returned-submit_all os plains))

  module _ (add : F → F → F) (round4 : F → F) (m : Manifest F) where
    -- The plan of a manifest with what a controller has executed and decided.
    abbrev pub plan_from : Result (Controller F) → Option (Plan F)
    plan_from (ok c) = some (plan_of q python.lower add round4 m c.executed_operations c.decisions)
    plan_from (err e) = none

    plan_with : Option (Controller F) → Option (Plan F)
    plan_with none = none
    plan_with (some c) =
        some (plan_of q python.lower add round4 m c.executed_operations c.decisions)

    plan_from-finish :
        (r : Result (Controller F)) (o : Optimized q python.lower)
        → returned r ≡ planned o
        → plan_from r ≡ finish q python.lower add round4 m o
    unfolding finish plan_with
    plan_from-finish (ok c) (Optimized.optimized s kept ds) e = ap plan_with e
    plan_from-finish (ok c) (Optimized.refused message) e = cc
    plan_from-finish (ok c) Optimized.missing_key e = cc
    plan_from-finish (err x) (Optimized.optimized s kept ds) e = cc
    plan_from-finish (err x) (Optimized.refused message) e = refl
    plan_from-finish (err x) Optimized.missing_key e = refl

    -- Where the resources of a manifest are registered with a new controller and its operations
    -- are then submitted, one call after another, each with the fields of its entry as arguments,
    -- the plan of what the controller has executed and decided is the plan that optimize_manifest
    -- makes, and a call raises exactly where optimize_manifest does. The conditions: str, float
    -- and int give back a text, a float and an int, and str.lower the known names; the resources
    -- stand under their ids, no id twice; ids, sources, targets, kinds and memories are not empty
    -- and have no space around them, kinds and memories are known, queues and lifetimes are not
    -- empty, and costs and sizes are finite and not negative.
    pub plan_from-carry_out :
        Reads python
        → IsPlainManifest python m
        → plan_from (carry_out m) ≡ optimize_manifest q python.lower add round4 m
    unfolding carry_out optimize_manifest
    plan_from-carry_out reads plain =
        rw (register_all-ok reads m.resources [] plain.resources plain.distinct) (
          plan_from-finish (submit_all m.operations (stocked m.resources))
            (optimize q python.lower m.operations (initial m.resources) [] [])
            (returned-submit_all reads m.operations plain.operations (initial m.resources) [] []))
