-- ===== src/Runtime/Controller/Commands.antt =====
-- A controller (fluidgateway/control.py) under any calls of its methods.
use fluid_gateway.Common.{
  ◌≡◌, refl, sym, subst, Bool-cases, inl, inr, true, false, Option, none, some, List, [], ◌∷◌, ◌++◌,
  All-map, All-append, All-select, arith,
}
use fluid_gateway.Frame.{is_some}
use fluid_gateway.Wire.Errors.{Text, Result, ok, err}
use fluid_gateway.Wire.Codec.{Result-cases}
use fluid_gateway.Runtime.Data.{Quantity, Resource, Operation, Decision, same_text, lookup}
use fluid_gateway.Runtime.Decide.{find_resource}
use fluid_gateway.Runtime.State.{
  State, Processed, processed, duplicate_id, key_error, process, release_resource, discard, initial,
  invalidate_resource,
}
use fluid_gateway.Runtime.State.Current.{IsCurrent, Has, HasName, process-IsCurrent, same_resources}
use fluid_gateway.Runtime.State.Current.Released.{release_resource-IsCurrent}
use fluid_gateway.Runtime.Parsing.{Python, parse_resource, parse_operation}
use fluid_gateway.Runtime.Parsing.Entries.{IsResource, parse_resource-IsResource}
use fluid_gateway.Runtime.Parsing.Keyed.{
  IsKeyed, distinct_keys, distinct_keys-append, lookup-append,
}
use fluid_gateway.Runtime.Controller.{
  Controller, Registration, Submission, new_controller, add_resource, take_result,
  register_resource, registration_payload, submission_payload, submit_parsed, submit_operation,
  release,
}

module _ {F : Type 0} (q : Quantity F) (python : Python F) where
  -- The calls that change a controller. One that raises leaves it as it was.
  pub data Command : Type 0 where
    registers : Registration F → Command
    submits : Submission F → Command
    releases : Text → Command

  abbrev pub after {ℓ} : {A : Type ℓ} → Controller F → Result (Controller F × A) → Controller F
  after c (ok (c', result)) = c'
  after c (err e) = c

  unfoldable pub perform : Command → Controller F → Controller F
  perform (registers r) c = after c (register_resource q python c r)
  perform (submits o) c = after c (submit_operation q python c o)
  perform (releases id) c = (release q python c id).0

  unfoldable pub perform_all : List Command → Controller F → Controller F
  perform_all [] c = c
  perform_all (command ∷ commands) c = perform_all commands (perform command c)

  -- The resources stand under their ids, each as `parse_resource` makes them, and all that is
  -- remembered is of resources that are there.
  pub record IsConsistent (s : State F) : Type 0 where
    pub resources : IsKeyed python s.resources
    pub current : IsCurrent q s

  grown_Has :
      (d : List (Text × Resource F)) (r : Resource F) (t : Text)
      → Has q d t
      → Has q (d ++ (r.id, r) ∷ []) t
  grown_Has d r t h = ground (arith, lookup-append python t r.id r d)

  grown_HasName :
      (d : List (Text × Resource F)) (r : Resource F) (name : Option Text)
      → HasName q d name
      → HasName q (d ++ (r.id, r) ∷ []) name
  unfolding find_resource
  grown_HasName d r none h = h
  grown_HasName d r (some t) h = grown_Has d r t h

  add_resource-IsConsistent :
      (c : Controller F) (r : Resource F)
      → IsResource python r
      → IsConsistent c.optimization
      → IsConsistent (after c (add_resource c r)).optimization
  unfolding add_resource
  add_resource-IsConsistent c r well i =
      elim (Bool-cases (is_some (lookup (same_text r.id) c.optimization.resources))) [
        | inl there ↦ rw there i
        | inr fresh ↦
            let d = c.optimization.resources in
            rw fresh (record {
              resources = record {
                keys =
                    All-append (λ x. (x.0 ≡ x.1.id) × IsResource python x.1) d ((r.id, r) ∷ [])
                      i.resources.keys ((refl, well), tt);
                distinct = distinct_keys-append python d r.id r i.resources.distinct fresh;
              };
              current = record {
                copies =
                    All-map (λ x. Has q d x.0) (λ x. Has q (d ++ (r.id, r) ∷ []) x.0)
                      (λ x h. grown_Has d r x.0 h) c.optimization.last_copy_by_target
                      i.current.copies;
                buffers =
                    All-map (λ x. HasName q d x.0.0) (λ x. HasName q (d ++ (r.id, r) ∷ []) x.0.0)
                      (λ x h. grown_HasName d r x.0.0 h) c.optimization.active_buffers
                      i.current.buffers;
              };
            })
      ]

  pub register_resource-IsConsistent :
      (c : Controller F) (r : Registration F)
      → IsConsistent c.optimization
      → IsConsistent (after c (register_resource q python c r)).optimization
  unfolding register_resource
  register_resource-IsConsistent c r i =
      elim (Result-cases (parse_resource python (registration_payload r))) [
        | inr (e, failed) ↦ rw failed i
        | inl (resource, parsed) ↦ rw parsed (
            add_resource-IsConsistent c resource
              (parse_resource-IsResource python (registration_payload r) resource parsed) i)
      ]

  lookup_none-discard :
      (t id : Text) (d : List (Text × Resource F))
      → is_some (lookup (same_text t) d) ≡ false
      → is_some (lookup (same_text t) (discard id d)) ≡ false
  unfolding lookup discard
  lookup_none-discard t id [] h = refl
  lookup_none-discard t id ((k, r) ∷ d) h = elim (Bool-cases (same_text id k)) [
    | inl e ↦ rw e (lookup_none-discard t id d (ground arith))
    | inr e ↦ elim (Bool-cases (same_text t k)) [
      | inl f ↦ absurd (ground arith)
      | inr f ↦ rw (e, f) (lookup_none-discard t id d (ground arith))
    ]
  ]

  distinct_keys-discard :
      (id : Text) (d : List (Text × Resource F))
      → distinct_keys python d ≡ true
      → distinct_keys python (discard id d) ≡ true
  unfolding discard
  distinct_keys-discard id [] h = refl
  distinct_keys-discard id ((k, r) ∷ d) h = elim (Bool-cases (same_text id k)) [
    | inl e ↦ rw e (distinct_keys-discard id d (ground arith))
    | inr e ↦
        let rest = distinct_keys-discard id d (ground arith) in
        let alone : is_some (lookup (same_text k) (discard id d)) ≡ false =
          lookup_none-discard k id d (ground arith) in
        rw (e, alone, rest) refl
  ]

  release-IsConsistent :
      (c : Controller F) (id : Text)
      → IsConsistent c.optimization
      → IsConsistent (release q python c id).0.optimization
  unfolding release release_resource invalidate_resource discard
  release-IsConsistent c id i = record {
    resources = record {
      keys =
          All-select (λ x. (x.0 ≡ x.1.id) × IsResource python x.1) _ c.optimization.resources
            i.resources.keys;
      distinct = distinct_keys-discard id c.optimization.resources i.resources.distinct;
    };
    current = release_resource-IsCurrent q c.optimization id i.current;
  }

  processed-IsConsistent :
      (c : Controller F) (o : Operation F) (s : State F) (o' : Operation F)
      (d : Option (Decision F))
      → IsConsistent c.optimization
      → process q python.lower c.optimization o ≡ processed s o' d
      → IsConsistent s
  processed-IsConsistent c o s o' d i e = record {
    resources =
        subst (IsKeyed python) (sym (same_resources q python.lower c.optimization s o o' d e))
          i.resources;
    current = process-IsCurrent q python.lower c.optimization s o o' d i.current e;
  }

  take_result-IsConsistent :
      (c : Controller F) (o : Operation F)
      → IsConsistent c.optimization
      → (r : Processed F) → process q python.lower c.optimization o ≡ r
      → IsConsistent (after c (take_result c r)).optimization
  unfolding take_result
  take_result-IsConsistent c o i (duplicate_id message) e = i
  take_result-IsConsistent c o i key_error e = i
  take_result-IsConsistent c o i (processed s' o' none) e =
      processed-IsConsistent c o s' o' none i e
  take_result-IsConsistent c o i (processed s' o' (some d)) e =
      processed-IsConsistent c o s' o' (some d) i e

  pub submit_operation-IsConsistent :
      (c : Controller F) (o : Submission F)
      → IsConsistent c.optimization
      → IsConsistent (after c (submit_operation q python c o)).optimization
  unfolding submit_operation submit_parsed
  submit_operation-IsConsistent c o i =
      elim (Result-cases (parse_operation python (submission_payload o))) [
        | inr (e, failed) ↦ rw failed i
        | inl (operation, parsed) ↦ rw parsed (
            take_result-IsConsistent c operation i (process q python.lower c.optimization operation)
              refl)
      ]

  perform-IsConsistent :
      (command : Command) (c : Controller F)
      → IsConsistent c.optimization
      → IsConsistent (perform command c).optimization
  unfolding perform
  perform-IsConsistent (registers r) c i = register_resource-IsConsistent c r i
  perform-IsConsistent (submits o) c i = submit_operation-IsConsistent c o i
  perform-IsConsistent (releases id) c i = release-IsConsistent c id i

  perform_all_keeps :
      (commands : List Command) (c : Controller F)
      → IsConsistent c.optimization
      → IsConsistent (perform_all commands c).optimization
  unfolding perform_all
  perform_all_keeps [] c i = i
  perform_all_keeps (command ∷ commands) c i =
      perform_all_keeps commands (perform command c) (perform-IsConsistent command c i)

  -- However a new controller is used, refused calls included, its resources stand under their ids,
  -- no id twice, each with an id, a known kind, a known memory and a size that is an amount, and
  -- the last copies and active buffers it remembers are of resources that it has.
  pub perform_all-IsConsistent :
      (commands : List Command) → IsConsistent (perform_all commands new_controller).optimization
  unfolding initial
  perform_all-IsConsistent commands = perform_all_keeps commands new_controller (record {
    resources = record { keys = tt; distinct = refl };
    current = record { copies = tt; buffers = tt };
  })
