-- ===== src/Runtime/Events/Replayed.antt =====
-- What a replay of an event stream (fluidgateway/events.py) adds up to.
use fluid_gateway.Common.{
  ℕ, ◌+◌, ◌≡◌, ◌∙◌, refl, sym, ap, subst, Bool-cases, inl, inr, Option, none, some, List, [], ◌∷◌,
  ◌++◌, length, length-append, arith,
}
use fluid_gateway.Wire.Errors.{Text, Result, ok, err, say, >>=-eq-ok, ◌>>=◌}
use fluid_gateway.Json.{Value, Fields, get}
use fluid_gateway.Runtime.Data.{Quantity, Resource, same_text}
use fluid_gateway.Runtime.State.{initial}
use fluid_gateway.Runtime.Parsing.{Python}
use fluid_gateway.Runtime.Controller.{
  Controller, ControllerResult, Registration, Submission, register_resource, submit_operation,
}
use fluid_gateway.Runtime.Controller.Commands.{
  IsConsistent, register_resource-IsConsistent, submit_operation-IsConsistent, perform_all,
  perform_all-IsConsistent,
}
use fluid_gateway.Runtime.Events.{
  EventReplay, Response, resource_response, operation_response, note_response,
  register_resource_event, submit_operation_event, process_event_payload, replay_event,
  replay_lines, replay_event_stream, new_replay, read_event, needed, either, registration_of,
  submission_of, event_type,
}
use fluid_gateway.Runtime.Events.Calls.{
  executed_one, decision_one, collected, collected-append, submit_operation-Submitted,
  register_resource-Registered,
}

module _ {F : Type 0} (q : Quantity F) (python : Python F) where
  -- What the counts and the results of a replay are, against its controller.
  pub record IsReplayed (r : EventReplay F) : Type 0 where
    pub consistent : IsConsistent q python r.controller.optimization
    pub events : r.events_processed ≡ r.resource_events + r.operation_events
    pub resources : length r.controller.optimization.resources ≡ r.resource_events
    pub operations : length r.results ≡ r.operation_events
    pub executed : r.controller.executed_operations ≡ collected executed_one r.results
    pub decisions : r.controller.decisions ≡ collected decision_one r.results

  registered-IsReplayed :
      (r : EventReplay F) (c : Controller F) (x : Registration F) (index : Option ℕ)
      (resource : Resource F)
      → IsReplayed r
      → register_resource q python r.controller x ≡ ok (c, resource)
      → IsReplayed (note_response r c (resource_response index resource))
  unfolding note_response
  registered-IsReplayed r c x index resource i e =
      let step = register_resource-Registered q python r.controller c x resource e in
      let kept = register_resource-IsConsistent q python r.controller x i.consistent in
      record {
        consistent = rw e at kept;
        events = omega (arith, i.events);
        resources = omega (arith, step.resources, i.resources);
        operations = i.operations;
        executed = step.executed ∙ i.executed;
        decisions = step.decisions ∙ i.decisions;
      }

  submitted-IsReplayed :
      (r : EventReplay F) (c : Controller F) (x : Submission F) (index : Option ℕ)
      (result : ControllerResult F)
      → IsReplayed r
      → submit_operation q python r.controller x ≡ ok (c, result)
      → IsReplayed (note_response r c (operation_response index result))
  unfolding note_response
  submitted-IsReplayed r c x index result i e =
      let step = submit_operation-Submitted q python r.controller c x result e in
      let kept = submit_operation-IsConsistent q python r.controller x i.consistent in
      record {
        consistent = rw e at kept;
        events = omega (arith, i.events);
        resources = ap length step.resources ∙ i.resources;
        operations = omega (arith, length-append r.results ((index, result) ∷ []), i.operations);
        executed =
            step.executed
            ∙ (ap (λ t. t ++ executed_one result) i.executed
                ∙ sym (collected-append executed_one index result r.results));
        decisions =
            step.decisions
            ∙ (ap (λ t. t ++ decision_one result) i.decisions
                ∙ sym (collected-append decision_one index result r.results));
      }

  -- A call that an event makes, read off from the event's own code.
  register_resource_event-call :
      (c c' : Controller F) (payload : Fields F) (resource : Resource F)
      → register_resource_event q python c payload ≡ ok (c', resource)
      → (x : Registration F) × (register_resource q python c x ≡ ok (c', resource))
  unfolding register_resource_event
  register_resource_event-call c c' payload resource e =
      let (id, e₁, h₁) =
        >>=-eq-ok
          (needed python (either python (get (say "id") payload) (get (say "resource_id") payload))
            _)
          _ e in
      let (x, e₂, h₂) = >>=-eq-ok (registration_of python id payload) _ h₁ in (x, h₂)

  submit_operation_event-call :
      (c c' : Controller F) (payload : Fields F) (result : ControllerResult F)
      → submit_operation_event q python c payload ≡ ok (c', result)
      → (x : Submission F) × (submit_operation q python c x ≡ ok (c', result))
  unfolding submit_operation_event
  submit_operation_event-call c c' payload result e =
      let (id, e₁, h₁) =
        >>=-eq-ok
          (needed python (either python (get (say "id") payload) (get (say "operation_id") payload))
            _)
          _ e in
      let (type, e₂, h₂) = >>=-eq-ok (needed python _ _) _ h₁ in
      let (x, e₃, h₃) = >>=-eq-ok (submission_of python id type payload) _ h₂ in (x, h₃)

  payload-IsReplayed :
      (r : EventReplay F) (payload : Fields F) (index : Option ℕ) (c : Controller F)
      (response : Response F)
      → IsReplayed r
      → process_event_payload q python r.controller payload index ≡ ok (c, response)
      → IsReplayed (note_response r c response)
  unfolding process_event_payload
  payload-IsReplayed r payload index c response i e =
      let outcome : Result (Controller F × Response F) → Type 0 =
        λ x. elim x [ ok y ↦ IsReplayed (note_response r y.0 y.1) | err z ↦ Unit ] in
      elim (Bool-cases (same_text (event_type python payload) (say "resource"))) [
        | inl resource ↦
            let h : (register_resource_event q python r.controller payload >>= _)
                ≡ ok (c, response) =
              rw (process_event_payload, resource) at e in
            let ((c', made), f, g) =
              >>=-eq-ok (register_resource_event q python r.controller payload) _ h in
            let (x, call) = register_resource_event-call r.controller c' payload made f in
            subst outcome g (registered-IsReplayed r c' x index made i call)
        | inr other ↦ elim (Bool-cases (same_text (event_type python payload) (say "operation"))) [
          | inl operation ↦
              let h : (submit_operation_event q python r.controller payload >>= _)
                  ≡ ok (c, response) =
                rw (process_event_payload, other, operation) at e in
              let ((c', made), f, g) =
                >>=-eq-ok (submit_operation_event q python r.controller payload) _ h in
              let (x, call) = submit_operation_event-call r.controller c' payload made f in
              subst outcome g (submitted-IsReplayed r c' x index made i call)
          | inr unknown ↦ absurd (ground arith)
        ]
      ]

  replay_event-IsReplayed :
      (index : ℕ) (event : Option (Fields F)) (r r' : EventReplay F)
      → IsReplayed r
      → replay_event q python index event r ≡ ok r'
      → IsReplayed r'
  unfolding replay_event
  replay_event-IsReplayed index none r r' i e =
      let same : r ≡ r' = ground arith in subst IsReplayed same i
  replay_event-IsReplayed index (some payload) r r' i e =
      let ((c, response), f, g) =
        >>=-eq-ok (process_event_payload q python r.controller payload (some index)) _ e in
      let same : note_response r c response ≡ r' = ground arith in
      subst IsReplayed same (payload-IsReplayed r payload (some index) c response i f)

  replay_lines-IsReplayed :
      (loads : Text → Result (Value F)) (index : ℕ) (lines : List Text) (r r' : EventReplay F)
      → IsReplayed r
      → replay_lines q python loads index lines r ≡ ok r'
      → IsReplayed r'
  unfolding replay_lines
  replay_lines-IsReplayed loads index [] r r' i e =
      let same : r ≡ r' = ground arith in subst IsReplayed same i
  replay_lines-IsReplayed loads index (line ∷ lines) r r' i e =
      let (event, e₁, h₁) = >>=-eq-ok (read_event loads index line) _ e in
      let (next, e₂, h₂) = >>=-eq-ok (replay_event q python index event r) _ h₁ in
      replay_lines-IsReplayed loads (index + 1) lines next r'
        (replay_event-IsReplayed index event r next i e₂) h₂

  -- Where the replay of an event stream returns, the events it counts are its resource events and
  -- its operation events, the resources of its controller are as many as the resource events and
  -- the results as many as the operation events, the executed operations and the decisions of the
  -- controller are those of the results in order, and the resources and what is remembered of them
  -- are consistent.
  pub replay_event_stream-IsReplayed :
      (loads : Text → Result (Value F)) (lines : List Text) (r : EventReplay F)
      → replay_event_stream q python loads lines ≡ ok r
      → IsReplayed r
  unfolding replay_event_stream initial collected perform_all
  replay_event_stream-IsReplayed loads lines r e =
      replay_lines-IsReplayed loads 1 lines new_replay r
        (record {
          consistent = perform_all-IsConsistent q python [];
          events = refl;
          resources = refl;
          operations = refl;
          executed = refl;
          decisions = refl;
        })
        e
