-- ===== src/Runtime/Parsing/Entries.antt =====
-- What resources and operations are like that `parse_resource` and `parse_operation` of
-- fluidgateway/runtime.py return.
use fluid_gateway.Common.{
  ◌≡◌, ◌≢◌, refl, subst, Bool-cases, Option-cases, ◌⊎◌, inl, inr, true, false, not, ◌||◌, Option,
  none, some, List, [], ◌∷◌, ◌++◌, arith,
}
use fluid_gateway.Wire.Errors.{Text, ok, say, >>=-eq-ok}
use fluid_gateway.Wire.Texts.{strip}
use fluid_gateway.Runtime.Data.{Resource, Operation, is_member}
use fluid_gateway.Json.{Value, get, object, null, foreign, boolean, whole, number, text, sequence}
use fluid_gateway.Runtime.Parsing.{
  Python, memory_layers, resource_types, normalized_choice, float_of, bad_number,
  nonnegative_number, required_id, resource_of, parse_resource, operation_of, parse_operation,
  text_or, choice_text, is_boolean, id_or, new_resource, new_operation, text_items, frame_of_value,
}

id_or-nonempty : (message t id : Text) → id_or message t ≡ ok id → id ≢ []
unfolding id_or
id_or-nonempty message [] id h e = cc
id_or-nonempty message (c ∷ cs) id h e = cc

module _ {F : Type 0} (python : Python F) where
  -- A number that is no obstacle to the planner: 0.0, or finite and not negative.
  abbrev pub IsAmount : F → Type 0
  IsAmount x = (x ≡ python.zero) ⊎ ((python.is_finite x ≡ true) × (python.is_negative x ≡ false))

  pub record IsResource (r : Resource F) : Type 0 where
    pub id : r.id ≢ []
    pub kind : is_member r.kind resource_types ≡ true
    pub memory : is_member r.memory memory_layers ≡ true
    pub size_mb : IsAmount r.size_mb

  pub record IsOperation (o : Operation F) : Type 0 where
    pub id : o.id ≢ []
    pub cost_ms : IsAmount o.cost_ms
    pub size_mb : IsAmount o.size_mb

  normalized_choice-member :
      (value : Option (Value F)) (allowed : List Text) (default : Text)
      → is_member default allowed ≡ true
      → is_member (normalized_choice python value allowed default) allowed ≡ true
  unfolding normalized_choice
  normalized_choice-member value allowed default h =
      elim (Bool-cases (is_member (choice_text python default value) allowed)) [
        | inl e ↦ rw e e
        | inr e ↦ rw e h
      ]

  float_of-IsAmount :
      (value : Value F) (name : Text) (x : F) → float_of python value name ≡ ok x → IsAmount x
  unfolding float_of bad_number
  float_of-IsAmount value name x h = elim (Option-cases (python.to_float value)) [
    | inl e ↦ absurd (ground arith)
    | inr (y, e) ↦
        elim (Bool-cases
          (is_boolean python value || (not (python.is_finite y) || python.is_negative y))) [
            | inl bad ↦ absurd (ground arith)
            | inr good ↦
                let same : y ≡ x = ground arith in
                subst IsAmount same (inr (ground arith, ground arith))
          ]
  ]

  nonnegative_number-IsAmount :
      (value : Option (Value F)) (name : Text) (x : F)
      → nonnegative_number python value name ≡ ok x
      → IsAmount x
  unfolding nonnegative_number
  nonnegative_number-IsAmount none name x h = inl (ground arith)
  nonnegative_number-IsAmount (some null) name x h = inl (ground arith)
  nonnegative_number-IsAmount (some foreign) name x h = float_of-IsAmount foreign name x h
  nonnegative_number-IsAmount (some (boolean b)) name x h = float_of-IsAmount (boolean b) name x h
  nonnegative_number-IsAmount (some (whole n)) name x h = float_of-IsAmount (whole n) name x h
  nonnegative_number-IsAmount (some (number n)) name x h = float_of-IsAmount (number n) name x h
  nonnegative_number-IsAmount (some (text t)) name x h = float_of-IsAmount (text t) name x h
  nonnegative_number-IsAmount (some (sequence vs)) name x h =
      float_of-IsAmount (sequence vs) name x h
  nonnegative_number-IsAmount (some (object fs)) name x h = float_of-IsAmount (object fs) name x h

  required_id-nonempty :
      (value : Option (Value F)) (message id : Text)
      → required_id python value message ≡ ok id
      → id ≢ []
  unfolding required_id
  required_id-nonempty value message id h =
      id_or-nonempty message (strip (text_or python [] value)) id h

  pub parse_resource-IsResource :
      (value : Value F) (r : Resource F) → parse_resource python value ≡ ok r → IsResource r
  unfolding parse_resource resource_of memory_layers resource_types say
  parse_resource-IsResource (object payload) r h =
      let (id, e, h₁) =
        >>=-eq-ok (required_id python (get (say "id") payload) (say "Resource id is required.")) _
          h in
      let (aliases, e₁, h₂) =
        >>=-eq-ok
          (text_items python (get (say "aliases") payload)
            (say "Resource " ++ (id ++ say " aliases must be a list.")))
          _ h₁ in
      let (size_mb, e₂, h₃) =
        >>=-eq-ok (nonnegative_number python (get (say "size_mb") payload) (say "size_mb")) _ h₂ in
      let nonempty = required_id-nonempty _ _ id e in
      let amount = nonnegative_number-IsAmount _ _ size_mb e₂ in
      let same : new_resource python payload id aliases size_mb ≡ r = ground arith in
      subst IsResource same (record {
        id = nonempty;
        kind = normalized_choice-member _ resource_types (say "unknown") refl;
        memory = normalized_choice-member _ memory_layers (say "ram") refl;
        size_mb = amount;
      })
  parse_resource-IsResource null r h = cc
  parse_resource-IsResource foreign r h = cc
  parse_resource-IsResource (boolean b) r h = cc
  parse_resource-IsResource (whole n) r h = cc
  parse_resource-IsResource (number n) r h = cc
  parse_resource-IsResource (text t) r h = cc
  parse_resource-IsResource (sequence vs) r h = cc

  pub parse_operation-IsOperation :
      (value : Value F) (o : Operation F) → parse_operation python value ≡ ok o → IsOperation o
  unfolding parse_operation operation_of
  parse_operation-IsOperation (object payload) o h =
      let (id, e, h₁) =
        >>=-eq-ok (required_id python (get (say "id") payload) (say "Operation id is required.")) _
          h in
      let (depends_on, e₁, h₂) =
        >>=-eq-ok
          (text_items python (get (say "depends_on") payload)
            (say "Operation " ++ (id ++ say " depends_on must be a list.")))
          _ h₁ in
      let (cost_ms, e₂, h₃) =
        >>=-eq-ok (nonnegative_number python (get (say "cost_ms") payload) (say "cost_ms")) _ h₂ in
      let (size_mb, e₃, h₄) =
        >>=-eq-ok (nonnegative_number python (get (say "size_mb") payload) (say "size_mb")) _ h₃ in
      let (frame, e₄, h₅) = >>=-eq-ok (frame_of_value python (get (say "frame") payload)) _ h₄ in
      let nonempty = required_id-nonempty _ _ id e in
      let cost = nonnegative_number-IsAmount _ _ cost_ms e₂ in
      let size = nonnegative_number-IsAmount _ _ size_mb e₃ in
      let same : new_operation python payload id depends_on cost_ms size_mb frame ≡ o =
        ground arith in
      subst IsOperation same (record { id = nonempty; cost_ms = cost; size_mb = size })
  parse_operation-IsOperation null r h = cc
  parse_operation-IsOperation foreign r h = cc
  parse_operation-IsOperation (boolean b) r h = cc
  parse_operation-IsOperation (whole n) r h = cc
  parse_operation-IsOperation (number n) r h = cc
  parse_operation-IsOperation (text t) r h = cc
  parse_operation-IsOperation (sequence vs) r h = cc
