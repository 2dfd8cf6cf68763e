-- ===== src/Runtime/Controller/Passed.antt =====
-- What `parse_operation` and `parse_resource` of fluidgateway/runtime.py read of the dicts that
-- `submit_operation` and `register_resource` of fluidgateway/control.py pass to them.
use fluid_gateway.Common.{ℤ, ◌≡◌, ◌≢◌, refl, ap, true, false, Option, none, some, List, [], ◌∷◌}
use fluid_gateway.Wire.Errors.{Text, ok, say}
use fluid_gateway.Wire.Texts.{strip}
use fluid_gateway.Message.Enum.{OperationType}
use fluid_gateway.Json.{text, number, whole, get}
use fluid_gateway.Runtime.Data.{Resource, Operation, same_text, lookup, is_member}
use fluid_gateway.Runtime.Parsing.{
  Python, parse_resource, parse_operation, resource_types, memory_layers, operation_types,
  required_id, text_or, choice_text, normalized_choice, operation_type, optional_text, text_items,
  texts_of, nonnegative_number, float_of, frame_of_value, nonempty, id_or, is_truthy, is_boolean,
  resource_of, operation_of,
}
use fluid_gateway.Runtime.Controller.{
  Registration, Submission, registration_payload, submission_payload, text_values, names_or_none,
  text_or_null, whole_or_null,
}

unfoldable pub type_name : OperationType → Text
type_name OperationType.copy = say "copy"
type_name OperationType.sync = say "sync"
type_name OperationType.allocate = say "allocate"
type_name OperationType.upload = say "upload"
type_name OperationType.present = say "present"
type_name OperationType.compute = say "compute"
type_name OperationType.draw = say "draw"

-- What Python makes of a text, a float and an int, and of the names in the program, which are in
-- lower case.
pub record Reads {F : Type 0} (python : Python F) : Type 0 where
  pub texts : (t : Text) → python.to_text (text t) ≡ t
  pub floats : (x : F) → python.to_float (number x) ≡ some x
  pub wholes : (n : ℤ) → python.to_int (whole n) ≡ ok n
  pub kinds : (t : Text) → is_member t resource_types ≡ true → python.lower t ≡ t
  pub memories : (t : Text) → is_member t memory_layers ≡ true → python.lower t ≡ t
  pub types : (type : OperationType) → python.lower (type_name type) ≡ type_name type

-- A name without space around it.
abbrev pub IsName : Text → Type 0
IsName t = (t ≢ []) × (strip t ≡ t)

abbrev pub IsNameOrNone : Option Text → Type 0
IsNameOrNone none = Unit
IsNameOrNone (some t) = IsName t

-- The arguments that name an operation and a resource as they are.
abbrev pub submission_of : {F : Type 0} → Operation F → Submission F
submission_of o = record {
  operation_id = o.id;
  operation_type = type_name o.type;
  source = o.source;
  target = o.target;
  queue = o.queue;
  reason = o.reason;
  cost_ms = number o.cost_ms;
  size_mb = number o.size_mb;
  frame = o.frame;
  depends_on = some o.depends_on;
}

abbrev pub registration_of : {F : Type 0} → Resource F → Registration F
registration_of r = record {
  resource_id = r.id;
  kind = r.kind;
  memory = r.memory;
  size_mb = number r.size_mb;
  lifetime = r.lifetime;
  aliases = some r.aliases;
}

module _ {F : Type 0} (python : Python F) where
  abbrev IsFinite : F → Type 0
  IsFinite x = (python.is_finite x ≡ true) × (python.is_negative x ≡ false)

  pub record IsPlainOperation (o : Operation F) : Type 0 where
    pub id : IsName o.id
    pub source : IsNameOrNone o.source
    pub target : IsNameOrNone o.target
    pub queue : o.queue ≢ []
    pub cost_ms : IsFinite o.cost_ms
    pub size_mb : IsFinite o.size_mb

  pub record IsPlainResource (r : Resource F) : Type 0 where
    pub id : IsName r.id
    pub kind : IsName r.kind
    pub known_kind : is_member r.kind resource_types ≡ true
    pub memory : IsName r.memory
    pub known_memory : is_member r.memory memory_layers ≡ true
    pub size_mb : IsFinite r.size_mb
    pub lifetime : r.lifetime ≢ []

  module _ (reads : Reads python) where
    text_or-text : (default t : Text) → t ≢ [] → text_or python default (some (text t)) ≡ t
    unfolding text_or is_truthy
    text_or-text default [] h = absurd (h refl)
    text_or-text default (c ∷ cs) h = reads.texts (c ∷ cs)

    text_or-nil : (t : Text) → text_or python [] (some (text t)) ≡ t
    unfolding text_or is_truthy
    text_or-nil [] = refl
    text_or-nil (c ∷ cs) = reads.texts (c ∷ cs)

    id_or-name : (message t : Text) → t ≢ [] → id_or message t ≡ ok t
    unfolding id_or
    id_or-name message [] h = absurd (h refl)
    id_or-name message (c ∷ cs) h = refl

    required_id-text :
        (message t : Text) → IsName t → required_id python (some (text t)) message ≡ ok t
    unfolding required_id
    required_id-text message t (filled, bare) =
        rw (text_or-nil t, bare) (id_or-name message t filled)

    nonempty-name : (t : Text) → t ≢ [] → nonempty python t ≡ some t
    unfolding nonempty
    nonempty-name [] h = absurd (h refl)
    nonempty-name (c ∷ cs) h = refl

    optional_text-or_null :
        (name : Option Text)
        → IsNameOrNone name
        → optional_text python (some (text_or_null name)) ≡ name
    unfolding optional_text text_or_null
    optional_text-or_null none h = refl
    optional_text-or_null (some t) (filled, bare) =
        rw (reads.texts t, bare) (nonempty-name t filled)

    texts_of-text_values : (ts : List Text) → texts_of python (text_values ts) ≡ ts
    unfolding texts_of text_values
    texts_of-text_values [] = refl
    texts_of-text_values (t ∷ ts) = rw (reads.texts t, texts_of-text_values ts) refl

    text_items-names :
        (ts : List Text) (message : Text)
        → text_items python (some (names_or_none (some ts))) message ≡ ok ts
    unfolding text_items names_or_none text_values is_truthy fluid_gateway.Runtime.Parsing.as_list
    text_items-names [] message = refl
    text_items-names (t ∷ ts) message = ap ok (texts_of-text_values (t ∷ ts))

    nonnegative_number-number :
        (x : F) (name : Text) → IsFinite x → nonnegative_number python (some (number x)) name ≡ ok x
    unfolding nonnegative_number float_of is_boolean
    nonnegative_number-number x name (finite, signless) =
        rw (float_of, reads.floats x, finite, signless) refl

    frame_of_value-whole :
        (frame : Option ℤ) → frame_of_value python (some (whole_or_null frame)) ≡ ok frame
    unfolding frame_of_value whole_or_null
    frame_of_value-whole none = refl
    frame_of_value-whole (some n) = rw (reads.wholes n) refl

    choice_text-text :
        (default t : Text)
        → IsName t
        → python.lower t ≡ t
        → choice_text python default (some (text t)) ≡ t
    unfolding choice_text
    choice_text-text default t (filled, bare) small =
        rw (choice_text, text_or-text default t filled, bare, small) refl

    normalized_choice-text :
        (t default : Text) (allowed : List Text)
        → IsName t
        → python.lower t ≡ t
        → is_member t allowed ≡ true
        → normalized_choice python (some (text t)) allowed default ≡ t
    unfolding normalized_choice
    normalized_choice-text t default allowed name small known =
        rw (choice_text-text default t name small, known) refl

    type_name-IsName : (type : OperationType) → IsName (type_name type)
    unfolding type_name say strip fluid_gateway.Wire.Texts.is_space
    type_name-IsName OperationType.copy = (λ e. cc, refl)
    type_name-IsName _ = (λ e. cc, refl)

    listed_type :
        (type : OperationType)
        → elim (lookup (same_text (type_name type)) operation_types) [
          | none ↦ OperationType.compute
          | some type ↦ type
        ]
          ≡ type
    unfolding type_name operation_types say lookup
    listed_type OperationType.copy = refl
    listed_type _ = refl

    operation_type-type_name :
        (type : OperationType) → operation_type python (some (text (type_name type))) ≡ type
    unfolding operation_type
    operation_type-type_name type =
        rw
          (
            operation_type,
            choice_text-text (say "compute") (type_name type) (type_name-IsName type)
                (reads.types type),
          )
          (listed_type type)

    -- The dict of a submission is read as the operation that it names.
    pub parse_operation-submission_payload :
        (o : Operation F)
        → IsPlainOperation o
        → parse_operation python (submission_payload (submission_of o)) ≡ ok o
    unfolding parse_operation operation_of submission_payload get say
    parse_operation-submission_payload o plain =
        rw
          (
            required_id-text _ o.id plain.id,
            text_items-names o.depends_on _,
            nonnegative_number-number o.cost_ms _ plain.cost_ms,
            nonnegative_number-number o.size_mb _ plain.size_mb,
            frame_of_value-whole o.frame,
            operation_type-type_name o.type,
            optional_text-or_null o.source plain.source,
            optional_text-or_null o.target plain.target,
            text_or-text _ o.queue plain.queue,
            text_or-nil o.reason,
          )
          refl

    -- The dict of a registration is read as the resource that it names.
    pub parse_resource-registration_payload :
        (r : Resource F)
        → IsPlainResource r
        → parse_resource python (registration_payload (registration_of r)) ≡ ok r
    unfolding parse_resource resource_of registration_payload get say
    parse_resource-registration_payload r plain =
        rw
          (
            required_id-text _ r.id plain.id,
            text_items-names r.aliases _,
            nonnegative_number-number r.size_mb _ plain.size_mb,
            normalized_choice-text r.kind _ resource_types plain.kind
                (reads.kinds r.kind plain.known_kind) plain.known_kind,
            normalized_choice-text r.memory _ memory_layers plain.memory
                (reads.memories r.memory plain.known_memory) plain.known_memory,
            text_or-text _ r.lifetime plain.lifetime,
          )
          refl
