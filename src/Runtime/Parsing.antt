-- ===== src/Runtime/Parsing.antt =====
-- `load_manifest` of fluidgateway/runtime.py from the decoded file on, with `parse_resource`,
-- `parse_operation` and their helpers. `str`, `int`, `float` and `str.lower` are parameters.
pub mod Entries
pub mod Keyed
use fluid_gateway.Common.{
  ℕ, ℤ, pos, negsuc, Bool, true, false, not, ◌&&◌, ◌||◌, Option, none, some, List, [], ◌∷◌, ◌++◌,
  ◌==◌, if◌then◌else◌,
}
use fluid_gateway.Frame.{is_some}
use fluid_gateway.Wire.Errors.{Text, Result, ok, err, other, raise, say, ◌>>=◌}
use fluid_gateway.Wire.Texts.{strip}
use fluid_gateway.Message.Enum.{OperationType}
use fluid_gateway.Runtime.Data.{Resource, Operation, same_text, is_member, lookup}
use fluid_gateway.Runtime.State.{Manifest}
use fluid_gateway.Json.{
  Value, Values, Fields, null, foreign, boolean, whole, number, text, sequence, object, nil, item,
  end, field, get,
}

-- What the code uses of Python: `str(value)`, `value.lower()`, `int(value)` and `float(value)`, which
-- may raise, whether a float is 0 and whether an object outside JSON is true, `math.isfinite`, `x < 0`
-- and 0.0.
pub record Python (F : Type 0) : Type 0 where
  pub to_text : Value F → Text
  pub lower : Text → Text
  pub to_int : Value F → Result ℤ
  pub to_float : Value F → Option F
  pub is_zero : F → Bool
  pub foreign_is_true : Bool
  pub is_finite : F → Bool
  pub is_negative : F → Bool
  pub zero : F

abbrev pub value_error {ℓ} : {A : Type ℓ} → Text → Result A
value_error = raise other

abbrev is_empty : Text → Bool
is_empty [] = true
is_empty (c ∷ cs) = false

unfoldable pub id_or : Text → Text → Result Text
id_or message [] = value_error message
id_or message (c ∷ cs) = ok (c ∷ cs)

unfoldable pub memory_layers : List Text
memory_layers =
    say "ram" ∷ say "vram" ∷ say "shared" ∷ say "staging" ∷ say "swapchain" ∷ say "display" ∷ []

unfoldable pub resource_types : List Text
resource_types =
    say "buffer" ∷ say "texture" ∷ say "framebuffer" ∷ say "command" ∷ say "unknown" ∷ []

-- OPERATION_TYPES
unfoldable pub operation_types : List (Text × OperationType)
operation_types =
    (say "copy", OperationType.copy)
    ∷ (say "sync", OperationType.sync)
    ∷ (say "allocate", OperationType.allocate)
    ∷ (say "upload", OperationType.upload)
    ∷ (say "present", OperationType.present)
    ∷ (say "compute", OperationType.compute)
    ∷ (say "draw", OperationType.draw)
    ∷ []

module _ {F : Type 0} (python : Python F) where
  -- `bool(value)`
  unfoldable pub is_truthy : Value F → Bool
  is_truthy null = false
  is_truthy foreign = python.foreign_is_true
  is_truthy (boolean b) = b
  is_truthy (whole (pos n)) = not (n == 0)
  is_truthy (whole (negsuc n)) = true
  is_truthy (number x) = not (python.is_zero x)
  is_truthy (text t) = not (is_empty t)
  is_truthy (sequence nil) = false
  is_truthy (sequence (item v vs)) = true
  is_truthy (object end) = false
  is_truthy (object (field k v fs)) = true

  -- `str(value or default)`
  unfoldable pub text_or : Text → Option (Value F) → Text
  text_or default none = default
  text_or default (some value) = if is_truthy value then python.to_text value else default

  -- `str(value or default).strip().lower()`
  unfoldable pub choice_text : Text → Option (Value F) → Text
  choice_text default value = python.lower (strip (text_or default value))

  -- `normalized_choice`
  unfoldable pub normalized_choice : Option (Value F) → List Text → Text → Text
  normalized_choice value allowed default =
      let t = choice_text default value in if is_member t allowed then t else default

  -- The same for the type of an operation.
  unfoldable pub operation_type : Option (Value F) → OperationType
  operation_type value =
      elim (lookup (same_text (choice_text (say "compute") value)) operation_types) [
        | none ↦ OperationType.compute
        | some type ↦ type
      ]

  unfoldable pub bad_number : Text → Result F
  bad_number name = value_error (name ++ say " must be a finite nonnegative number.")

  unfoldable pub is_boolean : Value F → Bool
  is_boolean (boolean b) = true
  is_boolean _ = false

  -- `float(value)` and the test of what it gives.
  unfoldable pub float_of : Value F → Text → Result F
  float_of value name = elim (python.to_float value) [
    | none ↦ bad_number name
    | some result ↦
        if is_boolean value || (not (python.is_finite result) || python.is_negative result)
        then bad_number name
        else ok result
  ]

  -- `nonnegative_number`
  unfoldable pub nonnegative_number : Option (Value F) → Text → Result F
  nonnegative_number none name = ok python.zero
  nonnegative_number (some null) name = ok python.zero
  nonnegative_number (some value) name = float_of value name

  unfoldable pub nonempty : Text → Option Text
  nonempty [] = none
  nonempty (c ∷ cs) = some (c ∷ cs)

  -- `optional_text`
  unfoldable pub optional_text : Option (Value F) → Option Text
  optional_text none = none
  optional_text (some null) = none
  optional_text (some value) = nonempty (strip (python.to_text value))

  unfoldable pub texts_of : Values F → List Text
  texts_of nil = []
  texts_of (item v vs) = python.to_text v ∷ texts_of vs

  unfoldable pub as_list : Value F → Text → Result (List Text)
  as_list (sequence vs) message = ok (texts_of vs)
  as_list _ message = value_error message

  -- `[str(item) for item in value or []]`, for a value that must be a list then
  unfoldable pub text_items : Option (Value F) → Text → Result (List Text)
  text_items none message = ok []
  text_items (some value) message = if is_truthy value then as_list value message else ok []

  -- `str(payload.get("id") or "").strip()`, which must not be empty
  unfoldable pub required_id : Option (Value F) → Text → Result Text
  required_id value message = id_or message (strip (text_or [] value))

  abbrev pub new_resource : Fields F → Text → List Text → F → Resource F
  new_resource payload id aliases size_mb = record {
    id = id;
    kind = normalized_choice (get (say "kind") payload) resource_types (say "unknown");
    memory = normalized_choice (get (say "memory") payload) memory_layers (say "ram");
    size_mb = size_mb;
    lifetime = text_or (say "unknown") (get (say "lifetime") payload);
    aliases = aliases;
  }

  unfoldable pub resource_of : Fields F → Text → Result (Resource F)
  resource_of payload id = do
    aliases ←
        text_items (get (say "aliases") payload)
          (say "Resource " ++ (id ++ say " aliases must be a list."))
    size_mb ← nonnegative_number (get (say "size_mb") payload) (say "size_mb")
    ok (new_resource payload id aliases size_mb)

  -- `parse_resource`
  unfoldable pub parse_resource : Value F → Result (Resource F)
  parse_resource (object payload) = do
    id ← required_id (get (say "id") payload) (say "Resource id is required.")
    resource_of payload id
  parse_resource _ = value_error (say "Resource entries must be objects.")

  -- `int(frame) if frame is not None else None`
  unfoldable pub frame_of_value : Option (Value F) → Result (Option ℤ)
  frame_of_value none = ok none
  frame_of_value (some null) = ok none
  frame_of_value (some value) = python.to_int value >>= λ n. ok (some n)

  abbrev pub new_operation : Fields F → Text → List Text → F → F → Option ℤ → Operation F
  new_operation payload id depends_on cost_ms size_mb frame = record {
    id = id;
    type = operation_type (get (say "type") payload);
    source = optional_text (get (say "source") payload);
    target = optional_text (get (say "target") payload);
    queue = text_or (say "unknown") (get (say "queue") payload);
    reason = text_or [] (get (say "reason") payload);
    cost_ms = cost_ms;
    size_mb = size_mb;
    frame = frame;
    depends_on = depends_on;
  }

  unfoldable pub operation_of : Fields F → Text → Result (Operation F)
  operation_of payload id = do
    depends_on ←
        text_items (get (say "depends_on") payload)
          (say "Operation " ++ (id ++ say " depends_on must be a list."))
    cost_ms ← nonnegative_number (get (say "cost_ms") payload) (say "cost_ms")
    size_mb ← nonnegative_number (get (say "size_mb") payload) (say "size_mb")
    frame ← frame_of_value (get (say "frame") payload)
    ok (new_operation payload id depends_on cost_ms size_mb frame)

  -- `parse_operation`
  unfoldable pub parse_operation : Value F → Result (Operation F)
  parse_operation (object payload) = do
    id ← required_id (get (say "id") payload) (say "Operation id is required.")
    operation_of payload id
  parse_operation _ = value_error (say "Operation entries must be objects.")

  -- The loop over the resources; the dict so far is an argument.
  unfoldable pub parse_resources :
      Values F → List (Text × Resource F) → Result (List (Text × Resource F))
  parse_resources nil resources = ok resources
  parse_resources (item value values) resources = do
    resource ← parse_resource value
    if is_some (lookup (same_text resource.id) resources)
        then value_error (say "Duplicate resource id: " ++ resource.id)
        else parse_resources values (resources ++ (resource.id, resource) ∷ [])

  unfoldable pub parse_operations : Values F → Result (List (Operation F))
  parse_operations nil = ok []
  parse_operations (item value values) = do
    operation ← parse_operation value
    operations ← parse_operations values
    ok (operation ∷ operations)

  -- `payload.get(key, [])`, which must be a list
  unfoldable pub list_field : Text → Fields F → Result (Values F)
  list_field key payload = elim (get key payload) [
    | none ↦ ok nil
    | some (sequence values) ↦ ok values
    | some _ ↦ value_error (say "Runtime manifest field '" ++ (key ++ say "' must be a list."))
  ]

  -- `load_manifest`, on what json.loads makes of the file, and the stem of its name
  unfoldable pub load_manifest : Text → Value F → Result (Manifest F)
  load_manifest stem (object payload) = do
    resources_payload ← list_field (say "resources") payload
    operations_payload ← list_field (say "operations") payload
    resources ← parse_resources resources_payload []
    operations ← parse_operations operations_payload
    ok (record {
      name = text_or stem (get (say "name") payload);
      resources = resources;
      operations = operations;
    })
  load_manifest stem _ = value_error (say "Runtime manifest must be a JSON object.")
