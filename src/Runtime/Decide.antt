-- ===== src/Runtime/Decide.antt =====
-- `decide_operation`, `is_transient_reason` and `validate_manifest` of fluidgateway/runtime.py.
use fluid_gateway.Common.{
  Bool, true, false, not, ◌&&◌, ◌||◌, Option, none, some, List, [], ◌∷◌, ◌++◌, any, all, length,
  ◌==◌, if◌then◌else◌,
}
use fluid_gateway.Wire.Errors.{Text, say}
use fluid_gateway.Message.Enum.{OperationType, copy, sync, allocate, upload, present, compute, draw}
use fluid_gateway.Runtime.Data.{
  Quantity, Resource, Operation, Policy, eliminate_self_copy, collapse_aliased_resource_copy,
  deduplicate_identical_transfer, remove_orphan_sync, remove_empty_sync, reuse_transient_buffer,
  Action, remove, reuse, Decision, same_text, same_name, same_frame, is_member, lookup,
}

abbrev starts_with : Text → Text → Bool
starts_with [] text = true
starts_with (c ∷ cs) [] = false
starts_with (c ∷ cs) (d ∷ ds) = c == d && starts_with cs ds

-- `token in text`
unfoldable pub contains : Text → Text → Bool
contains token [] = starts_with token []
contains token (c ∷ cs) = starts_with token (c ∷ cs) || contains token cs

-- `is_transient_reason`; `str.lower` is an argument
unfoldable pub is_transient_reason : (Text → Text) → Text → Bool
is_transient_reason lower reason =
    let text = lower reason in
    contains (say "transient") text
    || (contains (say "scratch") text
        || (contains (say "temporary") text || contains (say "staging") text))

-- `set(left) & set(right)` is not empty
abbrev pub shares : List Text → List Text → Bool
shares left right = any (λ alias. is_member alias right) left

module _ {N : Type 0} (q : Quantity N) where
  -- `resources.get(name)` for a name that may be None
  unfoldable pub find_resource : List (Text × Resource N) → Option Text → Option (Resource N)
  find_resource resources none = none
  find_resource resources (some name) = lookup (same_text name) resources

  unfoldable pub last_copy : List (Text × Operation N) → Option Text → Option (Operation N)
  last_copy copies none = lookup (same_text []) copies
  last_copy copies (some target) = lookup (same_text target) copies

  unfoldable pub active_buffer :
      List ((Option Text × N) × Operation N) → Option Text → N → Option (Operation N)
  active_buffer buffers target size =
      lookup (λ (name, size'). same_name target name && q.same size size') buffers

  abbrev pub decision : Operation N → Action → Policy → N → N → Decision N
  decision o action policy ms mb = record {
    operation_id = o.id;
    action = action;
    policy = policy;
    estimated_saved_ms = ms;
    estimated_saved_mb = mb;
  }

  -- The previous transfer did the same.
  abbrev pub repeats : Operation N → Operation N → Bool
  repeats previous o =
      same_name previous.source o.source
      && (q.same previous.size_mb o.size_mb
          && (same_frame previous.frame o.frame && same_text previous.queue o.queue))

  unfoldable pub decide_duplicate : Operation N → Option (Operation N) → Option (Decision N)
  decide_duplicate o none = none
  decide_duplicate o (some previous) =
      if repeats previous o
      then some (decision o remove deduplicate_identical_transfer o.cost_ms o.size_mb)
      else none

  unfoldable pub decide_transfer :
      Operation N
      → Option (Resource N)
      → Option (Resource N)
      → Option (Operation N)
      → Option (Decision N)
  decide_transfer o (some source) (some target) previous =
      if same_name o.source o.target
      then some (decision o remove eliminate_self_copy o.cost_ms o.size_mb)
      else if same_text target.memory source.memory && shares target.aliases source.aliases
      then some (decision o remove collapse_aliased_resource_copy o.cost_ms o.size_mb)
      else decide_duplicate o previous
  decide_transfer o _ _ previous = none

  unfoldable pub decide_sync : Operation N → List Text → Option (Decision N)
  decide_sync o removed_ids =
      if not (length o.depends_on == 0) && all (λ dep. is_member dep removed_ids) o.depends_on
      then some (decision o remove remove_orphan_sync o.cost_ms q.nothing)
      else if q.is_nothing o.cost_ms && length o.depends_on == 0
      then some (decision o remove remove_empty_sync q.nothing q.nothing)
      else none

  unfoldable pub decide_allocate :
      (Text → Text) → Operation N → Option (Operation N) → Option (Decision N)
  decide_allocate lower o none = none
  decide_allocate lower o (some previous) =
      if same_frame previous.frame o.frame && is_transient_reason lower o.reason
      then some (decision o reuse reuse_transient_buffer o.cost_ms o.size_mb)
      else none

  -- The branches of `decide_operation` for each type of operation.
  unfoldable pub decide_as :
      OperationType
      → (Text → Text)
      → Operation N
      → List (Text × Resource N)
      → List (Text × Operation N)
      → List ((Option Text × N) × Operation N)
      → List Text
      → Option (Decision N)
  decide_as copy lower o resources copies buffers removed_ids =
      decide_transfer o (find_resource resources o.source) (find_resource resources o.target)
        (last_copy copies o.target)
  decide_as upload lower o resources copies buffers removed_ids =
      decide_transfer o (find_resource resources o.source) (find_resource resources o.target)
        (last_copy copies o.target)
  decide_as sync lower o resources copies buffers removed_ids = decide_sync o removed_ids
  decide_as allocate lower o resources copies buffers removed_ids =
      decide_allocate lower o (active_buffer buffers o.target o.size_mb)
  decide_as present lower o resources copies buffers removed_ids = none
  decide_as compute lower o resources copies buffers removed_ids = none
  decide_as draw lower o resources copies buffers removed_ids = none

  -- `decide_operation`
  unfoldable pub decide_operation :
      (Text → Text)
      → Operation N
      → List (Text × Resource N)
      → List (Text × Operation N)
      → List ((Option Text × N) × Operation N)
      → List Text
      → Option (Decision N)
  decide_operation lower o = decide_as o.type lower o

  -- `validate_manifest`, on one reference of an operation
  unfoldable pub check_reference : List (Text × Resource N) → Text → Text → Option Text → List Text
  check_reference resources id role none = []
  check_reference resources id role (some []) = []
  check_reference resources id role (some (c ∷ cs)) = elim (lookup (same_text (c ∷ cs)) resources) [
    | some resource ↦ []
    | none ↦
        (say "Operation "
          ++ (id
              ++ (say " references unknown "
                  ++ (role ++ (say " resource " ++ ((c ∷ cs) ++ say "."))))))
        ∷ []
  ]

  unfoldable pub check_operations : List (Text × Resource N) → List (Operation N) → List Text
  check_operations resources [] = []
  check_operations resources (o ∷ os) =
      check_reference resources o.id (say "source") o.source
      ++ (check_reference resources o.id (say "target") o.target ++ check_operations resources os)

  -- `validate_manifest`
  unfoldable pub validate_manifest : List (Text × Resource N) → List (Operation N) → List Text
  validate_manifest resources [] = say "Manifest contains no operations." ∷ []
  validate_manifest resources (o ∷ os) = check_operations resources (o ∷ os)
