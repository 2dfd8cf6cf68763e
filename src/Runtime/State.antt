-- ===== src/Runtime/State.antt =====
-- `RuntimeOptimizationState` and `optimize_manifest` of fluidgateway/runtime.py.
pub mod Stepping
pub mod Held
pub mod Steady
pub mod Closed
pub mod Current
pub mod Counted
use fluid_gateway.Common.{
  ℕ, Bool, true, false, not, ◌&&◌, ◌||◌, Option, none, some, List, [], ◌∷◌, ◌++◌, map, length,
  select, if◌then◌else◌,
}
use fluid_gateway.Wire.Errors.{Text, say}
use fluid_gateway.Message.Enum.{OperationType, copy, sync, allocate, upload, present, compute, draw}
use fluid_gateway.Runtime.Data.{
  Quantity, Resource, Operation, Policy, eliminate_self_copy, collapse_aliased_resource_copy,
  deduplicate_identical_transfer, remove_orphan_sync, remove_empty_sync, reuse_transient_buffer,
  Decision, same_text, same_name, is_member, lookup,
}
use fluid_gateway.Runtime.Decide.{find_resource, active_buffer, decide_operation, validate_manifest}
use fluid_gateway.Runtime.Invalidation.{invalidate}

-- `RuntimeOptimizationState`
pub record State (N : Type 0) : Type 0 where
  pub resources : List (Text × Resource N)
  pub last_copy_by_target : List (Text × Operation N)
  pub active_buffers : List ((Option Text × N) × Operation N)
  pub replacements : List (Text × List Text)
  pub removed_ids : List Text
  pub operation_ids : List Text

-- `d[key] = value` for a dict: the value of a key that is there is replaced.
module _ {V : Type 0} where
  unfoldable pub store : Text → V → List (Text × V) → List (Text × V)
  store key value [] = (key, value) ∷ []
  store key value ((k, v) ∷ rest) =
      let stored = store key value rest in
      if same_text key k then (k, value) ∷ rest else (k, v) ∷ stored

  unfoldable pub discard : Text → List (Text × V) → List (Text × V)
  discard key = select (λ (k, v). not (same_text key k))

-- `list(dict.fromkeys(names))`
unfoldable pub unique : List Text → List Text
unique [] = []
unique (name ∷ names) = name ∷ select (λ n. not (same_text name n)) (unique names)

-- `self.replacements.get(dependency, [dependency])` for each dependency, in one list
unfoldable pub replaced : List (Text × List Text) → List Text → List Text
replaced replacements [] = []
replaced replacements (dependency ∷ rest) =
    elim (lookup (same_text dependency) replacements) [
      | some names ↦ names
      | none ↦ dependency ∷ []
    ]
    ++ replaced replacements rest

unfoldable pub dependencies_of : List (Text × List Text) → List Text → List Text
dependencies_of replacements depends_on = unique (replaced replacements depends_on)

-- `if type in {"copy", "upload", "allocate", "compute", "draw"}`
unfoldable pub writes : OperationType → Bool
writes copy = true
writes upload = true
writes allocate = true
writes compute = true
writes draw = true
writes sync = false
writes present = false

unfoldable pub is_transfer : OperationType → Bool
is_transfer copy = true
is_transfer upload = true
is_transfer allocate = false
is_transfer compute = false
is_transfer draw = false
is_transfer sync = false
is_transfer present = false

unfoldable pub is_allocation : OperationType → Bool
is_allocation allocate = true
is_allocation copy = false
is_allocation upload = false
is_allocation compute = false
is_allocation draw = false
is_allocation sync = false
is_allocation present = false

-- What `process` does: it returns, or it raises for an id that it has seen, or for a key that a
-- dict has not.
pub data Processed (N : Type 0) : Type 0 where
  processed : State N → Operation N → Option (Decision N) → Processed N
  duplicate_id : Text → Processed N
  key_error : Processed N

module _ {N : Type 0} (q : Quantity N) where
  -- `invalidate_resource`
  unfoldable pub invalidate_resource : State N → Option Text → State N
  invalidate_resource s name = record s {
    last_copy_by_target = invalidate q s.resources name s.last_copy_by_target;
  }

  -- The loop that deletes the buffers of a resource.
  unfoldable pub drop_buffers :
      Option Text → List ((Option Text × N) × Operation N) → List ((Option Text × N) × Operation N)
  drop_buffers name = select (λ ((target, size), previous). not (same_name target name))

  -- `release_resource`
  unfoldable pub release_resource : State N → Text → State N × Option (Resource N)
  release_resource s resource_id =
      let invalidated = invalidate_resource s (some resource_id) in
      (
        record invalidated {
          active_buffers = drop_buffers (some resource_id) s.active_buffers;
          resources = discard resource_id s.resources;
        },
        lookup (same_text resource_id) s.resources,
      )

  -- `last_copy_by_target.get(name)`
  unfoldable pub copy_at : List (Text × Operation N) → Option Text → Option (Operation N)
  copy_at copies none = none
  copy_at copies (some name) = lookup (same_text name) copies

  unfoldable pub or_key_error : Option (Operation N) → Option (Option (Operation N))
  or_key_error none = none
  or_key_error (some previous) = some (some previous)

  -- `retained`, or nothing where a key is missing
  unfoldable pub retained_by : Policy → State N → Operation N → Option (Option (Operation N))
  retained_by deduplicate_identical_transfer s o =
      or_key_error (copy_at s.last_copy_by_target o.target)
  retained_by reuse_transient_buffer s o =
      or_key_error (active_buffer q s.active_buffers o.target o.size_mb)
  retained_by collapse_aliased_resource_copy s o = some (copy_at s.last_copy_by_target o.source)
  retained_by eliminate_self_copy s o = some none
  retained_by remove_orphan_sync s o = some none
  retained_by remove_empty_sync s o = some none

  unfoldable pub replacements_of : Option (Operation N) → List Text → List Text
  replacements_of none dependencies = dependencies
  replacements_of (some retained) dependencies = retained.id ∷ dependencies

  unfoldable pub add_if_empty : List Text → Text → List Text → List Text
  add_if_empty [] id removed_ids = id ∷ removed_ids
  add_if_empty (name ∷ names) id removed_ids = removed_ids

  -- The branch of `process` for a decision.
  unfoldable pub apply_decision : State N → Operation N → Option (Operation N) → State N
  apply_decision s o retained =
      let names = replacements_of retained o.depends_on in
      record s {
        replacements = store o.id (unique names) s.replacements;
        removed_ids = add_if_empty names o.id s.removed_ids;
      }

  unfoldable pub is_known : State N → Option Text → Bool
  is_known s name = elim (find_resource q s.resources name) [ some r ↦ true | none ↦ false ]

  unfoldable pub note_write : State N → Operation N → State N
  note_write s o = if writes o.type then invalidate_resource s o.target else s

  unfoldable pub store_copy :
      Option Text → Operation N → List (Text × Operation N) → List (Text × Operation N)
  store_copy none o copies = copies
  store_copy (some target) o copies = store target o copies

  unfoldable pub note_copy : State N → Operation N → State N
  note_copy s o =
      if is_transfer o.type && is_known s o.target
      then record s { last_copy_by_target = store_copy o.target o s.last_copy_by_target }
      else s

  unfoldable pub note_allocation : State N → Operation N → State N
  note_allocation s o =
      if is_allocation o.type && is_known s o.target
      then record s {
        active_buffers = drop_buffers o.target s.active_buffers ++ ((o.target, o.size_mb), o) ∷ [];
      }
      else s

  -- The branch of `process` for an operation that is kept.
  unfoldable pub keep : State N → Operation N → State N
  keep s o = note_allocation (note_copy (note_write s o) o) o

  -- The end of `process`; the operation has its new dependencies.
  unfoldable pub conclude : State N → Operation N → Option (Decision N) → Processed N
  conclude s o none = processed (keep s o) o none
  conclude s o (some decision) = elim (retained_by decision.policy s o) [
    | none ↦ key_error
    | some retained ↦ processed (apply_decision s o retained) o (some decision)
  ]

  unfoldable pub with_dependencies : State N → Operation N → Operation N
  with_dependencies s o = record o { depends_on = dependencies_of s.replacements o.depends_on }

  unfoldable pub add_id : State N → Text → State N
  add_id s id = record s { operation_ids = id ∷ s.operation_ids }

  module _ (lower : Text → Text) where
    -- `process`
    unfoldable pub process : State N → Operation N → Processed N
    process s o =
        if is_member o.id s.operation_ids
        then duplicate_id (say "Duplicate operation id: " ++ o.id)
        else conclude (add_id s o.id) (with_dependencies s o) (
            decide_operation q lower o s.resources s.last_copy_by_target s.active_buffers
              s.removed_ids)

    -- The locals of `optimize_manifest`, or the message of the ValueError that it lets through.
    pub data Optimized : Type 0 where
      optimized : State N → List (Operation N) → List (Decision N) → Optimized
      refused : Text → Optimized
      missing_key : Optimized

    -- One round of its loop, by what `process` does.
    unfoldable pub collect :
        List (Operation N)
        → List (Decision N)
        → Processed N
        → (State N → List (Operation N) → List (Decision N) → Optimized)
        → Optimized
    collect kept decisions (processed s o none) next = next s (kept ++ o ∷ []) decisions
    collect kept decisions (processed s o (some d)) next = next s kept (decisions ++ d ∷ [])
    collect kept decisions (duplicate_id message) next = refused message
    collect kept decisions key_error next = missing_key

    -- The loop of `optimize_manifest`.
    unfoldable pub optimize :
        List (Operation N) → State N → List (Operation N) → List (Decision N) → Optimized
    optimize [] s kept decisions = optimized s kept decisions
    optimize (o ∷ os) s kept decisions = collect kept decisions (process s o) (optimize os)

-- `RuntimeManifest`; `load_manifest` makes its `resources` with a key for each id
pub record Manifest (N : Type 0) : Type 0 where
  pub name : Text
  pub resources : List (Text × Resource N)
  pub operations : List (Operation N)

-- `RuntimePlan`
pub record Plan (N : Type 0) : Type 0 where
  pub mode : Text
  pub manifest_name : Text
  pub original_operations : ℕ
  pub optimized_operations : ℕ
  pub estimated_saved_ms : N
  pub estimated_saved_mb : N
  pub kept_operations : List (Operation N)
  pub decisions : List (Decision N)
  pub warnings : List Text

unfoldable pub initial : {N : Type 0} → List (Text × Resource N) → State N
initial resources = record {
  resources = resources;
  last_copy_by_target = [];
  active_buffers = [];
  replacements = [];
  removed_ids = [];
  operation_ids = [];
}

-- `sum(values)`, with the addition of the numbers
unfoldable pub total : {N : Type 0} → (N → N → N) → N → List N → N
total add start [] = start
total add start (value ∷ values) = total add (add start value) values

module _ {N : Type 0} (q : Quantity N) (lower : Text → Text) (add : N → N → N)
    (round4 : N → N) where
  unfoldable pub plan_of : Manifest N → List (Operation N) → List (Decision N) → Plan N
  plan_of manifest kept decisions = record {
    mode = say "runtime-optimizer-v0.4-manifest";
    manifest_name = manifest.name;
    original_operations = length manifest.operations;
    optimized_operations = length kept;
    estimated_saved_ms = round4 (total add q.nothing (map (λ d. d.estimated_saved_ms) decisions));
    estimated_saved_mb = round4 (total add q.nothing (map (λ d. d.estimated_saved_mb) decisions));
    kept_operations = kept;
    decisions = decisions;
    warnings = validate_manifest q manifest.resources manifest.operations;
  }

  unfoldable pub finish : Manifest N → Optimized q lower → Option (Plan N)
  finish manifest (Optimized.optimized s kept decisions) = some (plan_of manifest kept decisions)
  finish manifest (Optimized.refused message) = none
  finish manifest Optimized.missing_key = none

  -- `optimize_manifest`, or nothing where it raises
  unfoldable pub optimize_manifest : Manifest N → Option (Plan N)
  optimize_manifest manifest =
      finish manifest (optimize q lower manifest.operations (initial manifest.resources) [] [])
