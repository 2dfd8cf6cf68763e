-- ===== src/Runtime/State/Stepping.antt =====
-- What `process` (fluidgateway/runtime.py) comes to for an id that it has not seen.
use fluid_gateway.Common.{
  ◌≡◌, ◌≢◌, refl, inl, inr, Option-cases, false, ◌&&◌, Option, none, some, List, if_both, ◌∙◌,
}
use fluid_gateway.Wire.Errors.{Text}
use fluid_gateway.Runtime.Data.{Quantity, Resource, Operation, Policy, Decision, is_member}
use fluid_gateway.Runtime.Decide.{find_resource, last_copy, decide_operation}
use fluid_gateway.Runtime.Soundness.{Justifies, decide_operation-Sound}
use fluid_gateway.Runtime.State.{
  State, Processed, processed, copy_at, or_key_error, retained_by, apply_decision, note_write,
  note_copy, note_allocation, keep, conclude, with_dependencies, add_id, invalidate_resource,
  process, writes, is_transfer, is_allocation, is_known,
}

module _ {N : Type 0} (q : Quantity N) where
  -- Keeping an operation leaves the ids alone.
  pub keep_ids : (s : State N) (o : Operation N) → (keep q s o).operation_ids ≡ s.operation_ids
  unfolding keep note_allocation note_copy note_write invalidate_resource
  keep_ids s o =
      let same : State N → State N → Type 0 = λ a b. b.operation_ids ≡ a.operation_ids in
      let w = note_write q s o in
      let c = note_copy q w o in
      if_both (same c) (is_allocation o.type && is_known q c o.target) _ c refl refl
      ∙ (if_both (same w) (is_transfer o.type && is_known q w o.target) _ w refl refl
          ∙ if_both (same s) (writes o.type) _ s refl refl)

  or_key_error_found :
      (o : Option (Operation N)) (previous : Operation N)
      → o ≡ some previous
      → or_key_error q o ≢ none
  unfolding or_key_error
  or_key_error_found none previous e n = cc
  or_key_error_found (some x) previous e n = cc

  copy_at_last :
      (resources : List (Text × Resource N)) (copies : List (Text × Operation N))
      (target : Option Text) (r : Resource N)
      → find_resource q resources target ≡ some r
      → copy_at q copies target ≡ last_copy q copies target
  unfolding copy_at last_copy find_resource
  copy_at_last resources copies none r e = cc
  copy_at_last resources copies (some t) r e = refl

  -- A decision on a duplicate has found the copy, and one on a buffer has found the buffer.
  retained_by-found :
      (lower : Text → Text) (s : State N) (o : Operation N) (deps : List Text) (d : Decision N)
      → decide_operation q lower o s.resources s.last_copy_by_target s.active_buffers s.removed_ids
        ≡ some d
      → retained_by q d.policy (add_id q s o.id) (record o { depends_on = deps }) ≢ none
  unfolding retained_by add_id
  retained_by-found lower s o deps d e =
      let sound =
        decide_operation-Sound q lower s.resources s.last_copy_by_target s.active_buffers
          s.removed_ids o d e in
      go d.policy sound.reason
    where
      go :
          (p : Policy)
          → Justifies q lower s.resources s.last_copy_by_target s.active_buffers s.removed_ids p o
          → retained_by q p (add_id q s o.id) (record o { depends_on = deps }) ≢ none
      go Policy.eliminate_self_copy j n = cc
      go Policy.remove_orphan_sync j n = cc
      go Policy.remove_empty_sync j n = cc
      go Policy.collapse_aliased_resource_copy j n = cc
      go Policy.reuse_transient_buffer (t, (previous, found, f₁, f₂)) n =
          or_key_error_found _ previous found n
      go Policy.deduplicate_identical_transfer (m, (previous, found, f₁, f₂, f₃, f₄)) n =
          or_key_error_found _ previous
            (copy_at_last s.resources s.last_copy_by_target o.target m.target m.target_found
              ∙ found)
            n

  module _ (lower : Text → Text) (s : State N) (o : Operation N) where
    abbrev pub before : State N
    before = add_id q s o.id

    abbrev pub renewed : Operation N
    renewed = with_dependencies q s o

    -- The results of `process` that are not errors.
    pub data Step : Processed N → Type 0 where
      kept : Step (processed (keep q before renewed) renewed none)
      decided :
          (d : Decision N) (retained : Option (Operation N))
          → retained_by q d.policy before renewed ≡ some retained
          → Step (processed (apply_decision q before renewed retained) renewed (some d))

    conclude-Step :
        (r : Option (Decision N))
        → ((d : Decision N) → r ≡ some d → retained_by q d.policy before renewed ≢ none)
        → Step (conclude q before renewed r)
    unfolding conclude
    conclude-Step none f = Step.kept
    conclude-Step (some d) f = elim (Option-cases (retained_by q d.policy before renewed)) [
      | inl missing ↦ absurd (f d refl missing)
      | inr (retained, found) ↦ rw (conclude, found) (Step.decided d retained found)
    ]

    pub process-Step : is_member o.id s.operation_ids ≡ false → Step (process q lower s o)
    unfolding process with_dependencies
    process-Step fresh = rw fresh (conclude-Step _ (retained_by-found lower s o _))
