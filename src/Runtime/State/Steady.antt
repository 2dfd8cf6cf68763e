-- ===== src/Runtime/State/Steady.antt =====
-- How `process` (fluidgateway/runtime.py) keeps to what Held says of the state.
use fluid_gateway.Common.{
  ◌≡◌, refl, Bool-cases, inl, inr, true, Option, none, some, List, [], ◌∷◌, ◌++◌, all, All, All-map,
  arith,
}
use fluid_gateway.Wire.Errors.{Text}
use fluid_gateway.Runtime.Data.{Quantity, Operation, Policy, same_text, same_text-eq, is_member}
use fluid_gateway.Runtime.Decide.{active_buffer}
use fluid_gateway.Runtime.Invalidation.Reached.{same_text_refl}
use fluid_gateway.Runtime.State.{
  State, unique, replaced, dependencies_of, copy_at, or_key_error, retained_by, replacements_of,
  apply_decision, note_write, keep, with_dependencies, add_id,
}
use fluid_gateway.Runtime.State.Held.{
  In, In-append, All-store, All-unique, All-lookup, is_replaced-store, store_keeps, Inv,
  replaced-In, note_write-Inv, note_copy-Inv, note_allocation-Inv,
}
use fluid_gateway.Runtime.State.Stepping.{renewed}

module _ {N : Type 0} (q : Quantity N) where
  pub In-last : (ids : List Text) (id : Text) → In (ids ++ id ∷ []) id
  In-last [] id = ground (arith, same_text_refl id)
  In-last (x ∷ ids) id = ground (arith, In-last ids id)

  -- A kept operation joins the ids.
  pub add_id-Inv :
      (s : State N) (ids : List Text) (id : Text)
      → Inv q s ids
      → Inv q (add_id q s id) (ids ++ id ∷ [])
  unfolding add_id
  add_id-Inv s ids id i =
      let grow = In-append ids (id ∷ []) in
      record {
        values =
            All-map (λ x. All (In ids) x.1) (λ x. All (In (ids ++ id ∷ [])) x.1)
              (λ x. All-map (In ids) (In (ids ++ id ∷ [])) grow x.1) s.replacements i.values;
        seen = λ n h. elim (Bool-cases (same_text n id)) [
          | inl e ↦ inl (rw (same_text-eq n id e) (In-last ids id))
          | inr e ↦ elim (i.seen n (ground arith)) [ inl kept ↦ inl (grow n kept) | inr r ↦ inr r ]
        ];
        copies =
            All-map (λ x. In ids x.1.id) (λ x. In (ids ++ id ∷ []) x.1.id) (λ x. grow x.1.id)
              s.last_copy_by_target i.copies;
        buffers =
            All-map (λ x. In ids x.1.id) (λ x. In (ids ++ id ∷ []) x.1.id) (λ x. grow x.1.id)
              s.active_buffers i.buffers;
      }

  pub keep-Inv :
      (s : State N) (o : Operation N) (ids : List Text)
      → In ids o.id
      → Inv q s ids
      → Inv q (keep q s o) ids
  unfolding keep
  keep-Inv s o ids h i =
      note_allocation-Inv q _ o ids h
        (note_copy-Inv q (note_write q s o) o ids h (note_write-Inv q s o ids i))

  pub renewed-In :
      (lower : Text → Text) (s : State N) (o : Operation N) (ids : List Text)
      → Inv q s ids
      → all (λ d. is_member d s.operation_ids) o.depends_on ≡ true
      → All (In ids) (renewed q lower s o).depends_on
  unfolding with_dependencies dependencies_of
  renewed-In lower s o ids i h =
      All-unique (In ids) (replaced s.replacements o.depends_on)
        (replaced-In q s ids o.depends_on i h)

  copy_at-In :
      (name : Option Text) (copies : List (Text × Operation N)) (ids : List Text)
      (previous : Operation N)
      → All (λ x. In ids x.1.id) copies
      → copy_at q copies name ≡ some previous
      → In ids previous.id
  unfolding copy_at
  copy_at-In none copies ids previous h e = cc
  copy_at-In (some name) copies ids previous h e =
      All-lookup (λ (o : Operation N). In ids o.id) (same_text name) copies previous h e

  active_buffer-In :
      (name : Option Text) (size : N) (buffers : List ((Option Text × N) × Operation N))
      (ids : List Text) (previous : Operation N)
      → All (λ x. In ids x.1.id) buffers
      → active_buffer q buffers name size ≡ some previous
      → In ids previous.id
  unfolding active_buffer
  active_buffer-In name size buffers ids previous h e =
      All-lookup (λ (o : Operation N). In ids o.id) _ buffers previous h e

  or_key_error-some :
      (o : Option (Operation N)) (previous : Operation N)
      → or_key_error q o ≡ some (some previous)
      → o ≡ some previous
  unfolding or_key_error
  or_key_error-some none previous e = cc
  or_key_error-some (some x) previous e = cc

  -- An operation that a decision refers to is kept.
  pub retained_by-In :
      (p : Policy) (s : State N) (o : Operation N) (ids : List Text) (previous : Operation N)
      → All (λ x. In ids x.1.id) s.last_copy_by_target
      → All (λ x. In ids x.1.id) s.active_buffers
      → retained_by q p s o ≡ some (some previous)
      → In ids previous.id
  unfolding retained_by
  retained_by-In Policy.eliminate_self_copy s o ids previous c b e = cc
  retained_by-In Policy.remove_orphan_sync s o ids previous c b e = cc
  retained_by-In Policy.remove_empty_sync s o ids previous c b e = cc
  retained_by-In Policy.collapse_aliased_resource_copy s o ids previous c b e =
      let found : copy_at q s.last_copy_by_target o.source ≡ some previous = cc in
      copy_at-In o.source s.last_copy_by_target ids previous c found
  retained_by-In Policy.deduplicate_identical_transfer s o ids previous c b e =
      copy_at-In o.target s.last_copy_by_target ids previous c (or_key_error-some _ previous e)
  retained_by-In Policy.reuse_transient_buffer s o ids previous c b e =
      active_buffer-In o.target o.size_mb s.active_buffers ids previous b
        (or_key_error-some _ previous e)

  replacements_of-In :
      (retained : Option (Operation N)) (ids deps : List Text)
      → ((previous : Operation N) → retained ≡ some previous → In ids previous.id)
      → All (In ids) deps
      → All (In ids) (replacements_of q retained deps)
  unfolding replacements_of
  replacements_of-In none ids deps f h = h
  replacements_of-In (some previous) ids deps f h = (f previous refl, h)

  pub apply_decision-Inv :
      (s : State N) (o : Operation N) (ids : List Text) (retained : Option (Operation N))
      → Inv q s ids
      → ((previous : Operation N) → retained ≡ some previous → In ids previous.id)
      → All (In ids) o.depends_on
      → Inv q (apply_decision q (add_id q s o.id) o retained) ids
  unfolding apply_decision add_id
  apply_decision-Inv s o ids retained i f h =
      let names = replacements_of q retained o.depends_on in
      record {
        values =
            All-store (All (In ids)) o.id (unique names) s.replacements
              (All-unique (In ids) names (replacements_of-In retained ids o.depends_on f h))
              i.values;
        seen = λ n m. elim (Bool-cases (same_text n o.id)) [
          | inl e ↦
              inr
                (rw (same_text-eq n o.id e) (is_replaced-store o.id (unique names) s.replacements))
          | inr e ↦ elim (i.seen n (ground arith)) [
            | inl kept ↦ inl kept
            | inr r ↦ inr (store_keeps o.id (unique names) s.replacements n r)
          ]
        ];
        copies = i.copies;
        buffers = i.buffers;
      }
