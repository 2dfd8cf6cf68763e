-- ===== src/Runtime/State/Current.antt =====
-- What the state of fluidgateway/runtime.py remembers is of resources that are there.
pub mod Released
use fluid_gateway.Common.{
  ℕ, suc, ◌+◌, ◌≡◌, ◌∙◌, refl, sym, ap, subst, Bool-cases, Option-cases, inl, inr, Bool, true,
  false, not, ◌&&◌, ◌||◌, Option, none, some, List, [], ◌∷◌, ◌++◌, length, length-append, All,
  All-map, All-append, All-select, select, select_passes, if_both, if◌then◌else◌, arith,
}
use fluid_gateway.Frame.{is_some}
use fluid_gateway.Wire.Errors.{Text, Result, ok, err, >>=-eq-ok, ◌>>=◌}
use fluid_gateway.Wire.Codec.{Result-cases}
use fluid_gateway.Runtime.Data.{
  Quantity, Resource, Operation, Decision, same_text, same_text-eq, same_name, is_member, lookup,
}
use fluid_gateway.Runtime.Decide.{find_resource}
use fluid_gateway.Runtime.Invalidation.{invalidate}
use fluid_gateway.Runtime.Invalidation.Linked.{Linked}
use fluid_gateway.Runtime.Invalidation.Stale.{Untouched, invalidate-Untouched}
use fluid_gateway.Runtime.State.{
  State, Processed, store, store_copy, discard, processed, duplicate_id, key_error, process,
  release_resource, drop_buffers, note_write, note_copy, note_allocation, keep, apply_decision,
  invalidate_resource, is_known, writes, is_transfer, is_allocation, add_id, with_dependencies,
  conclude,
}
use fluid_gateway.Runtime.State.Held.{All-invalidate}
use fluid_gateway.Runtime.State.Stepping.{Step, process-Step, before, renewed}

module _ {N : Type 0} (q : Quantity N) where
  -- A dict in which a text is a key.
  abbrev pub Has : List (Text × Resource N) → Text → Type 0
  Has resources t = is_some (lookup (same_text t) resources) ≡ true

  abbrev pub HasName : List (Text × Resource N) → Option Text → Type 0
  HasName resources name = is_some (find_resource q resources name) ≡ true

  -- The copies and the buffers are those of resources that are there.
  pub record IsCurrent (s : State N) : Type 0 where
    pub copies : All (λ x. Has s.resources x.0) s.last_copy_by_target
    pub buffers : All (λ x. HasName s.resources x.0.0) s.active_buffers

  note_write-IsCurrent :
      (s : State N) (o : Operation N) → IsCurrent s → IsCurrent (note_write q s o)
  unfolding note_write invalidate_resource
  note_write-IsCurrent s o i =
      if_both IsCurrent (writes o.type) _ s
        (record {
          copies =
              All-invalidate q (λ x. Has s.resources x.0) s.resources o.target s.last_copy_by_target
                i.copies;
          buffers = i.buffers;
        })
        i

  All_keys-store :
      (P : Text → Type 0) (key : Text) (o : Operation N) (d : List (Text × Operation N))
      → P key
      → All (λ x. P x.0) d
      → All (λ x. P x.0) (store key o d)
  unfolding store
  All_keys-store P key o [] p h = (p, tt)
  All_keys-store P key o ((k, v) ∷ rest) p h =
      if_both (All (λ x. P x.0)) (same_text key k) ((k, o) ∷ rest) ((k, v) ∷ store key o rest)
        (h.0, h.1) (h.0, All_keys-store P key o rest p h.1)

  store_copy-Has :
      (target : Option Text) (o : Operation N) (s : State N)
      → is_known q s target ≡ true
      → All (λ x. Has s.resources x.0) s.last_copy_by_target
      → All (λ x. Has s.resources x.0) (store_copy q target o s.last_copy_by_target)
  unfolding store_copy is_known find_resource
  store_copy-Has none o s k h = h
  store_copy-Has (some t) o s k h =
      All_keys-store (Has s.resources) t o s.last_copy_by_target (ground arith) h

  note_copy-IsCurrent : (s : State N) (o : Operation N) → IsCurrent s → IsCurrent (note_copy q s o)
  unfolding note_copy
  note_copy-IsCurrent s o i = elim (Bool-cases (is_transfer o.type && is_known q s o.target)) [
    | inr e ↦ rw e i
    | inl e ↦ rw e (record {
      copies = store_copy-Has o.target o s (ground arith) i.copies;
      buffers = i.buffers;
    })
  ]

  known-HasName :
      (s : State N) (name : Option Text) → is_known q s name ≡ true → HasName s.resources name
  unfolding is_known
  known-HasName s name k = elim (Option-cases (find_resource q s.resources name)) [
    | inl e ↦ absurd (ground arith)
    | inr (r, e) ↦ rw e refl
  ]

  note_allocation-IsCurrent :
      (s : State N) (o : Operation N) → IsCurrent s → IsCurrent (note_allocation q s o)
  unfolding note_allocation drop_buffers
  note_allocation-IsCurrent s o i =
      elim (Bool-cases (is_allocation o.type && is_known q s o.target)) [
        | inr e ↦ rw e i
        | inl e ↦ rw e (record {
          copies = i.copies;
          buffers =
              All-append (λ x. HasName s.resources x.0.0) _ _
                (All-select (λ x. HasName s.resources x.0.0) _ s.active_buffers i.buffers)
                (known-HasName s o.target (ground arith), tt);
        })
      ]

  Step-IsCurrent :
      (lower : Text → Text) (s : State N) (o : Operation N) (r : Processed N)
      → IsCurrent s
      → Step q lower s o r
      → (s' : State N) (o' : Operation N) (d : Option (Decision N)) → r ≡ processed s' o' d
      → IsCurrent s'
  unfolding keep add_id apply_decision
  Step-IsCurrent lower s o _ i Step.kept s' o' d e =
      let same : keep q (before q lower s o) (renewed q lower s o) ≡ s' = cc in
      subst IsCurrent same (
        note_allocation-IsCurrent _ _ (
          note_copy-IsCurrent _ _
            (note_write-IsCurrent _ _ (record { copies = i.copies; buffers = i.buffers }))))
  Step-IsCurrent lower s o _ i (Step.decided decision retained found) s' o' d e =
      let same : apply_decision q (before q lower s o) (renewed q lower s o) retained ≡ s' = cc in
      subst IsCurrent same (record { copies = i.copies; buffers = i.buffers })

  pub process-IsCurrent :
      (lower : Text → Text) (s s' : State N) (o o' : Operation N) (d : Option (Decision N))
      → IsCurrent s
      → process q lower s o ≡ processed s' o' d
      → IsCurrent s'
  unfolding process
  process-IsCurrent lower s s' o o' d i e = elim (Bool-cases (is_member o.id s.operation_ids)) [
    | inr fresh ↦
        Step-IsCurrent lower s o (process q lower s o) i (process-Step q lower s o fresh) s' o' d e
    | inl seen ↦ let stuck : duplicate_id _ ≡ processed s' o' d = rw (process, seen) at e in cc
  ]

  note_resources : (s : State N) (o : Operation N) → (keep q s o).resources ≡ s.resources
  unfolding keep note_allocation note_copy note_write invalidate_resource
  note_resources s o =
      let same : State N → State N → Type 0 = λ a b. b.resources ≡ a.resources in
      let w = note_write q s o in
      let c = note_copy q w o in
      if_both (same c) (is_allocation o.type && is_known q c o.target) _ c refl refl
      ∙ (if_both (same w) (is_transfer o.type && is_known q w o.target) _ w refl refl
          ∙ if_both (same s) (writes o.type) _ s refl refl)

  Step-resources :
      (lower : Text → Text) (s : State N) (o : Operation N) (r : Processed N)
      → Step q lower s o r
      → (s' : State N) (o' : Operation N) (d : Option (Decision N)) → r ≡ processed s' o' d
      → s'.resources ≡ s.resources
  unfolding add_id apply_decision
  Step-resources lower s o _ Step.kept s' o' d e =
      let same : keep q (before q lower s o) (renewed q lower s o) ≡ s' = cc in
      ap (λ (t : State N). t.resources) (sym same) ∙ note_resources _ _
  Step-resources lower s o _ (Step.decided decision retained found) s' o' d e =
      let same : apply_decision q (before q lower s o) (renewed q lower s o) retained ≡ s' = cc in
      ap (λ (t : State N). t.resources) (sym same)

  -- `process` leaves the resources alone.
  pub same_resources :
      (lower : Text → Text) (s s' : State N) (o o' : Operation N) (d : Option (Decision N))
      → process q lower s o ≡ processed s' o' d
      → s'.resources ≡ s.resources
  unfolding process
  same_resources lower s s' o o' d e = elim (Bool-cases (is_member o.id s.operation_ids)) [
    | inr fresh ↦
        Step-resources lower s o (process q lower s o) (process-Step q lower s o fresh) s' o' d e
    | inl seen ↦ let stuck : duplicate_id _ ≡ processed s' o' d = rw (process, seen) at e in cc
  ]
