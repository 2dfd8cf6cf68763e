-- ===== src/Runtime/State/Current/Released.antt =====
-- The same, when a resource is released.
use fluid_gateway.Common.{
  ◌≡◌, refl, sym, subst, Bool-cases, inl, inr, Bool, true, false, not, Option, none, some, List, [],
  ◌∷◌, All, All-map, All-select, select, select_passes, arith,
}
use fluid_gateway.Wire.Errors.{Text}
use fluid_gateway.Runtime.Data.{
  Quantity, Resource, Operation, same_text, same_text-eq, same_name, lookup,
}
use fluid_gateway.Runtime.Decide.{find_resource}
use fluid_gateway.Runtime.Invalidation.{invalidate}
use fluid_gateway.Runtime.Invalidation.Linked.{Linked}
use fluid_gateway.Runtime.Invalidation.Stale.{Untouched, invalidate-Untouched}
use fluid_gateway.Runtime.State.{
  State, discard, release_resource, drop_buffers, invalidate_resource,
}
use fluid_gateway.Runtime.State.Held.{All-invalidate}
use fluid_gateway.Runtime.State.Current.{IsCurrent, Has, HasName}

module _ {N : Type 0} (q : Quantity N) where
  lookup-discard :
      (t id : Text) (d : List (Text × Resource N))
      → same_text t id ≡ false
      → lookup (same_text t) (discard id d) ≡ lookup (same_text t) d
  unfolding discard lookup
  lookup-discard t id [] h = refl
  lookup-discard t id ((k, r) ∷ d) h = elim (Bool-cases (same_text id k)) [
    | inl e ↦
        let other : same_text t k ≡ false = rw (← same_text-eq id k e) h in
        rw (e, other) (lookup-discard t id d h)
    | inr e ↦ elim (Bool-cases (same_text t k)) [
      | inl f ↦ rw (e, f) refl
      | inr f ↦ rw (e, f) (lookup-discard t id d h)
    ]
  ]

  kept_Has :
      (t id : Text) (d : List (Text × Resource N))
      → same_text t id ≡ false
      → Has q d t
      → Has q (discard id d) t
  kept_Has t id d h k = rw (lookup-discard t id d h) k

  kept_HasName :
      (name : Option Text) (id : Text) (d : List (Text × Resource N))
      → not (same_name name (some id)) ≡ true
      → HasName q d name
      → HasName q (discard id d) name
  unfolding find_resource
  kept_HasName none id d h k = k
  kept_HasName (some t) id d h k = kept_Has t id d (ground arith) k

  -- What holds of all and passes a test.
  All_both :
      {A : Type 0} (P Q : A → Type 0) (xs : List A) → All P xs → All Q xs → All (λ x. P x × Q x) xs
  All_both P Q [] h k = tt
  All_both P Q (x ∷ xs) h k = ((h.0, k.0), All_both P Q xs h.1 k.1)

  not_Linked :
      (resources : List (Text × Resource N)) (id t : Text)
      → ¬ Linked q resources (some id) (some t)
      → same_text t id ≡ false
  not_Linked resources id t h = elim (Bool-cases (same_text t id)) [
    | inr e ↦ e
    | inl e ↦ absurd (
        h (
          subst (λ u. Linked q resources (some id) (some u)) (sym (same_text-eq t id e))
            Linked.here))
  ]

  pub release_resource-IsCurrent :
      (s : State N) (id : Text) → IsCurrent q s → IsCurrent q (release_resource q s id).0
  unfolding release_resource invalidate_resource drop_buffers
  release_resource-IsCurrent s id i = record {
    copies =
        let left = invalidate q s.resources (some id) s.last_copy_by_target in
        All-map (λ x. Has q s.resources x.0 × Untouched q s.resources (some id) x)
          (λ x. Has q (discard id s.resources) x.0)
          (λ x h. kept_Has x.0 id s.resources (not_Linked s.resources id x.0 h.1.0) h.0) left
          (All_both (λ x. Has q s.resources x.0) (Untouched q s.resources (some id)) left
            (All-invalidate q (λ x. Has q s.resources x.0) s.resources (some id)
              s.last_copy_by_target i.copies)
            (invalidate-Untouched q s.resources (some id) s.last_copy_by_target));
    buffers =
        let test : (Option Text × N) × Operation N → Bool =
          λ ((target, size), previous). not (same_name target (some id)) in
        let left = select test s.active_buffers in
        All-map (λ x. HasName q s.resources x.0.0 × (test x ≡ true))
          (λ x. HasName q (discard id s.resources) x.0.0)
          (λ x h. kept_HasName x.0.0 id s.resources h.1 h.0) left
          (All_both (λ x. HasName q s.resources x.0.0) (λ x. test x ≡ true) left
            (All-select (λ x. HasName q s.resources x.0.0) test s.active_buffers i.buffers)
            (select_passes test s.active_buffers));
  }
