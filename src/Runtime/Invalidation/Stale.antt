-- ===== src/Runtime/Invalidation/Stale.antt =====
-- What `invalidate_resource` (fluidgateway/runtime.py) drops and what it keeps.
use fluid_gateway.Common.{
  suc, ◌≡◌, ◌≢◌, refl, subst, sym, Bool-cases, inl, inr, Bool, true, ◌||◌, Option, none, some, List,
  [], ◌∷◌, length, Memᴰ, All, All-map, select, select_passes, arith,
}
use fluid_gateway.Wire.Errors.{Text}
use fluid_gateway.Runtime.Data.{Quantity, Resource, Operation, same_name, same_name-eq}
use fluid_gateway.Runtime.Decide.{find_resource}
use fluid_gateway.Runtime.Invalidation.{
  is_affected, Outcome, reached, unknown_resource, out_of_fuel, is_fresh, reached_from, drop_stale,
  invalidate,
}
use fluid_gateway.Runtime.Invalidation.Linked.{Linked, reach-AllLinked, reach_unknown}
use fluid_gateway.Runtime.Invalidation.Reached.{Linked-reached}
use fluid_gateway.Runtime.Invalidation.Fuel.{reached_from_enough}

module _ {N : Type 0} (q : Quantity N) (resources : List (Text × Resource N))
    (start : Option Text) where
  -- A copy between views that a write to `start` does not reach.
  abbrev pub Untouched : Text × Operation N → Type 0
  Untouched (target, previous) =
      ¬ Linked q resources start (some target) × ¬ Linked q resources start previous.source

  Linked-reached_from :
      (names : List (Option Text)) (name : Option Text)
      → reached_from q resources start ≡ reached names
      → Linked q resources start name
      → is_affected name names ≡ true
  unfolding reached_from
  Linked-reached_from names name e link = Linked-reached q resources start _ names name e link

  -- Of the last copies, invalidate_resource leaves only those whose target and source are not
  -- linked to the resource: not the resource itself, nor any view of it that is reached, one step
  -- after another, between resources of one memory with an alias in common.
  pub invalidate-Untouched :
      (copies : List (Text × Operation N)) → All Untouched (invalidate q resources start copies)
  unfolding invalidate drop_stale
  invalidate-Untouched copies = go (reached_from q resources start) refl
    where
      go : (r : Outcome) → reached_from q resources start ≡ r → All Untouched (drop_stale r copies)
      go unknown_resource e = tt
      go out_of_fuel e = absurd (reached_from_enough q resources start e)
      go (reached names) e =
          All-map (λ x. is_fresh names x ≡ true) Untouched
            (λ x fresh. (
              (λ l. let a = Linked-reached_from names (some x.0) e l in ground arith),
              (λ l. let a = Linked-reached_from names x.1.source e l in ground arith),
            ))
            (select (is_fresh names) copies) (select_passes (is_fresh names) copies)

  is_affected-Linked :
      (names : List (Option Text)) (name : Option Text)
      → All (Linked q resources start) names
      → is_affected name names ≡ true
      → Linked q resources start name
  is_affected-Linked [] name l e = cc
  is_affected-Linked (n ∷ names) name l e = elim (Bool-cases (same_name name n)) [
    | inl same ↦ subst (Linked q resources start) (sym (same_name-eq name n same)) l.0
    | inr other ↦ is_affected-Linked names name l.1 (ground arith)
  ]

  Memᴰ-select :
      (p : Text × Operation N → Bool) (xs : List (Text × Operation N)) (x : Text × Operation N)
      → Memᴰ x xs
      → p x ≡ true
      → Memᴰ x (select p xs)
  Memᴰ-select p [] x m h = elim m [ ]
  Memᴰ-select p (y ∷ ys) x (Memᴰ.head e) h =
      let passes : p y ≡ true = rw (← e) h in rw passes (Memᴰ.head e)
  Memᴰ-select p (y ∷ ys) x (Memᴰ.tail m) h = elim (Bool-cases (p y)) [
    | inl e ↦ rw e (Memᴰ.tail (Memᴰ-select p ys x m h))
    | inr e ↦ rw e (Memᴰ-select p ys x m h)
  ]

  -- Where every name that is linked to the resource is known, invalidate_resource keeps each last
  -- copy whose target and source are not linked to it.
  pub invalidate_keeps :
      (copies : List (Text × Operation N)) (target : Text) (previous : Operation N)
      → ((name : Option Text)
          → Linked q resources start name
          → find_resource q resources name ≢ none)
      → Memᴰ (target, previous) copies
      → Untouched (target, previous)
      → Memᴰ (target, previous) (invalidate q resources start copies)
  unfolding invalidate drop_stale reached_from
  invalidate_keeps copies target previous known m untouched =
      go (reached_from q resources start) refl
    where
      go :
          (r : Outcome)
          → reached_from q resources start ≡ r
          → Memᴰ (target, previous) (drop_stale r copies)
      go out_of_fuel e = absurd (reached_from_enough q resources start e)
      go unknown_resource e =
          let found =
            reach_unknown q resources start (suc (length resources)) (start ∷ []) (start ∷ [])
              (Linked.here, tt) (Linked.here, tt) e in
          absurd (known found.0 found.1 found.2)
      go (reached names) e =
          let all_linked =
            reach-AllLinked q resources start (suc (length resources)) (start ∷ []) (start ∷ [])
              names (Linked.here, tt) (Linked.here, tt) e in
          elim (Bool-cases (is_affected (some target) names || is_affected previous.source names)) [
            | inr fresh ↦ Memᴰ-select (is_fresh names) copies (target, previous) m (rw fresh refl)
            | inl stale ↦ absurd (elim (Bool-cases (is_affected (some target) names)) [
              | inl t ↦ untouched.0 (is_affected-Linked names (some target) all_linked t)
              | inr f ↦
                  untouched.1 (is_affected-Linked names previous.source all_linked (ground arith))
            ])
          ]
