-- ===== src/Examples/Manifests.antt =====
-- A manifest of three operations: an upload, a copy of a texture to itself, and a draw that depends
-- on both; and the copies that a write makes stale.
use fluid_gateway.Common.{
  ℕ, ◌+◌, ◌≡◌, ◌≢◌, refl, ap, subst, true, Option, none, some, List, [], ◌∷◌, Memᴰ, All, length,
  arith,
}
use fluid_gateway.Frame.{is_some}
use fluid_gateway.Wire.Errors.{Text, say}
use fluid_gateway.Message.Enum.{OperationType}
use fluid_gateway.Runtime.Data.{Resource, Operation, Decision}
use fluid_gateway.Runtime.Decide.{find_resource}
use fluid_gateway.Runtime.Invalidation.{out_of_fuel, reached_from, is_view, invalidate}
use fluid_gateway.Runtime.Invalidation.Linked.{Linked}
use fluid_gateway.Runtime.Invalidation.Fuel.{reached_from_enough}
use fluid_gateway.Runtime.Invalidation.Stale.{Untouched, invalidate-Untouched, invalidate_keeps}
use fluid_gateway.Runtime.State.{Manifest, Plan, optimize_manifest}
use fluid_gateway.Runtime.State.Counted.{
  distinct, is_some-optimize_manifest, optimize_manifest-count,
}
use fluid_gateway.Runtime.State.Closed.{Closed, ids_of, optimize_manifest-Closed}
use fluid_gateway.Examples.Plans.{whole_numbers, texture, self_copy, self_copy_removed}

abbrev pub shop : List (Text × Resource ℕ)
shop = (say "t", texture) ∷ []

abbrev upload : Operation ℕ
upload = record self_copy { id = say "up"; type = OperationType.upload; source = some (say "file") }

abbrev draw : Operation ℕ
draw = record self_copy {
  id = say "draw";
  type = OperationType.draw;
  depends_on = say "up" ∷ say "op" ∷ [];
}

abbrev pub manifest : Manifest ℕ
manifest = record { name = say "m"; resources = shop; operations = upload ∷ self_copy ∷ draw ∷ [] }

-- The draw depends on the upload alone.
abbrev pub plan : Plan ℕ
plan = record {
  mode = say "runtime-optimizer-v0.4-manifest";
  manifest_name = say "m";
  original_operations = 3;
  optimized_operations = 2;
  estimated_saved_ms = 2;
  estimated_saved_mb = 8;
  kept_operations = upload ∷ record draw { depends_on = say "up" ∷ [] } ∷ [];
  decisions = self_copy_removed ∷ [];
  warnings = say "Operation up references unknown source resource file." ∷ [];
}

optimized : optimize_manifest whole_numbers (λ t. t) ◌+◌ (λ n. n) manifest ≡ some plan
unfolding optimize_manifest fluid_gateway.Runtime.State.finish fluid_gateway.Runtime.State.optimize
    fluid_gateway.Runtime.State.collect fluid_gateway.Runtime.State.process
    fluid_gateway.Runtime.State.initial fluid_gateway.Runtime.State.conclude
    fluid_gateway.Runtime.Decide.decide_operation fluid_gateway.Runtime.Decide.decide_as
    fluid_gateway.Runtime.Decide.decide_transfer find_resource fluid_gateway.Runtime.Data.lookup say
    fluid_gateway.Runtime.State.keep fluid_gateway.Runtime.State.note_allocation
    fluid_gateway.Runtime.State.is_allocation fluid_gateway.Runtime.State.with_dependencies
    fluid_gateway.Runtime.State.note_copy fluid_gateway.Runtime.State.is_transfer
    fluid_gateway.Runtime.State.is_known fluid_gateway.Runtime.State.note_write
    fluid_gateway.Runtime.State.writes fluid_gateway.Runtime.State.invalidate_resource
    fluid_gateway.Runtime.State.add_id fluid_gateway.Runtime.State.retained_by
    fluid_gateway.Runtime.State.apply_decision fluid_gateway.Runtime.State.plan_of
    fluid_gateway.Runtime.State.total fluid_gateway.Runtime.State.dependencies_of
    fluid_gateway.Runtime.Decide.validate_manifest fluid_gateway.Runtime.State.unique
    fluid_gateway.Runtime.Decide.check_operations fluid_gateway.Runtime.State.replaced
    fluid_gateway.Runtime.Decide.check_reference fluid_gateway.Runtime.State.store
    fluid_gateway.Runtime.State.replacements_of
optimized = refl

is_some-optimize_manifest_example :
    is_some (optimize_manifest whole_numbers (λ t. t) ◌+◌ (λ n. n) manifest)
    ≡ distinct whole_numbers (λ t. t) [] manifest.operations
is_some-optimize_manifest_example =
    is_some-optimize_manifest whole_numbers (λ t. t) ◌+◌ (λ n. n) manifest

optimize_manifest-count_example :
    plan.optimized_operations + length plan.decisions ≡ plan.original_operations
optimize_manifest-count_example =
    optimize_manifest-count whole_numbers (λ t. t) ◌+◌ (λ n. n) manifest plan optimized

optimize_manifest-Closed_example : Closed (ids_of plan.kept_operations) plan.kept_operations
unfolding say
optimize_manifest-Closed_example =
    optimize_manifest-Closed whole_numbers (λ t. t) ◌+◌ (λ n. n) manifest plan refl optimized

-- A copy of `t` and one of `u`.
abbrev copies : List (Text × Operation ℕ)
copies = (say "t", self_copy) ∷ (say "u", record self_copy { source = some (say "v") }) ∷ []

invalidate-Untouched_example :
    All
      (Untouched whole_numbers shop (some (say "t")))
      (invalidate whole_numbers shop (some (say "t")) copies)
invalidate-Untouched_example = invalidate-Untouched whole_numbers shop (some (say "t")) copies

reached_from_enough_example : reached_from whole_numbers shop (some (say "t")) ≢ out_of_fuel
reached_from_enough_example = reached_from_enough whole_numbers shop (some (say "t"))

-- A texture without aliases is linked to itself alone.
alone :
    (name : Option Text) → Linked whole_numbers shop (some (say "t")) name → name ≡ some (say "t")
alone _ Linked.here = refl
alone _ (Linked.step {name} {resource} {other} {key} l found m v) =
    absurd (no_view name resource other key (alone name l) found m v)
  where
    no_view :
        (name : Option Text) (resource other : Resource ℕ) (key : Text)
        → name ≡ some (say "t")
        → find_resource whole_numbers shop name ≡ some resource
        → Memᴰ (key, other) shop
        → ¬ (is_view resource other ≡ true)
    no_view name resource other key e found (Memᴰ.head p) v =
        let same : other ≡ texture = ap (λ x. x.1) p in
        let none_shared : is_view resource texture ≡ true =
          subst (λ o. is_view resource o ≡ true) same v in
        ground arith
    no_view name resource other key e found (Memᴰ.tail m) v = elim m [ ]

unequal : ◌≡◌ {A = Option Text} (some (say "u")) (some (say "t")) → ⊥
unfolding say
unequal e = ground arith

unequal' : ◌≡◌ {A = Option Text} (some (say "v")) (some (say "t")) → ⊥
unfolding say
unequal' e = ground arith

found_here : find_resource whole_numbers shop (some (say "t")) ≢ none
unfolding find_resource fluid_gateway.Runtime.Data.lookup say
found_here e = ground arith

invalidate_keeps_example :
    Memᴰ
      (say "u", record self_copy { source = some (say "v") })
      (invalidate whole_numbers shop (some (say "t")) copies)
invalidate_keeps_example =
    invalidate_keeps whole_numbers shop (some (say "t")) copies (say "u")
      (record self_copy { source = some (say "v") })
      (λ name l e. found_here (rw (← alone name l) e)) (Memᴰ.tail (Memᴰ.head refl))
      ((λ l. unequal (alone _ l)), λ l. unequal' (alone _ l))
