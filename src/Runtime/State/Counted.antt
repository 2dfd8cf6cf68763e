-- ===== src/Runtime/State/Counted.antt =====
-- When `optimize_manifest` (fluidgateway/runtime.py) returns, and how many operations and decisions
-- its plan has then.
use fluid_gateway.Common.{
  ℕ, suc, ◌+◌, ◌≡◌, refl, ap, subst, Bool-cases, inl, inr, Bool, true, false, not, ◌&&◌, Option,
  none, some, List, [], ◌∷◌, ◌++◌, length, length-append, ◌∙◌, arith,
}
use fluid_gateway.Frame.{is_some}
use fluid_gateway.Wire.Errors.{Text}
use fluid_gateway.Runtime.Data.{Quantity, Operation, Decision, is_member}
use fluid_gateway.Runtime.State.{
  State, Processed, processed, duplicate_id, key_error, apply_decision, add_id, process, Manifest,
  Plan, initial, plan_of, finish, optimize_manifest, Optimized, collect, optimize,
}
use fluid_gateway.Runtime.State.Stepping.{keep_ids, before, renewed, Step, process-Step}

module _ {N : Type 0} (q : Quantity N) (lower : Text → Text) where
  -- Whether the loop makes a plan or meets an id twice; nothing where a key is missing.
  abbrev pub made : Optimized q lower → Option Bool
  made (Optimized.optimized s kept decisions) = some true
  made (Optimized.refused message) = some false
  made Optimized.missing_key = none

  -- No operation has an id that came before.
  abbrev pub distinct : List Text → List (Operation N) → Bool
  distinct seen [] = true
  distinct seen (o ∷ os) = not (is_member o.id seen) && distinct (o.id ∷ seen) os

  -- One round, by what holds of the rounds after it.
  made-collect :
      (s : State N) (o : Operation N) (os kept : List (Operation N)) (ds : List (Decision N))
      (next : State N → List (Operation N) → List (Decision N) → Optimized q lower)
      (r : Processed N)
      → ((s : State N) (kept : List (Operation N)) (ds : List (Decision N))
          → made (next s kept ds) ≡ some (distinct s.operation_ids os))
      → Step q lower s o r
      → made (collect q lower kept ds r next) ≡ some (distinct (o.id ∷ s.operation_ids) os)
  unfolding collect apply_decision add_id
  made-collect s o os kept ds next _ ih Step.kept =
      ih _ _ _
      ∙ ap (λ ids. some (distinct ids os)) (keep_ids q (before q lower s o) (renewed q lower s o))
  made-collect s o os kept ds next _ ih (Step.decided d retained found) = ih _ _ _

  pub made-optimize :
      (os : List (Operation N)) (s : State N) (kept : List (Operation N)) (ds : List (Decision N))
      → made (optimize q lower os s kept ds) ≡ some (distinct s.operation_ids os)
  unfolding optimize collect process
  made-optimize [] s kept ds = refl
  made-optimize (o ∷ os) s kept ds = elim (Bool-cases (is_member o.id s.operation_ids)) [
    | inl seen ↦ rw seen refl
    | inr fresh ↦
        made-collect s o os kept ds (optimize q lower os) (process q lower s o)
          (λ s kept ds. made-optimize os s kept ds) (process-Step q lower s o fresh)
        ∙ ap some (ground arith)
  ]

  -- What a plan keeps and what it decides are as many as there are operations.
  abbrev Counts : ℕ → Optimized q lower → Type 0
  Counts n (Optimized.optimized s kept decisions) = length kept + length decisions ≡ n
  Counts n (Optimized.refused message) = Unit
  Counts n Optimized.missing_key = Unit

  Counts-collect :
      (kept : List (Operation N)) (ds : List (Decision N)) (n : ℕ)
      (next : State N → List (Operation N) → List (Decision N) → Optimized q lower)
      (r : Processed N)
      → ((s : State N) (kept : List (Operation N)) (ds : List (Decision N))
          → Counts (length kept + length ds + n) (next s kept ds))
      → Counts (length kept + length ds + suc n) (collect q lower kept ds r next)
  unfolding collect
  Counts-collect kept ds n next (processed s o none) ih =
      let same : length (kept ++ o ∷ []) + length ds + n ≡ length kept + length ds + suc n =
        omega (arith, length-append kept (o ∷ [])) in
      subst (λ m. Counts m (next s (kept ++ o ∷ []) ds)) same (ih s (kept ++ o ∷ []) ds)
  Counts-collect kept ds n next (processed s o (some d)) ih =
      let same : length kept + length (ds ++ d ∷ []) + n ≡ length kept + length ds + suc n =
        omega (arith, length-append ds (d ∷ [])) in
      subst (λ m. Counts m (next s kept (ds ++ d ∷ []))) same (ih s kept (ds ++ d ∷ []))
  Counts-collect kept ds n next (duplicate_id message) ih = tt
  Counts-collect kept ds n next key_error ih = tt

  Counts-optimize :
      (os : List (Operation N)) (s : State N) (kept : List (Operation N)) (ds : List (Decision N))
      → Counts (length kept + length ds + length os) (optimize q lower os s kept ds)
  unfolding optimize
  Counts-optimize [] s kept ds = omega arith
  Counts-optimize (o ∷ os) s kept ds =
      Counts-collect kept ds (length os) (optimize q lower os) (process q lower s o)
        (Counts-optimize os)

  module _ (add : N → N → N) (round4 : N → N) (m : Manifest N) where
    -- optimize_manifest returns a plan where no operation has the id of an operation before it,
    -- and otherwise it raises; no lookup of a key that is missing comes into it.
    pub is_some-optimize_manifest :
        is_some (optimize_manifest q lower add round4 m) ≡ distinct [] m.operations
    unfolding optimize_manifest initial finish
    is_some-optimize_manifest =
        go (optimize q lower m.operations (initial m.resources) [] [])
          (made-optimize m.operations (initial m.resources) [] [])
      where
        go :
            (r : Optimized q lower)
            → made r ≡ some (distinct [] m.operations)
            → is_some (finish q lower add round4 m r) ≡ distinct [] m.operations
        go (Optimized.optimized s kept ds) e = ground arith
        go (Optimized.refused message) e = ground arith
        go Optimized.missing_key e = cc

    -- The operations that a plan keeps and the decisions that it makes are as many as the
    -- operations of the manifest.
    pub optimize_manifest-count :
        (plan : Plan N)
        → optimize_manifest q lower add round4 m ≡ some plan
        → plan.optimized_operations + length plan.decisions ≡ plan.original_operations
    unfolding optimize_manifest finish plan_of
    optimize_manifest-count plan =
        go (optimize q lower m.operations (initial m.resources) [] [])
          (Counts-optimize m.operations (initial m.resources) [] [])
      where
        go :
            (r : Optimized q lower)
            → Counts (0 + 0 + length m.operations) r
            → finish q lower add round4 m r ≡ some plan
            → plan.optimized_operations + length plan.decisions ≡ plan.original_operations
        go (Optimized.optimized s kept ds) n e =
            let same : plan_of q lower add round4 m kept ds ≡ plan = cc in
            subst (λ p. p.optimized_operations + length p.decisions ≡ p.original_operations) same
              (omega arith)
        go (Optimized.refused message) n e = cc
        go Optimized.missing_key n e = cc
