-- ===== src/Runtime/State/Closed.antt =====
-- The dependencies that `process` (fluidgateway/runtime.py) gives to operations: where operations
-- depend on earlier ones only, they are ids of operations that the plan keeps.
use fluid_gateway.Common.{
  ◌≡◌, refl, ap, subst, sym, ◌∙◌, Bool-cases, inl, inr, Bool, true, ◌&&◌, some, List, [], ◌∷◌, ◌++◌,
  all, All, All-map, All-append, arith,
}
use fluid_gateway.Wire.Errors.{Text}
use fluid_gateway.Runtime.Data.{Quantity, Operation, Decision, is_member}
use fluid_gateway.Runtime.State.{
  State, Processed, apply_decision, keep, with_dependencies, add_id, process, Optimized, collect,
  optimize, Manifest, Plan, initial, plan_of, finish, optimize_manifest,
}
use fluid_gateway.Runtime.State.Held.{In, In-append, Inv}
use fluid_gateway.Runtime.State.Stepping.{before, renewed, Step, process-Step}
use fluid_gateway.Runtime.State.Stepping.{keep_ids}
use fluid_gateway.Runtime.State.Steady.{
  add_id-Inv, keep-Inv, renewed-In, retained_by-In, apply_decision-Inv, In-last,
}

-- The ids of operations.
abbrev pub ids_of : {N : Type 0} → List (Operation N) → List Text
ids_of [] = []
ids_of (o ∷ os) = o.id ∷ ids_of os

-- Each operation depends only on operations before it.
abbrev pub backward : {N : Type 0} → List Text → List (Operation N) → Bool
backward seen [] = true
backward seen (o ∷ os) = all (λ d. is_member d seen) o.depends_on && backward (o.id ∷ seen) os

-- Each operation depends on kept ones.
abbrev pub Closed : {N : Type 0} → List Text → List (Operation N) → Type 0
Closed ids kept = All (λ o. All (In ids) o.depends_on) kept

ids_of-append :
    {N : Type 0} (kept : List (Operation N)) (o : Operation N)
    → ids_of (kept ++ o ∷ []) ≡ ids_of kept ++ o.id ∷ []
ids_of-append [] o = refl
ids_of-append (k ∷ kept) o = ap (λ l. k.id ∷ l) (ids_of-append kept o)

module _ {N : Type 0} (q : Quantity N) (lower : Text → Text) where
  abbrev Good : Optimized q lower → Type 0
  Good (Optimized.optimized s kept ds) = Closed (ids_of kept) kept
  Good (Optimized.refused message) = Unit
  Good Optimized.missing_key = Unit

  Closed-append :
      (kept : List (Operation N)) (o : Operation N)
      → Closed (ids_of kept) kept
      → All (In (ids_of kept)) o.depends_on
      → Closed (ids_of kept ++ o.id ∷ []) (kept ++ o ∷ [])
  Closed-append kept o c h =
      let grow = In-append (ids_of kept) (o.id ∷ []) in
      let wider = All-map (In (ids_of kept)) (In (ids_of kept ++ o.id ∷ [])) grow in
      All-append (λ o'. All (In (ids_of kept ++ o.id ∷ [])) o'.depends_on) kept (o ∷ [])
        (All-map (λ o'. All (In (ids_of kept)) o'.depends_on)
          (λ o'. All (In (ids_of kept ++ o.id ∷ [])) o'.depends_on) (λ o' d. wider o'.depends_on d)
          kept c)
        (wider o.depends_on h, tt)

  -- One round, by what holds of the rounds after it.
  Good-collect :
      (s : State N) (o : Operation N) (os kept : List (Operation N)) (ds : List (Decision N))
      (next : State N → List (Operation N) → List (Decision N) → Optimized q lower)
      (r : Processed N)
      → Inv q s (ids_of kept)
      → Closed (ids_of kept) kept
      → all (λ d. is_member d s.operation_ids) o.depends_on ≡ true
      → backward (o.id ∷ s.operation_ids) os ≡ true
      → ((s : State N) (kept : List (Operation N)) (ds : List (Decision N))
          → Inv q s (ids_of kept)
          → Closed (ids_of kept) kept
          → backward s.operation_ids os ≡ true
          → Good (next s kept ds))
      → Step q lower s o r
      → Good (collect q lower kept ds r next)
  unfolding collect with_dependencies apply_decision add_id
  Good-collect s o os kept ds next _ i c deps b ih Step.kept =
      let o' = renewed q lower s o in
      let inv : Inv q (keep q (before q lower s o) o') (ids_of kept ++ o.id ∷ []) =
        keep-Inv q (before q lower s o) o' _ (In-last q (ids_of kept) o.id)
          (add_id-Inv q s (ids_of kept) o.id i) in
      let ids : ids_of (kept ++ o' ∷ []) ≡ ids_of kept ++ o.id ∷ [] = ids_of-append kept o' in
      let closed = Closed-append kept o' c (renewed-In q lower s o (ids_of kept) i deps) in
      ih (keep q (before q lower s o) o') (kept ++ o' ∷ []) ds
        (subst (Inv q (keep q (before q lower s o) o')) (sym ids) inv)
        (subst (λ l. Closed l (kept ++ o' ∷ [])) (sym ids) closed)
        (subst (λ l. backward l os ≡ true) (sym (keep_ids q (before q lower s o) o')) b)
  Good-collect s o os kept ds next _ i c deps b ih (Step.decided d retained found) =
      let o' = renewed q lower s o in
      ih _ kept (ds ++ d ∷ [])
        (apply_decision-Inv q s o' (ids_of kept) retained i
          (λ previous e.
            retained_by-In q d.policy (before q lower s o) o' (ids_of kept) previous i.copies
              i.buffers (found ∙ ap some e))
          (renewed-In q lower s o (ids_of kept) i deps))
        c b

  Good-optimize :
      (os : List (Operation N)) (s : State N) (kept : List (Operation N)) (ds : List (Decision N))
      → Inv q s (ids_of kept)
      → Closed (ids_of kept) kept
      → backward s.operation_ids os ≡ true
      → Good (optimize q lower os s kept ds)
  unfolding optimize collect process
  Good-optimize [] s kept ds i c b = c
  Good-optimize (o ∷ os) s kept ds i c b = elim (Bool-cases (is_member o.id s.operation_ids)) [
    | inl seen ↦ rw seen tt
    | inr fresh ↦
        Good-collect s o os kept ds (optimize q lower os) (process q lower s o) i c (ground arith)
          (ground arith) (λ s kept ds. Good-optimize os s kept ds) (process-Step q lower s o fresh)
  ]

  module _ (add : N → N → N) (round4 : N → N) where
    -- Where each operation of a manifest depends on operations before it alone, every dependency
    -- of an operation that the plan keeps is the id of an operation that the plan keeps.
    pub optimize_manifest-Closed :
        (m : Manifest N) (plan : Plan N)
        → backward [] m.operations ≡ true
        → optimize_manifest q lower add round4 m ≡ some plan
        → Closed (ids_of plan.kept_operations) plan.kept_operations
    unfolding optimize_manifest finish plan_of initial
    optimize_manifest-Closed m plan b =
        go (optimize q lower m.operations (initial m.resources) [] []) (
          Good-optimize m.operations (initial m.resources) [] []
            (record { values = tt; seen = λ id h. cc; copies = tt; buffers = tt }) tt b)
      where
        go :
            (r : Optimized q lower)
            → Good r
            → finish q lower add round4 m r ≡ some plan
            → Closed (ids_of plan.kept_operations) plan.kept_operations
        go (Optimized.optimized s kept ds) c e =
            let same : plan_of q lower add round4 m kept ds ≡ plan = cc in
            subst (λ p. Closed (ids_of p.kept_operations) p.kept_operations) same c
        go (Optimized.refused message) c e = cc
        go Optimized.missing_key c e = cc
