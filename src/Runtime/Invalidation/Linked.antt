-- ===== src/Runtime/Invalidation/Linked.antt =====
-- The views of a resource that are connected through aliases, said without the loop of
-- `invalidate_resource` (fluidgateway/runtime.py), and the loop's invariants about them.
use fluid_gateway.Common.{
  ℕ, zero, suc, ◌≡◌, subst, Bool-cases, inl, inr, Option-cases, true, not, ◌&&◌, Option, none, some,
  List, [], ◌∷◌, Memᴰ, All, All_every, arith,
}
use fluid_gateway.Wire.Errors.{Text}
use fluid_gateway.Runtime.Data.{Quantity, Resource}
use fluid_gateway.Runtime.Decide.{find_resource}
use fluid_gateway.Runtime.Invalidation.{
  is_affected, Spread, reached, unknown_resource, is_view, offer, spread, reach,
}

module _ {N : Type 0} (q : Quantity N) (resources : List (Text × Resource N)) where
  -- The names that a write to `start` reaches.
  pub data Linked (start : Option Text) : Option Text → Type 0 where
    here : Linked start start
    step :
        {name : Option Text} {resource other : Resource N} {key : Text}
        → Linked start name
        → find_resource q resources name ≡ some resource
        → Memᴰ (key, other) resources
        → is_view resource other ≡ true
        → Linked start (some other.id)

  module _ (start : Option Text) where
    -- A state of the loop with linked names only.
    abbrev AllLinked : List (Option Text) → Type 0
    AllLinked = All (Linked start)

    offer-AllLinked :
        (name : Option Text) (resource other : Resource N) (key : Text) (s : Spread)
        → Linked start name
        → find_resource q resources name ≡ some resource
        → Memᴰ (key, other) resources
        → AllLinked s.affected
        → AllLinked s.pending
        → AllLinked (offer resource other s).affected × AllLinked (offer resource other s).pending
    unfolding offer
    offer-AllLinked name resource other key s l e m a p =
        elim (Bool-cases (not (is_affected (some other.id) s.affected) && is_view resource other)) [
          | inr t ↦ rw t (a, p)
          | inl t ↦ rw t let next = Linked.step l e m (ground arith) in ((next, a), (next, p))
        ]

    spread-AllLinked :
        (name : Option Text) (resource : Resource N) (rest : List (Text × Resource N)) (s : Spread)
        → Linked start name
        → find_resource q resources name ≡ some resource
        → All (λ x. Memᴰ x resources) rest
        → AllLinked s.affected
        → AllLinked s.pending
        → AllLinked (spread resource rest s).affected × AllLinked (spread resource rest s).pending
    unfolding spread
    spread-AllLinked name resource [] s l e m a p = (a, p)
    spread-AllLinked name resource ((key, other) ∷ rest) s l e m a p =
        let both = offer-AllLinked name resource other key s l e m.0 a p in
        spread-AllLinked name resource rest (offer resource other s) l e m.1 both.0 both.1

    -- The loop reaches linked names only.
    pub reach-AllLinked :
        (fuel : ℕ) (affected pending names : List (Option Text))
        → AllLinked affected
        → AllLinked pending
        → reach q resources fuel affected pending ≡ reached names
        → All (Linked start) names
    unfolding reach
    reach-AllLinked fuel affected [] names a p e =
        let same : affected ≡ names = cc in subst AllLinked same a
    reach-AllLinked zero affected (name ∷ pending) names a p e = cc
    reach-AllLinked (suc fuel) affected (name ∷ pending) names a p e =
        elim (Option-cases (find_resource q resources name)) [
          | inl missing ↦
              let stuck : unknown_resource ≡ reached names = rw (reach, missing) at e in cc
          | inr (resource, found) ↦
              let s =
                spread resource resources (record { affected = affected; pending = pending }) in
              let rest : reach q resources fuel s.affected s.pending ≡ reached names =
                rw (reach, found) at e in
              let both =
                spread-AllLinked name resource resources _ p.0 found
                  (All_every (λ x. Memᴰ x resources) resources (λ x m. m)) a p.1 in
              reach-AllLinked fuel s.affected s.pending names both.0 both.1 rest
        ]

    -- Where the loop stops early, it has met a linked name that no resource has.
    pub reach_unknown :
        (fuel : ℕ) (affected pending : List (Option Text))
        → AllLinked affected
        → AllLinked pending
        → reach q resources fuel affected pending ≡ unknown_resource
        → (name : Option Text) × Linked start name × (find_resource q resources name ≡ none)
    unfolding reach
    reach_unknown fuel affected [] a p e = cc
    reach_unknown zero affected (name ∷ pending) a p e = cc
    reach_unknown (suc fuel) affected (name ∷ pending) a p e =
        elim (Option-cases (find_resource q resources name)) [
          | inl missing ↦ (name, p.0, missing)
          | inr (resource, found) ↦
              let s =
                spread resource resources (record { affected = affected; pending = pending }) in
              let rest : reach q resources fuel s.affected s.pending ≡ unknown_resource =
                rw (reach, found) at e in
              let both =
                spread-AllLinked name resource resources _ p.0 found
                  (All_every (λ x. Memᴰ x resources) resources (λ x m. m)) a p.1 in
              reach_unknown fuel s.affected s.pending both.0 both.1 rest
        ]
