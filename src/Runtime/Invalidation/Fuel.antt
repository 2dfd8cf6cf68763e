-- ===== src/Runtime/Invalidation/Fuel.antt =====
-- The loop of `invalidate_resource` (fluidgateway/runtime.py) ends: a resource enters `pending` once.
use fluid_gateway.Common.{
  ℕ, zero, suc, ◌+◌, ◌≤◌, ◌≡◌, ◌≢◌, ap, Bool-cases, inl, inr, Option-cases, false, not, ◌&&◌,
  Option, some, List, [], ◌∷◌, length, Memᴰ, All, All_every, if◌then◌else◌, arith,
}
use fluid_gateway.Wire.Errors.{Text}
use fluid_gateway.Runtime.Data.{Quantity, Resource, same_name}
use fluid_gateway.Runtime.Decide.{find_resource}
use fluid_gateway.Runtime.Invalidation.{
  is_affected, Spread, out_of_fuel, unknown_resource, is_view, offer, spread, reach, reached_from,
}
use fluid_gateway.Runtime.Invalidation.Reached.{same_name_refl}

module _ {N : Type 0} where
  -- How many resources are not affected yet.
  abbrev unseen : List (Option Text) → List (Text × Resource N) → ℕ
  unseen affected [] = 0
  unseen affected ((_, other) ∷ rest) =
      let n = unseen affected rest in if is_affected (some other.id) affected then n else suc n

  unseen-le-length :
      (affected : List (Option Text)) (rs : List (Text × Resource N))
      → unseen affected rs ≤ length rs
  unseen-le-length affected [] = omega arith
  unseen-le-length affected ((_, other) ∷ rest) =
      let ih = unseen-le-length affected rest in
      elim (Bool-cases (is_affected (some other.id) affected)) [
        | inl e ↦ rw e (omega arith)
        | inr e ↦ rw e (omega arith)
      ]

  unseen-cons-le :
      (name : Option Text) (affected : List (Option Text)) (rs : List (Text × Resource N))
      → unseen (name ∷ affected) rs ≤ unseen affected rs
  unseen-cons-le name affected [] = omega arith
  unseen-cons-le name affected ((_, other) ∷ rest) =
      let ih = unseen-cons-le name affected rest in
      elim (Bool-cases (is_affected (some other.id) affected)) [
        | inl e ↦ elim (Bool-cases (same_name (some other.id) name)) [
          | inl s ↦ rw (e, s) (omega arith)
          | inr s ↦ rw (e, s) (omega arith)
        ]
        | inr e ↦ elim (Bool-cases (same_name (some other.id) name)) [
          | inl s ↦ rw (e, s) (omega arith)
          | inr s ↦ rw (e, s) (omega arith)
        ]
      ]

  unseen-cons-lt :
      (key : Text) (other : Resource N) (affected : List (Option Text))
      (rs : List (Text × Resource N))
      → Memᴰ (key, other) rs
      → is_affected (some other.id) affected ≡ false
      → suc (unseen (some other.id ∷ affected) rs) ≤ unseen affected rs
  unseen-cons-lt key other affected [] m e = elim m [ ]
  unseen-cons-lt key other affected ((k, o) ∷ rest) (Memᴰ.head p) e =
      let same : other ≡ o = ap (λ x. x.1) p in
      let ih = unseen-cons-le (some other.id) affected rest in
      let found = same_name_refl (some other.id) in rw (← same, e, found) (omega arith)
  unseen-cons-lt key other affected ((k, o) ∷ rest) (Memᴰ.tail m) e =
      let ih = unseen-cons-lt key other affected rest m e in
      elim (Bool-cases (is_affected (some o.id) affected)) [
        | inl a ↦ elim (Bool-cases (same_name (some o.id) (some other.id))) [
          | inl s ↦ rw (a, s) (omega arith)
          | inr s ↦ rw (a, s) (omega arith)
        ]
        | inr a ↦ elim (Bool-cases (same_name (some o.id) (some other.id))) [
          | inl s ↦ rw (a, s) (omega arith)
          | inr s ↦ rw (a, s) (omega arith)
        ]
      ]

  -- What the loop still has to do.
  abbrev work : List (Text × Resource N) → Spread → ℕ
  work resources s = length s.pending + unseen s.affected resources

  offer-work-le :
      (resources : List (Text × Resource N)) (resource other : Resource N) (key : Text) (s : Spread)
      → Memᴰ (key, other) resources
      → work resources (offer resource other s) ≤ work resources s
  unfolding offer
  offer-work-le resources resource other key s m =
      elim (Bool-cases (not (is_affected (some other.id) s.affected) && is_view resource other)) [
        | inr t ↦ rw t (omega arith)
        | inl t ↦
            let less = unseen-cons-lt key other s.affected resources m (ground arith) in
            rw t (omega arith)
      ]

  spread-work-le :
      (resources : List (Text × Resource N)) (resource : Resource N)
      (rest : List (Text × Resource N)) (s : Spread)
      → All (λ x. Memᴰ x resources) rest
      → work resources (spread resource rest s) ≤ work resources s
  unfolding spread
  spread-work-le resources resource [] s m = omega arith
  spread-work-le resources resource ((key, other) ∷ rest) s m =
      let first = offer-work-le resources resource other key s m.0 in
      let others = spread-work-le resources resource rest (offer resource other s) m.1 in
      omega arith

  module _ (q : Quantity N) (resources : List (Text × Resource N)) where
    reach_enough :
        (fuel : ℕ) (affected pending : List (Option Text))
        → work resources (record { affected = affected; pending = pending }) ≤ fuel
        → reach q resources fuel affected pending ≢ out_of_fuel
    unfolding reach
    reach_enough fuel affected [] h e = cc
    reach_enough zero affected (name ∷ pending) h e = absurd (omega arith)
    reach_enough (suc fuel) affected (name ∷ pending) h e =
        elim (Option-cases (find_resource q resources name)) [
          | inl missing ↦
              let stuck : unknown_resource ≡ out_of_fuel = rw (reach, missing) at e in cc
          | inr (resource, found) ↦
              let s : Spread = record { affected = affected; pending = pending } in
              let s' = spread resource resources s in
              let rest : reach q resources fuel s'.affected s'.pending ≡ out_of_fuel =
                rw (reach, found) at e in
              let less =
                spread-work-le resources resource resources s
                  (All_every (λ x. Memᴰ x resources) resources (λ x m. m)) in
              reach_enough fuel s'.affected s'.pending (omega arith) rest
        ]

    -- The loop of invalidate_resource ends: one round for each resource and one for the name that
    -- is given are enough for it.
    pub reached_from_enough : (name : Option Text) → reached_from q resources name ≢ out_of_fuel
    unfolding reached_from
    reached_from_enough name =
        let bound = unseen-le-length (name ∷ []) resources in
        reach_enough (suc (length resources)) (name ∷ []) (name ∷ []) (omega arith)
