-- ===== src/Runtime/Invalidation.antt =====
-- `RuntimeOptimizationState.invalidate_resource` of fluidgateway/runtime.py: the views of a resource
-- that a write through one of them reaches, and the copies that it makes stale.
pub mod Linked
pub mod Fuel
pub mod Reached
pub mod Stale
use fluid_gateway.Common.{
  ℕ, zero, suc, Bool, true, false, not, ◌&&◌, ◌||◌, Option, none, some, List, [], ◌∷◌, any, length,
  select, if◌then◌else◌,
}
use fluid_gateway.Wire.Errors.{Text}
use fluid_gateway.Runtime.Data.{Quantity, Resource, Operation, same_text, same_name}
use fluid_gateway.Runtime.Decide.{shares, find_resource}

-- `name in affected`
abbrev pub is_affected : Option Text → List (Option Text) → Bool
is_affected name = any (same_name name)

-- The locals of the loop; the last of `pending` comes first.
pub record Spread : Type 0 where
  pub affected : List (Option Text)
  pub pending : List (Option Text)

pub data Outcome : Type 0 where
  reached : List (Option Text) → Outcome
  unknown_resource out_of_fuel : Outcome

module _ {N : Type 0} where
  -- One memory, and an alias in common.
  abbrev pub is_view : Resource N → Resource N → Bool
  is_view resource other =
      same_text other.memory resource.memory && shares other.aliases resource.aliases

  -- The body of the inner loop.
  unfoldable pub offer : Resource N → Resource N → Spread → Spread
  offer resource other s =
      if not (is_affected (some other.id) s.affected) && is_view resource other
      then record { affected = some other.id ∷ s.affected; pending = some other.id ∷ s.pending }
      else s

  unfoldable pub spread : Resource N → List (Text × Resource N) → Spread → Spread
  spread resource [] s = s
  spread resource ((_, other) ∷ rest) s = spread resource rest (offer resource other s)

  module _ (q : Quantity N) (resources : List (Text × Resource N)) where
    -- The outer loop.
    unfoldable pub reach : ℕ → List (Option Text) → List (Option Text) → Outcome
    reach fuel affected [] = reached affected
    reach zero affected (name ∷ pending) = out_of_fuel
    reach (suc fuel) affected (name ∷ pending) = elim (find_resource q resources name) [
      | none ↦ unknown_resource
      | some resource ↦
          let s = spread resource resources (record { affected = affected; pending = pending }) in
          reach fuel s.affected s.pending
    ]

    -- Each round takes a name from `pending`, which gets no more names than there are resources.
    unfoldable pub reached_from : Option Text → Outcome
    reached_from name = reach (suc (length resources)) (name ∷ []) (name ∷ [])

  abbrev pub is_fresh : List (Option Text) → Text × Operation N → Bool
  is_fresh affected (target, previous) =
      not (is_affected (some target) affected || is_affected previous.source affected)

  -- What is left of `last_copy_by_target`; the loop has fuel enough, so the last case is not met.
  unfoldable pub drop_stale : Outcome → List (Text × Operation N) → List (Text × Operation N)
  drop_stale (reached affected) copies = select (is_fresh affected) copies
  drop_stale unknown_resource copies = []
  drop_stale out_of_fuel copies = copies

  -- `invalidate_resource`, which changes `last_copy_by_target` alone
  unfoldable pub invalidate :
      Quantity N
      → List (Text × Resource N)
      → Option Text
      → List (Text × Operation N)
      → List (Text × Operation N)
  invalidate q resources name copies = drop_stale (reached_from q resources name) copies
