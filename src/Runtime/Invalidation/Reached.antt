-- ===== src/Runtime/Invalidation/Reached.antt =====
-- What the loop of `invalidate_resource` (fluidgateway/runtime.py) has reached when it is done: with
-- every name, the views of its resource.
use fluid_gateway.Common.{
  ℕ, zero, suc, ◌≡◌, refl, subst, Bool-cases, ◌⊎◌, inl, inr, Option-cases, true, not, ◌&&◌, Option,
  none, some, List, [], ◌∷◌, All, All-Memᴰ, All-map, arith,
}
use fluid_gateway.Wire.Errors.{Text}
use fluid_gateway.Runtime.Data.{Quantity, Resource, same_text, same_name, same_name-eq}
use fluid_gateway.Runtime.Decide.{find_resource}
use fluid_gateway.Runtime.Invalidation.{
  is_affected, Spread, reached, unknown_resource, is_view, offer, spread, reach,
}
use fluid_gateway.Runtime.Invalidation.Linked.{Linked}

pub same_text_refl : (t : Text) → same_text t t ≡ true
same_text_refl [] = refl
same_text_refl (c ∷ cs) = ground (arith, same_text_refl cs)

pub same_name_refl : (name : Option Text) → same_name name name ≡ true
same_name_refl none = refl
same_name_refl (some t) = same_text_refl t

-- Nothing leaves the two lists of the loop, and what is new in the first is in the second.
record Grows (s s' : Spread) : Type 0 where
  affected : (n : Option Text) → is_affected n s.affected ≡ true → is_affected n s'.affected ≡ true
  pending : (n : Option Text) → is_affected n s.pending ≡ true → is_affected n s'.pending ≡ true
  fresh :
      (n : Option Text)
      → is_affected n s'.affected ≡ true
      → (is_affected n s.affected ≡ true) ⊎ (is_affected n s'.pending ≡ true)

Grows-refl : (s : Spread) → Grows s s
Grows-refl s = record { affected = λ n h. h; pending = λ n h. h; fresh = λ n h. inl h }

Grows-trans : (s t u : Spread) → Grows s t → Grows t u → Grows s u
Grows-trans s t u f g = record {
  affected = λ n h. g.affected n (f.affected n h);
  pending = λ n h. g.pending n (f.pending n h);
  fresh = λ n h. elim (g.fresh n h) [
    | inr p ↦ inr p
    | inl a ↦ elim (f.fresh n a) [ inl b ↦ inl b | inr p ↦ inr (g.pending n p) ]
  ];
}

module _ {N : Type 0} where
  offer-Grows : (resource other : Resource N) (s : Spread) → Grows s (offer resource other s)
  unfolding offer
  offer-Grows resource other s =
      elim (Bool-cases (not (is_affected (some other.id) s.affected) && is_view resource other)) [
        | inr t ↦ rw t (Grows-refl s)
        | inl t ↦ rw t (record {
          affected = λ n h. ground arith;
          pending = λ n h. ground arith;
          fresh = λ n h. elim (Bool-cases (same_name n (some other.id))) [
            | inl e ↦ inr (ground arith)
            | inr e ↦ inl (ground arith)
          ];
        })
      ]

  spread-Grows :
      (resource : Resource N) (rest : List (Text × Resource N)) (s : Spread)
      → Grows s (spread resource rest s)
  unfolding spread
  spread-Grows resource [] s = Grows-refl s
  spread-Grows resource ((_, other) ∷ rest) s =
      Grows-trans s (offer resource other s) _ (offer-Grows resource other s)
        (spread-Grows resource rest (offer resource other s))

  -- The views of a resource are affected.
  abbrev Covers : Resource N → List (Option Text) → Text × Resource N → Type 0
  Covers resource affected (key, other) =
      is_view resource other ≡ true → is_affected (some other.id) affected ≡ true

  offer-Covers :
      (resource other : Resource N) (s : Spread)
      → is_view resource other ≡ true
      → is_affected (some other.id) (offer resource other s).affected ≡ true
  unfolding offer
  offer-Covers resource other s v = elim (Bool-cases (is_affected (some other.id) s.affected)) [
    | inl e ↦ rw e e
    | inr e ↦ rw (e, v) (ground (arith, same_name_refl (some other.id)))
  ]

  spread-Covers :
      (resource : Resource N) (rest : List (Text × Resource N)) (s : Spread)
      → All (Covers resource (spread resource rest s).affected) rest
  unfolding spread
  spread-Covers resource [] s = tt
  spread-Covers resource ((_, other) ∷ rest) s = (
    λ v.
        (spread-Grows resource rest (offer resource other s)).affected (some other.id)
          (offer-Covers resource other s v),
    spread-Covers resource rest (offer resource other s),
  )

module _ {N : Type 0} (q : Quantity N) (resources : List (Text × Resource N)) where
  -- The views of the resource of a name are affected.
  abbrev Covered : List (Option Text) → Option Text → Type 0
  Covered affected name =
      (resource : Resource N)
      → find_resource q resources name ≡ some resource
      → All (Covers resource affected) resources

  abbrev Closed : List (Option Text) → List (Option Text) → Type 0
  Closed affected pending =
      (name : Option Text)
      → is_affected name affected ≡ true
      → (is_affected name pending ≡ true) ⊎ Covered affected name

  Covered-Grows :
      (s s' : Spread) (name : Option Text)
      → Grows s s'
      → Covered s.affected name
      → Covered s'.affected name
  Covered-Grows s s' name g c resource e =
      All-map (Covers resource s.affected) (Covers resource s'.affected)
        (λ x h v. g.affected (some x.1.id) (h v)) resources (c resource e)

  round-Closed :
      (name : Option Text) (resource : Resource N) (affected pending : List (Option Text))
      → find_resource q resources name ≡ some resource
      → Closed affected (name ∷ pending)
      → let s = spread resource resources (record { affected = affected; pending = pending }) in
        Closed s.affected s.pending
  round-Closed name resource affected pending e closed n h =
      let s : Spread = record { affected = affected; pending = pending } in
      let s' = spread resource resources s in
      let grows = spread-Grows resource resources s in
      elim (grows.fresh n h) [
        | inr p ↦ inl p
        | inl a ↦ elim (closed n a) [
          | inr c ↦ inr (Covered-Grows s s' n grows c)
          | inl p ↦ elim (Bool-cases (same_name n name)) [
            | inr other ↦ inl (grows.pending n (ground arith))
            | inl same ↦ inr (λ r found.
                let here : n ≡ name = same_name-eq n name same in
                let one : resource ≡ r = cc in
                subst (λ r. All (Covers r s'.affected) resources) one
                  (spread-Covers resource resources s))
          ]
        ]
      ]

  -- When the loop is done, it has all names it started with, and the views of every resource.
  reach-Closed :
      (fuel : ℕ) (affected pending names : List (Option Text))
      → Closed affected pending
      → reach q resources fuel affected pending ≡ reached names
      → ((n : Option Text) → is_affected n affected ≡ true → is_affected n names ≡ true)
        × Closed names []
  unfolding reach
  reach-Closed fuel affected [] names closed e =
      let same : affected ≡ names = cc in
      subst
        (λ l.
          ((n : Option Text) → is_affected n affected ≡ true → is_affected n l ≡ true)
          × Closed l [])
        same ((λ n h. h), closed)
  reach-Closed zero affected (name ∷ pending) names closed e = cc
  reach-Closed (suc fuel) affected (name ∷ pending) names closed e =
      elim (Option-cases (find_resource q resources name)) [
        | inl missing ↦
            let stuck : unknown_resource ≡ reached names = rw (reach, missing) at e in cc
        | inr (resource, found) ↦
            let s : Spread = record { affected = affected; pending = pending } in
            let s' = spread resource resources s in
            let rest : reach q resources fuel s'.affected s'.pending ≡ reached names =
              rw (reach, found) at e in
            let (all_there, end) =
              reach-Closed fuel s'.affected s'.pending names
                (round-Closed name resource affected pending found closed) rest in
            ((λ n h. all_there n ((spread-Grows resource resources s).affected n h)), end)
      ]

  -- All that is linked to a name with which the loop starts is reached.
  pub Linked-reached :
      (start : Option Text) (fuel : ℕ) (names : List (Option Text)) (name : Option Text)
      → reach q resources fuel (start ∷ []) (start ∷ []) ≡ reached names
      → Linked q resources start name
      → is_affected name names ≡ true
  Linked-reached start fuel names name e link =
      let (all_there, end) = reach-Closed fuel (start ∷ []) (start ∷ []) names (λ n h. inl h) e in
      go all_there end name link
    where
      go :
          ((n : Option Text) → is_affected n (start ∷ []) ≡ true → is_affected n names ≡ true)
          → Closed names []
          → (name : Option Text) → Linked q resources start name
          → is_affected name names ≡ true
      go all_there end _ Linked.here = all_there start (ground (arith, same_name_refl start))
      go all_there end _ (Linked.step {name} {resource} {other} {key} l found m v) =
          elim (end name (go all_there end name l)) [
            | inl p ↦ cc
            | inr c ↦ All-Memᴰ (Covers resource names) resources (c resource found) (key, other) m v
          ]
