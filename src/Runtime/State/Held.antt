-- ===== src/Runtime/State/Held.antt =====
-- What the state of `process` (fluidgateway/runtime.py) holds on to: operations that are kept, and
-- for what it has decided, the ids of such operations.
use fluid_gateway.Common.{
  ◌≡◌, refl, subst, Bool-cases, ◌⊎◌, inl, inr, Option-cases, Bool, true, not, ◌&&◌, Option, none,
  some, List, [], ◌∷◌, ◌++◌, all, All, All-append, All-select, if_both, arith,
}
use fluid_gateway.Frame.{is_some}
use fluid_gateway.Wire.Errors.{Text}
use fluid_gateway.Runtime.Data.{
  Quantity, Resource, Operation, same_text, same_text-eq, is_member, lookup,
}
use fluid_gateway.Runtime.Invalidation.{Outcome, drop_stale, invalidate, reached_from}
use fluid_gateway.Runtime.Invalidation.Reached.{same_text_refl}
use fluid_gateway.Runtime.State.{
  State, store, unique, replaced, invalidate_resource, drop_buffers, note_write, store_copy,
  note_copy, note_allocation, is_known, writes, is_transfer, is_allocation,
}

module _ {V : Type 0} (P : V → Type 0) where
  pub All-store :
      (key : Text) (value : V) (d : List (Text × V))
      → P value
      → All (λ x. P x.1) d
      → All (λ x. P x.1) (store key value d)
  unfolding store
  All-store key value [] p h = (p, tt)
  All-store key value ((k, v) ∷ rest) p h =
      if_both (All (λ x. P x.1)) (same_text key k) ((k, value) ∷ rest)
        ((k, v) ∷ store key value rest) (p, h.1) (h.0, All-store key value rest p h.1)

  pub All-lookup :
      {K : Type 0} (test : K → Bool) (d : List (K × V)) (v : V)
      → All (λ x. P x.1) d
      → lookup test d ≡ some v
      → P v
  unfolding lookup
  All-lookup test [] v h e = cc
  All-lookup test ((k, w) ∷ rest) v h e = elim (Bool-cases (test k)) [
    | inl t ↦ let same : w ≡ v = ground arith in subst P same h.0
    | inr f ↦ All-lookup test rest v h.1 (ground arith)
  ]

pub All-unique : (P : Text → Type 0) (names : List Text) → All P names → All P (unique names)
unfolding unique
All-unique P [] h = tt
All-unique P (name ∷ names) h =
    (h.0, All-select P (λ n. not (same_text name n)) (unique names) (All-unique P names h.1))

-- The names that are ids of the operations kept so far.
abbrev pub In : List Text → Text → Type 0
In ids name = is_member name ids ≡ true

pub In-append : (ids more : List Text) (name : Text) → In ids name → In (ids ++ more) name
In-append [] more name h = cc
In-append (id ∷ ids) more name h = elim (Bool-cases (same_text name id)) [
  | inl e ↦ ground arith
  | inr e ↦ ground (arith, In-append ids more name (ground arith))
]

abbrev pub is_replaced : List (Text × List Text) → Text → Bool
is_replaced replacements id = is_some (lookup (same_text id) replacements)

pub is_replaced-store :
    (key : Text) (names : List Text) (d : List (Text × List Text))
    → is_replaced (store key names d) key ≡ true
unfolding store lookup
is_replaced-store key names [] = rw (same_text_refl key) refl
is_replaced-store key names ((k, v) ∷ rest) = elim (Bool-cases (same_text key k)) [
  | inl e ↦ rw (e, same_text-eq key k e, same_text_refl k) refl
  | inr e ↦ rw (e, e) (is_replaced-store key names rest)
]

pub store_keeps :
    (key : Text) (names : List Text) (d : List (Text × List Text)) (id : Text)
    → is_replaced d id ≡ true
    → is_replaced (store key names d) id ≡ true
unfolding store lookup
store_keeps key names [] id h = cc
store_keeps key names ((k, v) ∷ rest) id h = elim (Bool-cases (same_text key k)) [
  | inl e ↦ elim (Bool-cases (same_text id k)) [
    | inl f ↦ rw (e, f) refl
    | inr f ↦ rw (e, f) (ground arith)
  ]
  | inr e ↦ elim (Bool-cases (same_text id k)) [
    | inl f ↦ rw (e, f) refl
    | inr f ↦ rw (e, f) (store_keeps key names rest id (ground arith))
  ]
]

module _ {N : Type 0} (q : Quantity N) where
  -- What the state holds on to is kept, and what it has seen is kept or replaced.
  pub record Inv (s : State N) (ids : List Text) : Type 0 where
    pub values : All (λ x. All (In ids) x.1) s.replacements
    pub seen :
        (id : Text)
        → is_member id s.operation_ids ≡ true
        → In ids id ⊎ (is_replaced s.replacements id ≡ true)
    pub copies : All (λ x. In ids x.1.id) s.last_copy_by_target
    pub buffers : All (λ x. In ids x.1.id) s.active_buffers

  pub replaced-In :
      (s : State N) (ids deps : List Text)
      → Inv s ids
      → all (λ d. is_member d s.operation_ids) deps ≡ true
      → All (In ids) (replaced s.replacements deps)
  unfolding replaced
  replaced-In s ids [] i h = tt
  replaced-In s ids (dep ∷ deps) i h = elim (Option-cases (lookup (same_text dep) s.replacements)) [
    | inr (names, found) ↦ rw found (
        All-append (In ids) names (replaced s.replacements deps)
          (All-lookup (All (In ids)) (same_text dep) s.replacements names i.values found)
          (replaced-In s ids deps i (ground arith)))
    | inl missing ↦
        let here : In ids dep = elim (i.seen dep (ground arith)) [
          | inl kept ↦ kept
          | inr r ↦ absurd (ground arith)
        ] in
        rw missing (here, replaced-In s ids deps i (ground arith))
  ]

  pub All-invalidate :
      (P : Text × Operation N → Type 0) (resources : List (Text × Resource N)) (name : Option Text)
      (copies : List (Text × Operation N))
      → All P copies
      → All P (invalidate q resources name copies)
  unfolding invalidate drop_stale
  All-invalidate P resources name copies h = go (reached_from q resources name)
    where
      go : (r : Outcome) → All P (drop_stale r copies)
      go (Outcome.reached names) = All-select P _ copies h
      go Outcome.unknown_resource = tt
      go Outcome.out_of_fuel = h

  pub note_write-Inv :
      (s : State N) (o : Operation N) (ids : List Text) → Inv s ids → Inv (note_write q s o) ids
  unfolding note_write invalidate_resource
  note_write-Inv s o ids i =
      if_both (λ s. Inv s ids) (writes o.type) (invalidate_resource q s o.target) s
        (record {
          values = i.values;
          seen = i.seen;
          copies = All-invalidate _ s.resources o.target s.last_copy_by_target i.copies;
          buffers = i.buffers;
        })
        i

  store_copy-In :
      (target : Option Text) (o : Operation N) (ids : List Text)
      (copies : List (Text × Operation N))
      → In ids o.id
      → All (λ x. In ids x.1.id) copies
      → All (λ x. In ids x.1.id) (store_copy q target o copies)
  unfolding store_copy
  store_copy-In none o ids copies h i = i
  store_copy-In (some target) o ids copies h i =
      All-store (λ (p : Operation N). In ids p.id) target o copies h i

  pub note_copy-Inv :
      (s : State N) (o : Operation N) (ids : List Text)
      → In ids o.id
      → Inv s ids
      → Inv (note_copy q s o) ids
  unfolding note_copy
  note_copy-Inv s o ids h i =
      if_both (λ s. Inv s ids) (is_transfer o.type && is_known q s o.target) _ s
        (record {
          values = i.values;
          seen = i.seen;
          copies = store_copy-In o.target o ids s.last_copy_by_target h i.copies;
          buffers = i.buffers;
        })
        i

  pub note_allocation-Inv :
      (s : State N) (o : Operation N) (ids : List Text)
      → In ids o.id
      → Inv s ids
      → Inv (note_allocation q s o) ids
  unfolding note_allocation drop_buffers
  note_allocation-Inv s o ids h i =
      if_both (λ s. Inv s ids) (is_allocation o.type && is_known q s o.target) _ s
        (record {
          values = i.values;
          seen = i.seen;
          copies = i.copies;
          buffers =
              All-append (λ x. In ids x.1.id) _ _
                (All-select (λ x. In ids x.1.id) _ s.active_buffers i.buffers) (h, tt);
        })
        i
