-- ===== src/Runtime/Parsing/Keyed.antt =====
-- What a manifest is like that `load_manifest` (fluidgateway/runtime.py) returns.
use fluid_gateway.Common.{
  ◌≡◌, refl, subst, Bool-cases, inl, inr, Bool, true, false, not, ◌&&◌, ◌||◌, List, [], ◌∷◌, ◌++◌,
  All, All-append, arith,
}
use fluid_gateway.Frame.{is_some}
use fluid_gateway.Wire.Errors.{Text, ok, say, >>=-eq-ok}
use fluid_gateway.Runtime.Data.{Resource, Operation, same_text, lookup}
use fluid_gateway.Runtime.State.{Manifest}
use fluid_gateway.Json.{
  Value, Values, nil, item, object, null, foreign, boolean, whole, number, text, sequence,
}
use fluid_gateway.Runtime.Parsing.{
  Python, parse_resource, parse_operation, parse_resources, parse_operations, list_field,
  load_manifest,
}
use fluid_gateway.Runtime.Parsing.Entries.{
  IsResource, IsOperation, parse_resource-IsResource, parse_operation-IsOperation,
}

module _ {F : Type 0} (python : Python F) where
  -- A dict of resources under their ids, no id twice.
  abbrev pub distinct_keys : List (Text × Resource F) → Bool
  distinct_keys [] = true
  distinct_keys ((key, r) ∷ rest) =
      not (is_some (lookup (same_text key) rest)) && distinct_keys rest

  pub record IsKeyed (d : List (Text × Resource F)) : Type 0 where
    pub keys : All (λ x. (x.0 ≡ x.1.id) × IsResource python x.1) d
    pub distinct : distinct_keys d ≡ true

  pub lookup-append :
      (key other : Text) (r : Resource F) (d : List (Text × Resource F))
      → is_some (lookup (same_text key) (d ++ (other, r) ∷ []))
        ≡ (is_some (lookup (same_text key) d) || same_text key other)
  unfolding lookup
  lookup-append key other r [] = ground arith
  lookup-append key other r ((k, s) ∷ d) = ground (arith, lookup-append key other r d)

  pub same_text_comm : (a b : Text) → same_text a b ≡ same_text b a
  same_text_comm [] [] = refl
  same_text_comm [] (d ∷ ds) = refl
  same_text_comm (c ∷ cs) [] = refl
  same_text_comm (c ∷ cs) (d ∷ ds) = ground (arith, same_text_comm cs ds)

  pub distinct_keys-append :
      (d : List (Text × Resource F)) (key : Text) (r : Resource F)
      → distinct_keys d ≡ true
      → is_some (lookup (same_text key) d) ≡ false
      → distinct_keys (d ++ (key, r) ∷ []) ≡ true
  unfolding lookup
  distinct_keys-append [] key r h e = refl
  distinct_keys-append ((k, s) ∷ d) key r h e = ground (
    arith,
    lookup-append k key r d,
    same_text_comm key k,
    distinct_keys-append d key r (ground arith) (ground arith),
  )

  parse_resources-IsKeyed :
      (values : Values F) (d m : List (Text × Resource F))
      → IsKeyed d
      → parse_resources python values d ≡ ok m
      → IsKeyed m
  unfolding parse_resources
  parse_resources-IsKeyed nil d m k h = let same : d ≡ m = cc in subst IsKeyed same k
  parse_resources-IsKeyed (item value values) d m k h =
      let (r, parsed, h₁) = >>=-eq-ok (parse_resource python value) _ h in
      elim (Bool-cases (is_some (lookup (same_text r.id) d))) [
        | inl there ↦ absurd (ground arith)
        | inr fresh ↦
            parse_resources-IsKeyed values (d ++ (r.id, r) ∷ []) m
              (record {
                keys =
                    All-append (λ x. (x.0 ≡ x.1.id) × IsResource python x.1) d ((r.id, r) ∷ [])
                      k.keys ((refl, parse_resource-IsResource python value r parsed), tt);
                distinct = distinct_keys-append d r.id r k.distinct fresh;
              })
              (ground arith)
      ]

  parse_operations-IsOperation :
      (values : Values F) (os : List (Operation F))
      → parse_operations python values ≡ ok os
      → All (IsOperation python) os
  unfolding parse_operations
  parse_operations-IsOperation nil os h =
      let same : ◌≡◌ {A = List (Operation F)} [] os = cc in subst (All (IsOperation python)) same tt
  parse_operations-IsOperation (item value values) os h =
      let (o, parsed, h₁) = >>=-eq-ok (parse_operation python value) _ h in
      let (rest, parsed', h₂) = >>=-eq-ok (parse_operations python values) _ h₁ in
      let same : ◌≡◌ {A = List (Operation F)} (o ∷ rest) os = cc in
      subst (All (IsOperation python)) same (
        parse_operation-IsOperation python value o parsed,
        parse_operations-IsOperation values rest parsed',
      )

  pub record IsLoaded (m : Manifest F) : Type 0 where
    pub resources : IsKeyed m.resources
    pub operations : All (IsOperation python) m.operations

  -- Where load_manifest returns a manifest, its resources stand under their ids, no id twice, each
  -- with an id, a known kind, a known memory and a size that is an amount, and each operation has
  -- an id, a cost and a size that are amounts; an amount is 0.0, or finite and not negative.
  pub load_manifest-IsLoaded :
      (stem : Text) (value : Value F) (m : Manifest F)
      → load_manifest python stem value ≡ ok m
      → IsLoaded m
  unfolding load_manifest
  load_manifest-IsLoaded stem (object payload) m h =
      let (rp, e₁, h₁) = >>=-eq-ok (list_field python (say "resources") payload) _ h in
      let (op, e₂, h₂) = >>=-eq-ok (list_field python (say "operations") payload) _ h₁ in
      let (resources, e₃, h₃) = >>=-eq-ok (parse_resources python rp []) _ h₂ in
      let (operations, e₄, h₄) = >>=-eq-ok (parse_operations python op) _ h₃ in
      let same : resources ≡ m.resources = ground arith in
      let same' : operations ≡ m.operations = ground arith in
      record {
        resources =
            subst IsKeyed same
              (parse_resources-IsKeyed rp [] resources (record { keys = tt; distinct = refl }) e₃);
        operations =
            subst (All (IsOperation python)) same' (parse_operations-IsOperation op operations e₄);
      }
  load_manifest-IsLoaded stem null m h = cc
  load_manifest-IsLoaded stem foreign m h = cc
  load_manifest-IsLoaded stem (boolean b) m h = cc
  load_manifest-IsLoaded stem (whole n) m h = cc
  load_manifest-IsLoaded stem (number n) m h = cc
  load_manifest-IsLoaded stem (text t) m h = cc
  load_manifest-IsLoaded stem (sequence vs) m h = cc
