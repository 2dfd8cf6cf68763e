-- ===== src/Json/Shape.antt =====
-- What `validate_json_value` (fluidgateway/fluidlink.py) accepts, said without its recursion on the
-- depth.
use Prim.Native.Nat.{max}
use fluid_gateway.Common.{
  ℕ, suc, ◌+◌, ◌≤◌, ◌≡◌, refl, ap, ap₂, ◌∙◌, inl, inr, Bool-cases, Bool, true, false, ◌&&◌, leb,
  arith,
}
use fluid_gateway.Wire.Errors.{Result, ok, err, ◌>>◌, require, Code, Text}
use fluid_gateway.Json.{
  Value, Values, Fields, null, foreign, boolean, whole, number, text, sequence, object, nil, item,
  end, field, is_encodable, keys_encodable, validate_depth, validate_value, validate_values,
  validate_fields,
}

module _ {F : Type 0} where
  -- How many lists and dicts stand around the innermost value, itself included.
  unfoldable mutual
    pub nesting : Value F → ℕ
    nesting null = 0
    nesting foreign = 0
    nesting (boolean b) = 0
    nesting (whole n) = 0
    nesting (number x) = 0
    nesting (text t) = 0
    nesting (sequence vs) = suc (nesting_values vs)
    nesting (object fs) = suc (nesting_fields fs)

    pub nesting_values : Values F → ℕ
    nesting_values nil = 0
    nesting_values (item v vs) = max (nesting v) (nesting_values vs)

    pub nesting_fields : Fields F → ℕ
    nesting_fields end = 0
    nesting_fields (field k v fs) = max (nesting v) (nesting_fields fs)

  module _ (is_finite : F → Bool) where
    -- All texts and keys are encodable, all numbers finite, and nothing is outside JSON.
    unfoldable mutual
      pub is_clean : Value F → Bool
      is_clean null = true
      is_clean foreign = false
      is_clean (boolean b) = true
      is_clean (whole n) = true
      is_clean (number x) = is_finite x
      is_clean (text t) = is_encodable t
      is_clean (sequence vs) = clean_values vs
      is_clean (object fs) = keys_encodable fs && clean_fields fs

      pub clean_values : Values F → Bool
      clean_values nil = true
      clean_values (item v vs) = is_clean v && clean_values vs

      pub clean_fields : Fields F → Bool
      clean_fields end = true
      clean_fields (field k v fs) = is_clean v && clean_fields fs

abbrev pub is_ok : {A : Type 0} → Result A → Bool
is_ok (ok a) = true
is_ok (err e) = false

is_ok_then : (r s : Result (Unit {0})) → is_ok (r >> s) ≡ (is_ok r && is_ok s)
is_ok_then (ok u) s = refl
is_ok_then (err e) s = refl

is_ok-require : (b : Bool) (c : Code) (m : Text) → is_ok (require b c m) ≡ b
is_ok-require true c m = refl
is_ok-require false c m = refl

and_leb : (b : Bool) (d : ℕ) → d ≤ 65 → b ≡ (b && leb (d + 0) 65)
and_leb b d h = let fits : leb (d + 0) 65 ≡ true = ground arith in rw fits (ground arith)

-- A depth that two parts keep to.
and_leb-max :
    (p q : Bool) (d a b : ℕ)
    → ((p && leb (d + a) 65) && (q && leb (d + b) 65)) ≡ (p && q && leb (d + max a b) 65)
and_leb-max p q d a b = ground arith

-- A container at depth `d`, whose parts stand at `d + 1`.
module _ (d n : ℕ) (clean : Bool) (parts : Result (Unit {0})) where
  container :
      (d + 1 ≤ 65 → is_ok parts ≡ (clean && leb (d + 1 + n) 65))
      → is_ok (validate_depth d >> parts) ≡ (clean && leb (d + suc n) 65)
  unfolding validate_depth
  container f = elim (Bool-cases (leb d 64)) [
    | inl shallow ↦
        let inner = f (ground arith) in
        let same : leb (d + suc n) 65 ≡ leb (d + 1 + n) 65 = ground arith in
        rw (shallow, inner, same) refl
    | inr deep ↦
        let beyond : leb (d + suc n) 65 ≡ false = ground arith in rw (deep, beyond) (ground arith)
  ]

  container_keys :
      (keys : Bool) (c : Code) (m : Text)
      → (d + 1 ≤ 65 → is_ok parts ≡ (clean && leb (d + 1 + n) 65))
      → is_ok (validate_depth d >> require keys c m >> parts)
        ≡ (keys && clean && leb (d + suc n) 65)
  unfolding validate_depth
  container_keys true c m f = elim (Bool-cases (leb d 64)) [
    | inl shallow ↦
        let whole : is_ok (validate_depth d >> parts) ≡ (clean && leb (d + suc n) 65) =
          container f in
        let same : is_ok (validate_depth d >> parts) ≡ is_ok parts =
          rw (validate_depth, shallow) refl in
        rw (shallow, ← same) whole
    | inr deep ↦
        let beyond : leb (d + suc n) 65 ≡ false = ground arith in rw (deep, beyond) (ground arith)
  ]
  container_keys false c m f = elim (Bool-cases (leb d 64)) [
    | inl shallow ↦ rw shallow refl
    | inr deep ↦ rw deep refl
  ]

module _ {F : Type 0} (is_finite : F → Bool) where
  mutual
    unfolding nesting is_clean validate_value

    validate_value_lem :
        (d : ℕ) (v : Value F)
        → d ≤ 65
        → is_ok (validate_value is_finite d v) ≡ (is_clean is_finite v && leb (d + nesting v) 65)
    validate_value_lem d null h = ground arith
    validate_value_lem d foreign h = refl
    validate_value_lem d (boolean b) h = ground arith
    validate_value_lem d (whole n) h = ground arith
    validate_value_lem d (number x) h = rw is_ok-require (and_leb (is_finite x) d h)
    validate_value_lem d (text t) h =
        is_ok-require (is_encodable t) _ _ ∙ and_leb (is_encodable t) d h
    validate_value_lem d (sequence vs) h =
        container d (nesting_values vs) (clean_values is_finite vs) _
          (λ deeper. validate_values_lem (d + 1) vs deeper)
    validate_value_lem d (object fs) h =
        container_keys d (nesting_fields fs) (clean_fields is_finite fs) _ (keys_encodable fs) _ _
          (λ deeper. validate_fields_lem (d + 1) fs deeper)

    validate_values_lem :
        (d : ℕ) (vs : Values F)
        → d ≤ 65
        → is_ok (validate_values is_finite d vs)
          ≡ (clean_values is_finite vs && leb (d + nesting_values vs) 65)
    validate_values_lem d nil h = ground arith
    validate_values_lem d (item v vs) h =
        rw (is_ok_then, validate_value_lem d v h, validate_values_lem d vs h)
          (and_leb-max (is_clean is_finite v) (clean_values is_finite vs) d (nesting v)
            (nesting_values vs))

    validate_fields_lem :
        (d : ℕ) (fs : Fields F)
        → d ≤ 65
        → is_ok (validate_fields is_finite d fs)
          ≡ (clean_fields is_finite fs && leb (d + nesting_fields fs) 65)
    validate_fields_lem d end h = ground arith
    validate_fields_lem d (field k v fs) h =
        is_ok_then (validate_value is_finite d v) (validate_fields is_finite d fs)
        ∙ ap₂ ◌&&◌ (validate_value_lem d v h) (validate_fields_lem d fs h)
        ∙ and_leb-max (is_clean is_finite v) (clean_fields is_finite fs) d (nesting v)
            (nesting_fields fs)

  -- The check of a payload accepts exactly the values that nest at most 64 lists and dicts and
  -- have encodable texts and keys, finite numbers and nothing outside JSON.
  pub is_ok-validate_value :
      (v : Value F)
      → is_ok (validate_value is_finite 1 v) ≡ (is_clean is_finite v && leb (nesting v) 64)
  is_ok-validate_value v =
      validate_value_lem 1 v (omega arith) ∙ ap (λ b. is_clean is_finite v && b) (ground arith)
