-- ===== src/Json.antt =====
-- The values that `json.loads` of Python makes and `json.dumps` takes, and `validate_json_value` with
-- its helpers in fluidgateway/fluidlink.py. The keys of a dict are texts, as JSON has them.
pub mod Shape
use fluid_gateway.Common.{
  ℕ, ℤ, ◌+◌, ◌≤◌, Bool, true, false, not, ◌&&◌, Option, none, some, List, [], ◌∷◌, leb,
  if◌then◌else◌,
}
use fluid_gateway.Frame.{is_some}
use fluid_gateway.Runtime.Data.{same_text}
use fluid_gateway.Wire.Errors.{Text, Result, ok, Code, raise, require, say, ◌>>=◌, ◌>>◌}
use fluid_gateway.Wire.Utf8.{utf8_encode}

-- `foreign` is any object outside standard JSON. The floats are a parameter.
mutual
  pub data Value (F : Type 0) : Type 0 where
    null foreign : Value F
    boolean : Bool → Value F
    whole : ℤ → Value F
    number : F → Value F
    text : Text → Value F
    sequence : Values F → Value F
    object : Fields F → Value F

  pub data Values (F : Type 0) : Type 0 where
    nil : Values F
    item : Value F → Values F → Values F

  pub data Fields (F : Type 0) : Type 0 where
    end : Fields F
    field : Text → Value F → Fields F → Fields F

module _ {F : Type 0} where
  -- `payload.get(key)`
  unfoldable pub get : Text → Fields F → Option (Value F)
  get key end = none
  get key (field k v rest) = if same_text key k then some v else get key rest

  -- `payload[key] = value`
  unfoldable pub put : Text → Value F → Fields F → Fields F
  put key value end = field key value end
  put key value (field k v rest) =
      let stored = put key value rest in
      if same_text key k then field k value rest else field k v stored

abbrev pub max_json_depth : ℕ
max_json_depth = 64

-- `utf8_size(value) is not None`
unfoldable pub is_encodable : Text → Bool
is_encodable value = is_some (utf8_encode value)

abbrev rejected : {A : Type 0} → Text → Result A
rejected = raise Code.invalid_payload

unfoldable pub validate_depth : ℕ → Result (Unit {0})
validate_depth depth =
    require (leb depth max_json_depth) Code.invalid_payload
      (say "FluidLink payload exceeds the maximum JSON depth of 64.")

module _ {F : Type 0} where
  unfoldable pub keys_encodable : Fields F → Bool
  keys_encodable end = true
  keys_encodable (field k v rest) = is_encodable k && keys_encodable rest

  module _ (is_finite : F → Bool) where
    -- `validate_json_value`
    unfoldable mutual
      pub validate_value : ℕ → Value F → Result (Unit {0})
      validate_value depth null = ok tt
      validate_value depth (boolean b) = ok tt
      validate_value depth (whole n) = ok tt
      validate_value depth (text t) =
          require (is_encodable t) Code.invalid_payload
            (say "FluidLink payload strings must be valid UTF-8.")
      validate_value depth (number x) =
          require (is_finite x) Code.invalid_payload
            (say "FluidLink payload numbers must be finite.")
      validate_value depth (sequence vs) = validate_depth depth >> validate_values (depth + 1) vs
      validate_value depth (object fs) =
          validate_depth depth
          >> require (keys_encodable fs) Code.invalid_payload
              (say "FluidLink payload object keys must be strings.")
          >> validate_fields (depth + 1) fs
      validate_value depth foreign =
          rejected (say "FluidLink payload contains a value outside standard JSON.")

      pub validate_values : ℕ → Values F → Result (Unit {0})
      validate_values depth nil = ok tt
      validate_values depth (item v vs) = validate_value depth v >> validate_values depth vs

      pub validate_fields : ℕ → Fields F → Result (Unit {0})
      validate_fields depth end = ok tt
      validate_fields depth (field k v fs) = validate_value depth v >> validate_fields depth fs
