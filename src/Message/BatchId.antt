-- ===== src/Message/BatchId.antt =====
-- `_batch_id_bytes`, `_validate_batch_id` and `_batch_count` of fluidgateway/fluidlink_v2.py.
use fluid_gateway.Common.{
  ℕ, ◌+◌, ◌-◌, ◌*◌, ◌/◌, ◌%◌, ◌≡◌, ◌<◌, refl, Bool, true, ◌&&◌, Option, none, some, [], ◌∷◌, length,
  ltb, leb, ◌==◌, if◌then◌else◌, arith,
}
use fluid_gateway.Wire.Errors.{
  Text, Bytes, Result, ok, invalid_payload, raise, require, say, ◌>>=◌, ◌>>◌, >>=-eq-ok,
}
use fluid_gateway.Wire.Words.{IsBytes}
use fluid_gateway.Frame.{is_identity}

-- The value of a hexadecimal character of either case.
abbrev digit_value : ℕ → Option ℕ
digit_value c =
    if leb 48 c && leb c 57
    then some (c - 48)
    else if leb 97 c && leb c 102
    then some (c - 87)
    else if leb 65 c && leb c 70
    then some (c - 55)
    else none

abbrev join_digits : Option ℕ → Option ℕ → Option Bytes → Option Bytes
join_digits (some high) (some low) (some bs) = some ((16 * high + low) ∷ bs)
join_digits _ _ _ = none

-- `bytes.fromhex`, on hexadecimal characters alone
unfoldable pub from_hex : Text → Option Bytes
from_hex [] = some []
from_hex (c ∷ []) = none
from_hex (c ∷ c' ∷ cs) = join_digits (digit_value c) (digit_value c') (from_hex cs)

abbrev hex_digit : ℕ → ℕ
hex_digit d = if ltb d 10 then d + 48 else d + 87

-- `bytes.hex`
unfoldable pub hex : Bytes → Text
hex [] = []
hex (b ∷ bs) = hex_digit (b / 16) ∷ hex_digit (b % 16) ∷ hex bs

-- `_validate_batch_id`
unfoldable pub validate_batch_id : Bytes → Result (Unit {0})
validate_batch_id value =
    require (is_identity value) invalid_payload
      (say "FluidLink v2 batch_id must contain 16 nonzero-identity bytes.")

not_hexadecimal : Result Bytes
not_hexadecimal =
    raise invalid_payload (say "FluidLink v2 batch_id must contain exactly 16 hexadecimal bytes.")

fitting_bytes : Bool → Option Bytes → Result Bytes
unfolding not_hexadecimal
fitting_bytes true (some bs) = ok bs
fitting_bytes _ _ = not_hexadecimal

-- `_batch_id_bytes`
unfoldable pub batch_id_bytes : Text → Result Bytes
unfolding fitting_bytes
batch_id_bytes value = do
  result ← fitting_bytes (length value == 32) (from_hex value)
  validate_batch_id result
  ok result

abbrev pub max_batch_operations : ℕ
max_batch_operations = 256

-- `_batch_count`
unfoldable pub batch_count : ℕ → Result ℕ
batch_count value = do
  require (leb 1 value && leb value max_batch_operations) invalid_payload
      (say "FluidLink v2 operation batch count must be between 1 and 256.")
  ok value

pub batch_count-eq-ok : (n : ℕ) {m : ℕ} → batch_count n ≡ ok m → (m ≡ n) × (batch_count n ≡ ok n)
unfolding batch_count
batch_count-eq-ok n h = ground arith

pub batch_id_bytes-eq-ok :
    (value : Text) {bs : Bytes} → batch_id_bytes value ≡ ok bs → validate_batch_id bs ≡ ok tt
unfolding batch_id_bytes
batch_id_bytes-eq-ok value h =
    let (r, p, q) = >>=-eq-ok (fitting_bytes (length value == 32) (from_hex value)) _ h in
    let (u, v, w) = >>=-eq-ok (validate_batch_id r) _ q in ground arith

length-hex : (bs : Bytes) → length (hex bs) ≡ 2 * length bs
unfolding hex
length-hex [] = refl
length-hex (b ∷ bs) = ground (arith, length-hex bs)

digit_value-hex_digit : (d : ℕ) → d < 16 → digit_value (hex_digit d) ≡ some d
digit_value-hex_digit d h = ground arith

-- A byte string is read back from its hexadecimal text.
pub from_hex-hex : (bs : Bytes) → IsBytes bs → from_hex (hex bs) ≡ some bs
unfolding from_hex hex
from_hex-hex [] h = refl
from_hex-hex (b ∷ bs) (lt, h) =
    let high = digit_value-hex_digit (b / 16) (omega arith) in
    let low = digit_value-hex_digit (b % 16) (omega arith) in
    let whole : 16 * (b / 16) + b % 16 ≡ b = omega arith in rw (high, low, from_hex-hex bs h, whole)

-- The hexadecimal text of sixteen bytes that are not all zero is read back as those bytes.
pub batch_id_bytes-hex :
    (bs : Bytes) → IsBytes bs → is_identity bs ≡ true → batch_id_bytes (hex bs) ≡ ok bs
unfolding batch_id_bytes validate_batch_id
batch_id_bytes-hex bs h identity =
    let sized : (length (hex bs) == 32) ≡ true = ground (arith, length-hex bs) in
    rw (sized, from_hex-hex bs h, identity)
