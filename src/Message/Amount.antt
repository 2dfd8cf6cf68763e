-- ===== src/Message/Amount.antt =====
-- The conversions to wire units in fluidgateway/fluidlink_v2.py: `_unsigned`, `_time_value`,
-- `_time_scalar`, `_memory_value`, `_memory_scalar` and `_scaled_decimal`.
use native.Mathlib.Nat.{one-le-pow}
use fluid_gateway.Common.{
  ℕ, zero, suc, Bool-cases, inl, inr, true, false, ◌&&◌, ◌||◌, ◌==◌, ◌%◌, ◌+◌, ◌*◌, ◌/◌, ◌^◌, ◌≤◌,
  ◌<◌, ◌≡◌, refl, ap, String, ◌++◌, leb, ltb, if◌then◌else◌, arith,
}
use fluid_gateway.Wire.Errors.{Result, ok, invalid_payload, other, raise, say}

-- A decimal number, `coefficient / 10 ^ places`: what `Decimal(str(value))` reads from the digits
-- that Python prints for an int or a finite float.
pub record Decimal : Type 0 where
  pub coefficient : ℕ
  pub places : ℕ

-- A number that is given in wire units (a `_us` or `_bytes` key), or in milliseconds or
-- mebibytes: a decimal, or a value that is refused because it is no number, or is negative,
-- infinite or not a number.
pub data Amount : Type 0 where
  units : ℕ → Amount
  decimal : Decimal → Amount
  not_numeric : Amount
  not_finite_or_negative : Amount

-- What a decoder makes of a number of wire units: the float that `units / divisor` is, kept as the two
-- numbers that it is the quotient of, and beside it the units where the dict has them too.
pub data Measured : Type 0 where
  quotient : ℕ → ℕ → Measured
  units_and_quotient : ℕ → ℕ → Measured

-- `_unsigned`
unfoldable pub unsigned : ℕ → ℕ → String → Result ℕ
unsigned value maximum name =
    if leb value maximum
    then ok value
    else raise invalid_payload (say "FluidLink v2 " ++ (say name ++ say " is out of range."))

-- How many digits a number has beyond the 28 of the default decimal context. A number has at most as
-- many digits as its value, so its value is fuel enough.
unfoldable pub excess : ℕ → ℕ → ℕ
excess zero n = 0
excess (suc fuel) n = elim (ltb n (10 ^ 28)) [ true ↦ 0 | false ↦ suc (excess fuel (n / 10)) ]

-- A quotient and a remainder, rounded to the nearest whole number, and to an even one between two.
unfoldable pub half_even : ℕ → ℕ → ℕ → ℕ
half_even q r unit = if ltb unit (2 * r) || (2 * r == unit && q % 2 == 1) then q + 1 else q

abbrev pub last_digit : ℕ → ℕ
last_digit n = 10 ^ excess n n

-- What the default context makes of an exact product: the nearest number of at most 28 digits.
unfoldable pub in_context : ℕ → ℕ
in_context n = let unit = last_digit n in half_even (n / unit) (n % unit) unit * unit

-- `(number * scale).quantize(Decimal("1"), rounding=ROUND_HALF_UP)`
unfoldable pub half_up : Decimal → ℕ → ℕ
half_up d scale = (2 * in_context (d.coefficient * scale) + 10 ^ d.places) / (2 * 10 ^ d.places)

-- `_scaled_decimal`. `quantize` raises `InvalidOperation`, which is not caught here, where the
-- result has more digits than the 28 of the default context.
unfoldable pub scaled_decimal : Decimal → ℕ → ℕ → String → Result ℕ
unfolding half_up
scaled_decimal d scale maximum name =
    let scaled = half_up d scale in
    if leb (10 ^ 28) scaled
    then raise other (say "[<class 'decimal.InvalidOperation'>]")
    else if ltb maximum scaled
    then raise invalid_payload (say "FluidLink v2 " ++ (say name ++ say " exceeds its wire range."))
    else ok scaled

unfoldable pub amount_value : Amount → ℕ → ℕ → String → String → Result ℕ
unfolding unsigned scaled_decimal
amount_value (units n) scale maximum unit_name name = unsigned n maximum unit_name
amount_value (decimal d) scale maximum unit_name name = scaled_decimal d scale maximum name
amount_value not_numeric scale maximum unit_name name =
    raise invalid_payload (say "FluidLink v2 " ++ (say name ++ say " must be numeric."))
amount_value not_finite_or_negative scale maximum unit_name name =
    raise invalid_payload
      (say "FluidLink v2 " ++ (say name ++ say " must be finite and non-negative."))

abbrev pub mebibyte : ℕ
mebibyte = 1048576

-- The values of the keys `cost_ms`, `frame_ms` and `target_frame_ms`, and of the keys that end in `_mb`.
abbrev pub milliseconds : ℕ → Measured
milliseconds n = quotient n 1000

abbrev pub mebibytes : ℕ → Measured
mebibytes n = quotient n mebibyte

-- The same beside `cost_us` and `size_bytes`.
abbrev pub microseconds_and_milliseconds : ℕ → Measured
microseconds_and_milliseconds n = units_and_quotient n 1000

abbrev pub bytes_and_mebibytes : ℕ → Measured
bytes_and_mebibytes n = units_and_quotient n mebibyte

-- `_time_value`
unfoldable pub time_value : Amount → ℕ → String → Result ℕ
time_value a maximum key = amount_value a 1000 maximum key "milliseconds"

-- `_memory_value`
unfoldable pub memory_value : Amount → String → String → Result ℕ
memory_value a bytes_key megabytes_key =
    amount_value a mebibyte 0xFFFFFFFFFFFFFFFF bytes_key megabytes_key

div_bounds : (n d : ℕ) → 1 ≤ d → (n / d * d ≤ n) × (n < n / d * d + d)
div_bounds n d h = (grind arith, grind arith)

power_next : (n : ℕ) → 10 ^ suc n ≡ 10 * 10 ^ n
power_next n = grind arith

-- What stands before the last digits is a number of 28 digits.
last_digit-le : (fuel n : ℕ) → 10 ^ 27 ≤ n → 10 ^ excess fuel n * 10 ^ 27 ≤ n
unfolding excess
last_digit-le zero n h = omega arith
last_digit-le (suc fuel) n h = elim (Bool-cases (ltb n (10 ^ 28))) [
  | inl e ↦ rw (excess, e) (omega arith)
  | inr e ↦
      let ih = last_digit-le fuel (n / 10) (ground arith) in
      let below : n / 10 * 10 ≤ n = (div_bounds n 10 (omega arith)).0 in
      rw (excess, e, power_next) (omega arith)
]

-- The fuel is enough: what is left of a number without its last digits has at most 28.
lt-last_digit : (fuel n : ℕ) → n ≤ fuel → n < 10 ^ excess fuel n * 10 ^ 28
unfolding excess
lt-last_digit zero n h = omega arith
lt-last_digit (suc fuel) n h = elim (Bool-cases (ltb n (10 ^ 28))) [
  | inl e ↦ rw (excess, e) (ground arith)
  | inr e ↦
      let above : n < n / 10 * 10 + 10 = (div_bounds n 10 (omega arith)).1 in
      let big : 10 ^ 28 ≤ n = ground arith in
      let ih = lt-last_digit fuel (n / 10) (omega arith) in rw (excess, e, power_next) (omega arith)
]

half_even-near :
    (q r unit : ℕ)
    → r < unit
    → (2 * (half_even q r unit * unit) ≤ 2 * (q * unit + r) + unit)
      × (2 * (q * unit + r) ≤ 2 * (half_even q r unit * unit) + unit)
unfolding half_even
half_even-near q r unit h = elim (Bool-cases (ltb unit (2 * r) || (2 * r == unit && q % 2 == 1))) [
  | inl up ↦
      let big : unit ≤ 2 * r = ground arith in
      let next : (q + 1) * unit ≡ q * unit + unit = grind arith in
      rw (up, next) (omega arith, omega arith)
  | inr down ↦ let small : 2 * r ≤ unit = ground arith in rw down (omega arith, omega arith)
]

in_context-near :
    (n : ℕ) → (2 * in_context n ≤ 2 * n + last_digit n) × (2 * n ≤ 2 * in_context n + last_digit n)
unfolding in_context
in_context-near n =
    let pos : 1 ≤ last_digit n = one-le-pow (excess n n) 10 (omega arith) in
    let whole : n / last_digit n * last_digit n + n % last_digit n ≡ n = grind arith in
    let small : n % last_digit n < last_digit n = grind arith in
    let near = half_even-near (n / last_digit n) (n % last_digit n) (last_digit n) small in
    rw whole at near

excess_small : (fuel n : ℕ) → n < 10 ^ 28 → excess fuel n ≡ 0
unfolding excess
excess_small zero n h = refl
excess_small (suc fuel) n h =
    let short : ltb n (10 ^ 28) ≡ true = ground arith in rw (excess, short) refl

in_context_small : (n : ℕ) → n < 10 ^ 28 → in_context n ≡ n
unfolding in_context half_even
in_context_small n h =
    let unit : last_digit n ≡ 1 = ap (λ e. 10 ^ e) (excess_small n n h) in
    let near = in_context-near n in rw unit (ground arith)

-- A whole number of wire units next to an amount: within a half of the product that the context
-- makes, and the greater one between two. That is the exact product where it has at most 28 digits,
-- and otherwise a multiple of a unit of the 28th digit, within a half of that unit.
pub record IsNearest (d : Decimal) (scale units : ℕ) : Type 0 where
  pub product : ℕ
  pub low : units * (2 * 10 ^ d.places) ≤ 2 * product + 10 ^ d.places
  pub high : 2 * product < units * (2 * 10 ^ d.places) + 10 ^ d.places
  pub exact : d.coefficient * scale < 10 ^ 28 → product ≡ d.coefficient * scale
  pub cut : ℕ
  pub kept : ℕ
  pub rounded : product ≡ kept * 10 ^ cut
  pub above : 2 * product ≤ 2 * (d.coefficient * scale) + 10 ^ cut
  pub below : 2 * (d.coefficient * scale) ≤ 2 * product + 10 ^ cut
  pub digits :
      10 ^ 28 ≤ d.coefficient * scale
      → (10 ^ cut * 10 ^ 27 ≤ d.coefficient * scale) × (d.coefficient * scale < 10 ^ cut * 10 ^ 28)

-- The whole number of wire units lies within a half of the scaled value, and is the greater one
-- where two are equally near. The scaled value is exact where its coefficient is below 10 ^ 28;
-- otherwise the coefficient is rounded to a multiple of the unit of its 28th digit, within a half
-- of that unit.
pub half_up-IsNearest : (d : Decimal) (scale : ℕ) → IsNearest d scale (half_up d scale)
unfolding half_up in_context
half_up-IsNearest d scale =
    let n = d.coefficient * scale in
    let pos : 1 ≤ 10 ^ d.places = one-le-pow d.places 10 (omega arith) in
    let (low, high) =
      div_bounds (2 * in_context n + 10 ^ d.places) (2 * 10 ^ d.places) (omega arith) in
    let (above, below) = in_context-near n in
    record {
      product = in_context n;
      low = low;
      high = omega arith;
      exact = in_context_small n;
      cut = excess n n;
      kept = half_even (n / last_digit n) (n % last_digit n) (last_digit n);
      rounded = refl;
      above = above;
      below = below;
      digits = λ h. (last_digit-le n n (omega arith), lt-last_digit n n (omega arith));
    }

-- What is accepted fits the wire.
pub amount_value-le :
    (a : Amount) (scale maximum : ℕ) (unit_name name : String) {n : ℕ}
    → amount_value a scale maximum unit_name name ≡ ok n
    → n ≤ maximum
unfolding amount_value
amount_value-le a scale maximum unit_name name h = ground arith
