-- ===== src/Wire/Reader.antt =====
-- `_PayloadReader` of fluidgateway/fluidlink_v2.py. A call takes the bytes from `self.offset` on,
-- and returns a value and the bytes that it leaves.
use fluid_gateway.Common.{
  ◌≡◌, refl, arith, ℕ, Bool, false, not, ◌&&◌, ◌||◌, Option, none, some, [], ◌∷◌, length, take,
  drop, ltb, ◌==◌, if◌then◌else◌,
}
use fluid_gateway.Wire.Errors.{Text, Bytes, Result, ok, err, Code, require, say}
use fluid_gateway.Wire.Words.{unpack_le}
use fluid_gateway.Wire.Utf8.{utf8_decode}
use fluid_gateway.Wire.Texts.{invalid_payload, is_blank}

abbrev pub Reader : Type 0 → Type 0
Reader A = Bytes → Result (A × Bytes)

infixl 5 ◌>>=◌ ◌>>◌
abbrev pub ◌>>=◌ : {A B : Type 0} → Reader A → (A → Reader B) → Reader B
◌>>=◌ m f bs = elim (m bs) [ ok (a, rest) ↦ f a rest | err e ↦ err e ]

abbrev pub ◌>>◌ : {A B : Type 0} → Reader A → Reader B → Reader B
m >> k = m >>= λ _. k

abbrev pub pure : {A : Type 0} → A → Reader A
pure a bs = ok (a, bs)

abbrev pub lift : {A : Type 0} → Result A → Reader A
lift (ok a) bs = ok (a, bs)
lift (err e) bs = err e

-- `take`; a size is never negative here
unfoldable pub bytes : ℕ → Reader Bytes
bytes size bs =
    if ltb (length bs) size
    then invalid_payload "FluidLink v2 payload is truncated."
    else ok (take size bs, drop size bs)

-- `take(1)[0]`
unfoldable pub u8 : Reader ℕ
u8 [] = invalid_payload "FluidLink v2 payload is truncated."
u8 (b ∷ bs) = ok (b, bs)

unfoldable pub u16 : Reader ℕ
u16 = do b ← bytes 2; pure (unpack_le b)

unfoldable pub u32 : Reader ℕ
u32 = do b ← bytes 4; pure (unpack_le b)

unfoldable pub u64 : Reader ℕ
u64 = do b ← bytes 8; pure (unpack_le b)

abbrev decoded : Option Text → Result Text
decoded none = invalid_payload "FluidLink v2 text field is not valid UTF-8."
decoded (some value) = ok value

-- `_text`
unfoldable pub text : ℕ → ℕ → Bool → Reader Text
text size maximum_bytes allow_empty = do
  lift (
      require (not (ltb maximum_bytes size || (size == 0 && not allow_empty))) Code.invalid_payload
        (say "FluidLink v2 text field violates its size limit."))
  raw ← bytes size
  value ← lift (decoded (utf8_decode raw))
  lift (
      require (not (not allow_empty && is_blank value)) Code.invalid_payload
        (say "FluidLink v2 text field cannot be blank."))
  pure value

unfoldable pub text8 : ℕ → Reader Text
text8 maximum_bytes = do size ← u8; text size maximum_bytes false

unfoldable pub text16 : ℕ → Bool → Reader Text
text16 maximum_bytes allow_empty = do size ← u16; text size maximum_bytes allow_empty

-- A decoder reads the whole payload: `finish` after the last field.
unfoldable pub finish : {A : Type 0} → Reader A → Bytes → Result A
finish r payload = elim (r payload) [
  | ok (a, []) ↦ ok a
  | ok (a, _) ↦ invalid_payload "FluidLink v2 payload has trailing bytes."
  | err e ↦ err e
]

-- What a decoder that returns has read.
pub bind-eq-ok :
    {A B : Type 0} (r : Reader A) (f : A → Reader B) (bs : Bytes) {x : B × Bytes}
    → (r >>= f) bs ≡ ok x
    → (a : A) × (rest : Bytes) × (r bs ≡ ok (a, rest)) × (f a rest ≡ ok x)
bind-eq-ok {A} {B} r f bs {x} h = bind_result (r bs) refl h
  where
    bind_result :
        (m : Result (A × Bytes))
        → r bs ≡ m
        → elim m [ ok (a, rest) ↦ f a rest | err e ↦ err e ] ≡ ok x
        → (a : A) × (rest : Bytes) × (r bs ≡ ok (a, rest)) × (f a rest ≡ ok x)
    bind_result (ok (a, rest)) e k = (a, rest, e, k)
    bind_result (err e') e k = cc

pub finish-eq-ok :
    {A : Type 0} (r : Reader A) (bs : Bytes) {a : A} → finish r bs ≡ ok a → r bs ≡ ok (a, [])
unfolding finish
finish-eq-ok r bs h = ground arith
