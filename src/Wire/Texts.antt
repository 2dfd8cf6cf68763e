-- ===== src/Wire/Texts.antt =====
-- `encode_bounded_text` of fluidgateway/fluidlink_v2.py, the payload limit, and `str.strip`.
pub mod Stripped
use fluid_gateway.Common.{
  ℕ, Bool, not, ◌&&◌, ◌||◌, none, some, [], ◌∷◌, String, length, all, ltb, leb, ◌==◌, if◌then◌else◌,
}
use fluid_gateway.Wire.Errors.{Text, Bytes, Result, ok, Code, raise, say}
use fluid_gateway.Wire.Utf8.{utf8_encode}

abbrev pub max_payload_bytes : ℕ
max_payload_bytes = 65535

abbrev pub invalid_payload {ℓ} : {A : Type ℓ} → String → Result A
invalid_payload m = raise Code.invalid_payload (say m)

abbrev between : ℕ → ℕ → ℕ → Bool
between lo hi c = leb lo c && leb c hi

-- The code points that `str.strip` takes off, those of `str.isspace`.
unfoldable pub is_space : ℕ → Bool
is_space c =
    between 9 13 c
    || (between 28 32 c
        || (c == 0x85
            || (c == 0xA0
                || (c == 0x1680
                    || (between 0x2000 0x200A c
                        || (between 0x2028 0x2029 c
                            || (c == 0x202F || (c == 0x205F || c == 0x3000))))))))

-- `not value.strip()`
unfoldable pub is_blank : Text → Bool
is_blank = all is_space

unfoldable pub encode_bounded_text : Text → ℕ → Bool → Result Bytes
encode_bounded_text value maximum_bytes allow_empty = elim (utf8_encode value) [
  | none ↦ invalid_payload "FluidLink v2 text field is not valid UTF-8."
  | some encoded ↦
      if ltb maximum_bytes (length encoded) || (not allow_empty && is_blank value)
      then invalid_payload "FluidLink v2 text field violates its size limit."
      else ok encoded
]

lstrip : Text → Text
lstrip [] = []
lstrip (c ∷ cs) = let rest = lstrip cs in if is_space c then rest else c ∷ cs

-- A text without the whitespace at its end.
rstrip : Text → Text
rstrip [] = []
rstrip (c ∷ cs) = let rest = rstrip cs in if is_space c && is_blank cs then [] else c ∷ rest

-- `value.strip()`
unfoldable pub strip : Text → Text
unfolding lstrip rstrip
strip value = rstrip (lstrip value)
