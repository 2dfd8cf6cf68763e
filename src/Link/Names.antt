-- ===== src/Link/Names.antt =====
-- Sets of texts, and the capabilities and bounded texts of fluidgateway/fluidlink.py.
use fluid_gateway.Common.{
  ℕ, ◌+◌, Bool, true, false, not, ◌&&◌, ◌||◌, Option, none, some, List, [], ◌∷◌, ◌++◌, length,
  select, ltb, leb, ◌==◌, if◌then◌else◌,
}
use fluid_gateway.Runtime.Data.{same_text, is_member}
use fluid_gateway.Wire.Errors.{Text, Result, ok, invalid_capabilities, raise, say}
use fluid_gateway.Wire.Texts.{strip}
use fluid_gateway.Wire.Utf8.{utf8_encode}
use fluid_gateway.Json.{Value, Values, text, sequence, nil, item}

-- FLUIDLINK_CAPABILITIES, sorted
unfoldable pub link_capabilities : List Text
link_capabilities =
    say "binary.framing.v1"
    ∷ say "compact.decisions.v1"
    ∷ say "heartbeat.v1"
    ∷ say "memory.transit.v1"
    ∷ say "runtime.decisions.v1"
    ∷ say "runtime.events.v1"
    ∷ say "session.lifecycle.v1"
    ∷ []

-- `a < b` for texts
abbrev pub precedes : Text → Text → Bool
precedes [] [] = false
precedes [] (d ∷ ds) = true
precedes (c ∷ cs) [] = false
precedes (c ∷ cs) (d ∷ ds) = ltb c d || (c == d && precedes cs ds)

-- A set of texts is the list that `sorted` makes of it.
unfoldable pub insert : Text → List Text → List Text
insert t [] = t ∷ []
insert t (u ∷ us) =
    let rest = insert t us in
    if same_text t u then u ∷ us else if precedes t u then t ∷ u ∷ us else u ∷ rest

unfoldable pub set_of : List Text → List Text
set_of [] = []
set_of (t ∷ ts) = insert t (set_of ts)

unfoldable pub fits_text : ℕ → Text → Bool
fits_text maximum value = elim (strip value) [
  | [] ↦ false
  | c ∷ cs ↦ elim (utf8_encode (c ∷ cs)) [ none ↦ false | some bytes ↦ leb (length bytes) maximum ]
]

-- `", ".join(names)`
unfoldable pub joined : List Text → Text
joined [] = []
joined (name ∷ []) = name
joined (name ∷ other ∷ names) = name ++ (say ", " ++ joined (other ∷ names))

-- `(requested | required) & FLUIDLINK_CAPABILITIES`
unfoldable pub agreed : List Text → List Text → List Text
agreed requested required =
    set_of (select (λ name. is_member name link_capabilities) (requested ++ required))

-- `required - FLUIDLINK_CAPABILITIES`
unfoldable pub unsupported : List Text → List Text
unsupported required = select (λ name. not (is_member name link_capabilities)) required

abbrev pub bad_capabilities : Result (List Text)
bad_capabilities =
    raise invalid_capabilities (say "FluidLink capabilities must be a list of non-empty strings.")

module _ {F : Type 0} where
  -- `valid_text`
  unfoldable pub valid_text : Option (Value F) → ℕ → Bool
  valid_text (some (text value)) maximum = fits_text maximum value
  valid_text _ maximum = false

  -- The items of a list that are all texts of 1 to 128 bytes, without the space around them.
  unfoldable pub names_of : Values F → Option (List Text)
  names_of nil = some []
  names_of (item (text t) vs) = elim (names_of vs) [
    | none ↦ none
    | some ts ↦ if fits_text 128 t then some (strip t ∷ ts) else none
  ]
  names_of (item _ vs) = none

  unfoldable pub count : Values F → ℕ
  count nil = 0
  count (item v vs) = count vs + 1

  -- `string_set`
  unfoldable pub string_set : Value F → Result (List Text)
  string_set (sequence vs) = elim (names_of vs) [
    | none ↦ bad_capabilities
    | some names ↦ if leb (count vs) 64 then ok (set_of names) else bad_capabilities
  ]
  string_set _ = bad_capabilities
