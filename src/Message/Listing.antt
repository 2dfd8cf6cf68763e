-- ===== src/Message/Listing.antt =====
-- Fields that are optional or repeated, and `_text_list` of fluidgateway/fluidlink_v2.py.
use fluid_gateway.Common.{
  ℕ, zero, suc, ◌≤◌, ◌≡◌, refl, Bool, true, false, Option, none, some, List, [], ◌∷◌, ◌++◌, length,
  String, leb, arith,
}
use fluid_gateway.Wire.Errors
use fluid_gateway.Wire.Errors.{Text, Bytes, Result, ok, err, invalid_payload, require, say}
use fluid_gateway.Wire.Texts.{encode_bounded_text}
use fluid_gateway.Wire.Writer
use fluid_gateway.Wire.Writer.{◌⊕◌}
use fluid_gateway.Wire.Reader
use fluid_gateway.Wire.Reader.{Reader, lift, pure, ◌>>=◌, ◌>>◌}
use fluid_gateway.Wire.Codec.{
  Encodes, Encodes-then, Encodes-map, Encodes-u8, Encodes-text16, Encodes-empty,
}

abbrev pub max_identifier_bytes : ℕ
max_identifier_bytes = 256

module _ {A : Type 0} where
  -- `if value is not None: writer...`
  unfoldable pub write_optional : (A → Result Bytes) → Option A → Result Bytes
  write_optional w none = ok []
  write_optional w (some a) = w a

  unfoldable pub read_optional : Bool → Reader A → Reader (Option A)
  read_optional false r = pure none
  read_optional true r = do a ← r; pure (some a)

  abbrev pub is_present : Option A → Bool
  is_present none = false
  is_present (some a) = true

  pub Encodes-optional :
      (w : A → Result Bytes) (r : Reader A) (o : Option A)
      → ((a : A) → Encodes (w a) r a)
      → Encodes (write_optional w o) (read_optional (is_present o) r) o
  unfolding write_optional read_optional
  Encodes-optional w r none h = Encodes-empty none
  Encodes-optional w r (some a) h = Encodes-map _ (h a) (λ bs. refl)

  -- `for value in values: writer...`
  unfoldable pub write_all : (A → Result Bytes) → List A → Result Bytes
  write_all w [] = ok []
  write_all w (a ∷ as') = w a ⊕ write_all w as'

  -- `[reader... for _ in range(count)]`
  unfoldable pub read_all : ℕ → Reader A → Reader (List A)
  read_all zero r = pure []
  read_all (suc n) r = do a ← r; rest ← read_all n r; pure (a ∷ rest)

  pub Encodes-all :
      (w : A → Result Bytes) (r : Reader A) (values : List A)
      → ((a : A) → Encodes (w a) r a)
      → Encodes (write_all w values) (read_all (length values) r) values
  unfolding write_all read_all
  Encodes-all w r [] h = Encodes-empty []
  Encodes-all w r (a ∷ values) h =
      Encodes-then _ (h a) (Encodes-map _ (Encodes-all w r values h) (λ bs. refl))

check_items : List Text → Result (Unit {0})
check_items [] = ok tt
check_items (t ∷ ts) =
    Errors.◌>>=◌ (encode_bounded_text t max_identifier_bytes false) λ _. check_items ts

-- `_text_list`, for a value that is a list
unfoldable pub text_list : List Text → ℕ → String → Result (List Text)
unfolding check_items
text_list value maximum_count name =
    Errors.◌>>=◌
      (require (leb (length value) maximum_count) invalid_payload
        (say "FluidLink v2 " ++ (say name ++ say " list exceeds its limit.")))
      λ _. Errors.◌>>=◌ (check_items value) λ _. ok value

abbrev pub write_identifier : Text → Result Bytes
write_identifier t = Writer.text16 t max_identifier_bytes false

abbrev pub read_identifier : Reader Text
read_identifier = Reader.text16 max_identifier_bytes false

-- A count in one byte, and as many identifiers.
unfoldable pub write_texts : List Text → Result Bytes
write_texts values = Writer.u8 (length values) ⊕ write_all write_identifier values

unfoldable pub read_texts : ℕ → String → Reader (List Text)
read_texts maximum_count name = do
  count ← Reader.u8
  lift (
      require (leb count maximum_count) invalid_payload
        (say "FluidLink v2 " ++ (say name ++ say " count exceeds its limit.")))
  read_all count read_identifier

pub text_list-eq-ok :
    (value : List Text) (maximum_count : ℕ) (name : String) {r : List Text}
    → text_list value maximum_count name ≡ ok r
    → (length value ≤ maximum_count) × (r ≡ value)
unfolding text_list
text_list-eq-ok value maximum_count name h = (ground arith, ground arith)

pub Encodes-texts :
    (values : List Text) (maximum_count : ℕ) (name : String)
    → length values ≤ maximum_count
    → Encodes (write_texts values) (read_texts maximum_count name) values
unfolding write_texts read_texts
Encodes-texts values maximum_count name fits = Encodes-then _ (Encodes-u8 (length values)) (
    let small : leb (length values) maximum_count ≡ true = ground arith in
    rw small (
      Encodes-all write_identifier read_identifier values
        (λ t. Encodes-text16 t max_identifier_bytes false)))
