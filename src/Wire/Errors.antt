-- ===== src/Wire/Errors.antt =====
-- `FluidLinkProtocolError` of fluidgateway/fluidlink.py, and a computation that may raise it.
use Prim.Native.Char.{code}
use Prim.Native.Nat.{◌+◌, ◌/◌, ◌%◌}
use fluid_gateway.Common.{
  ℕ, zero, suc, String, ◌≡◌, refl, Bool, true, false, List, [], ◌∷◌, ltb, if◌then◌else◌,
}

-- A text is the list of its code points, a byte string the list of its bytes.
abbrev pub Text : Type 0
Text = List ℕ

abbrev pub Bytes : Type 0
Bytes = List ℕ

unfoldable pub say : String → Text
say String.[] = []
say (String.◌∷◌ c s) = code c ∷ say s

digit_char : ℕ → ℕ
digit_char d = if ltb d 10 then d + 48 else d + 87

-- The digits of a number in a base from 2 to 16. A number has at most as many digits as its value
-- plus one, so the fuel is never used up.
digits_from : ℕ → ℕ → ℕ → Text → Text
digits_from base zero n acc = acc
digits_from base (suc fuel) n acc =
    let more = digits_from base fuel (n / base) (digit_char (n % base) ∷ acc) in
    if ltb n base then digit_char n ∷ acc else more

-- What an f-string prints for `{n}` and for `{n:x}`.
unfoldable pub show : ℕ → Text
unfolding digits_from digit_char
show n = digits_from 10 (n + 1) n []

unfoldable pub show_hex : ℕ → Text
unfolding digits_from digit_char
show_hex n = digits_from 16 (n + 1) n []

-- The codes that the protocol's checks raise with; `other` is any other exception.
pub data Code : Type 0 where
  truncated_frame invalid_magic unsupported_wire_version invalid_reserved_bits : Code
  payload_too_large frame_size_mismatch invalid_kind invalid_session_flag : Code
  invalid_payload invalid_message_id invalid_sequence invalid_opcode : Code
  invalid_subject_opcode invalid_decision_opcode invalid_flags invalid_session_id : Code
  unsupported_event_opcode unsupported_payload_encoding invalid_capabilities other : Code

pub record ProtocolError : Type 0 where
  pub code : Code
  pub message : Text

pub data Result {ℓ} (A : Type ℓ) : Type ℓ where
  ok : A → Result A
  err : ProtocolError → Result A

infixl 5 ◌>>=◌ ◌>>◌
abbrev pub ◌>>=◌ {ℓ κ} : {A : Type ℓ} {B : Type κ} → Result A → (A → Result B) → Result B
ok value >>= next = next value
err raised >>= next = err raised

abbrev pub ◌>>◌ {ℓ κ} : {A : Type ℓ} {B : Type κ} → Result A → Result B → Result B
first >> second = first >>= λ _. second

abbrev pub raise {ℓ} : {A : Type ℓ} → Code → Text → Result A
raise c m = err (record { code = c; message = m })

-- `if not test: raise FluidLinkProtocolError(code, message)`
abbrev pub require : Bool → Code → Text → Result (Unit {0})
require true c m = ok tt
require false c m = raise c m

-- A computation that returns did not raise on the way.
pub >>=-eq-ok {ℓ κ} :
    {A : Type ℓ} {B : Type κ} (first : Result A) (next : A → Result B) {result : B}
    → (first >>= next) ≡ ok result
    → (value : A) × (first ≡ ok value) × (next value ≡ ok result)
>>=-eq-ok (ok value) next returned = (value, refl, returned)
>>=-eq-ok (err raised) next returned = cc

pub require-eq-ok :
    (t : Bool) (c : Code) (m : Text) {u : Unit {0}} → require t c m ≡ ok u → t ≡ true
require-eq-ok true c m h = refl
require-eq-ok false c m h = cc
