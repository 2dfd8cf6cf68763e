-- ===== src/Message/Decision.antt =====
-- `encode_runtime_decision_payload` and `decode_runtime_decision_payload` of
-- fluidgateway/fluidlink_v2.py.
use fluid_gateway.Common.{
  ℕ, ◌+◌, ◌/◌, ◌%◌, ◌≡◌, refl, ap, Bool, true, not, ◌&&◌, ◌||◌, Option, none, some, ◌==◌, length,
  if◌then◌else◌, arith,
}
use fluid_gateway.Wire.Errors
use fluid_gateway.Wire.Errors.{Bytes, Result, ok, invalid_payload, require, say, >>=-eq-ok}
use fluid_gateway.Wire.Writer
use fluid_gateway.Wire.Writer.{◌⊕◌}
use fluid_gateway.Wire.Reader
use fluid_gateway.Wire.Reader.{Reader, lift, pure, ◌>>=◌, ◌>>◌}
use fluid_gateway.Wire.Words.{pack_le}
use fluid_gateway.Wire.Codec.{
  Encodes, Encodes-then, Encodes-map, Encodes-finish, Encodes-u8, Encodes-u64,
}
use fluid_gateway.Message.Amount.{Amount, time_value, memory_value}

-- The dict that `compact_runtime_response` makes; `executed` is absent for what is no operation.
pub record Compact : Type 0 where
  pub accepted : Bool
  pub executed : Option Bool
  pub saved_time : Amount
  pub saved_memory : Amount

-- The decoded dict. Its `saved_ms` is `saved_us / 1000`, its `saved_mb` `saved_bytes / 2 ** 20`.
pub record Decision : Type 0 where
  pub accepted : Bool
  pub executed : Option Bool
  pub saved_us : ℕ
  pub saved_bytes : ℕ

abbrev pub bit : Bool → ℕ → ℕ
bit b weight = if b then weight else 0

abbrev executed_bits : Option Bool → ℕ
executed_bits none = 0
executed_bits (some e) = 2 + bit e 4

unfoldable pub flags_of : Bool → Option Bool → ℕ
flags_of accepted executed = bit accepted 1 + executed_bits executed

decision_fields : ℕ → ℕ → ℕ → Result Bytes
decision_fields flags saved_us saved_bytes =
    Writer.u8 flags ⊕ Writer.u64 saved_us ⊕ Writer.u64 saved_bytes

-- `encode_runtime_decision_payload`
unfoldable pub encode_decision : Compact → Result Bytes
unfolding flags_of decision_fields
encode_decision c = Errors.◌>>=◌ (time_value c.saved_time 0xFFFFFFFFFFFFFFFF "saved_us") λ saved_us.
    Errors.◌>>=◌ (memory_value c.saved_memory "saved_bytes" "saved_mb") λ saved_bytes.
      Writer.finish (decision_fields (flags_of c.accepted c.executed) saved_us saved_bytes)

-- Bits 0, 1 and 2 of the flags.
abbrev pub has_bit : ℕ → ℕ → Bool
has_bit flags weight = flags / weight % 2 == 1

abbrev decision_of : ℕ → ℕ → ℕ → Decision
decision_of flags saved_us saved_bytes = record {
  accepted = has_bit flags 1;
  executed = if has_bit flags 2 then some (has_bit flags 4) else none;
  saved_us = saved_us;
  saved_bytes = saved_bytes;
}

read_decision : Reader (ℕ × ℕ × ℕ)
read_decision = do
  flags ← Reader.u8
  saved_us ← Reader.u64
  saved_bytes ← Reader.u64
  pure (flags, saved_us, saved_bytes)

-- `decode_runtime_decision_payload`: the flags are checked after the whole payload is read
unfoldable pub decode_decision : Bytes → Result Decision
unfolding read_decision
decode_decision payload =
    Errors.◌>>=◌ (Reader.finish read_decision payload) λ (flags, saved_us, saved_bytes).
      Errors.◌>>=◌
        (require (flags / 8 == 0 && (not (has_bit flags 4) || has_bit flags 2)) invalid_payload
          (say "FluidLink v2 decision flags are invalid."))
        λ _. ok (decision_of flags saved_us saved_bytes)

decision_Encodes :
    (flags us bytes : ℕ) → Encodes (decision_fields flags us bytes) read_decision (flags, us, bytes)
unfolding decision_fields read_decision
decision_Encodes flags us bytes =
    Encodes-then _ (Encodes-u8 flags)
      (Encodes-then _ (Encodes-u64 us) (Encodes-map _ (Encodes-u64 bytes) (λ bs. refl)))

flags_valid :
    (accepted : Bool) (executed : Option Bool)
    → (flags_of accepted executed / 8 == 0
        && (not (has_bit (flags_of accepted executed) 4) || has_bit (flags_of accepted executed) 2))
      ≡ true
unfolding flags_of
flags_valid accepted executed = ground arith

decision_of-flags_of :
    (accepted : Bool) (executed : Option Bool) (us bytes : ℕ)
    → decision_of (flags_of accepted executed) us bytes
      ≡ record { accepted = accepted; executed = executed; saved_us = us; saved_bytes = bytes }
unfolding flags_of
decision_of-flags_of accepted executed us bytes = ground arith

-- A decision whose savings are valid amounts is decoded with its answers and with its savings in
-- microseconds and bytes.
pub decode_decision-encode_decision :
    (c : Compact) (bs : Bytes) (us bytes : ℕ)
    → time_value c.saved_time 0xFFFFFFFFFFFFFFFF "saved_us" ≡ ok us
    → memory_value c.saved_memory "saved_bytes" "saved_mb" ≡ ok bytes
    → encode_decision c ≡ ok bs
    → decode_decision bs
      ≡ ok (record {
        accepted = c.accepted;
        executed = c.executed;
        saved_us = us;
        saved_bytes = bytes;
      })
unfolding encode_decision decode_decision
decode_decision-encode_decision c bs us bytes t m e =
    let written : Writer.finish (decision_fields (flags_of c.accepted c.executed) us bytes)
        ≡ ok bs =
      ground arith in
    let flags = flags_of c.accepted c.executed in
    let whole = Encodes-finish bs (decision_Encodes flags us bytes) written in
    rw (whole, flags_valid c.accepted c.executed)
      (ap ok (decision_of-flags_of c.accepted c.executed us bytes))

length_fields :
    (flags us bytes : ℕ) (bs : Bytes)
    → Writer.finish (decision_fields flags us bytes) ≡ ok bs
    → length bs ≡ 17
unfolding decision_fields Writer.finish Writer.u8 Writer.u64 ◌⊕◌ pack_le
length_fields flags us bytes bs e = ground arith

-- An encoded decision takes 17 bytes.
pub length-encode_decision : (c : Compact) (bs : Bytes) → encode_decision c ≡ ok bs → length bs ≡ 17
unfolding encode_decision
length-encode_decision c bs e =
    let (us, t, e₁) = >>=-eq-ok (time_value c.saved_time _ _) _ e in
    let (bytes, m, e₂) = >>=-eq-ok (memory_value c.saved_memory _ _) _ e₁ in
    length_fields (flags_of c.accepted c.executed) us bytes bs e₂
