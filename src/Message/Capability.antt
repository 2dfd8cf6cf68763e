-- ===== src/Message/Capability.antt =====
-- `FluidLinkV2Capability` and its masks. A flag is the bit at its position; `a & ~b` is what
-- remains of `a` without the bits that it shares with `b`.
use Prim.Native.Nat.{bit_and}
use fluid_gateway.Common.{
  ℕ, ◌-◌, ◌*◌, ◌/◌, ◌<◌, ◌≡◌, refl, String, ◌++◌, ◌==◌, if◌then◌else◌, arith,
}
use fluid_gateway.Wire.Errors.{Result, ok, err, invalid_payload, raise, say, show_hex}
use fluid_gateway.Wire.Codec.{Encodes, Encodes-map, Encodes-u64}
use fluid_gateway.Wire.Reader
use fluid_gateway.Wire.Reader.{Reader, lift, pure, ◌>>=◌}
use fluid_gateway.Wire.Writer

abbrev pub heartbeat : ℕ
heartbeat = 4

abbrev pub batched_runtime_events : ℕ
batched_runtime_events = 128

-- `FLUIDLINK_V2_CAPABILITIES`: bits 0 to 6
abbrev pub capabilities : ℕ
capabilities = 0x7F

-- `FLUIDLINK_V2_REQUIRED_CAPABILITIES`: bits 0, 1, 3 and 4
abbrev pub required_capabilities : ℕ
required_capabilities = 0x1B

-- `FLUIDLINK_V2_SUPPORTED_CAPABILITIES` and `FLUIDLINK_V2_BATCH_CAPABILITIES`
abbrev pub supported_capabilities : ℕ
supported_capabilities = 0xFF

-- `a & ~b`
unfoldable pub and_not : ℕ → ℕ → ℕ
and_not a b = a - bit_and a b

-- `_decode_capability_mask`; the unknown bits are those above the eight that are supported
unfoldable pub decode_mask : ℕ → Result ℕ
decode_mask value =
    let unknown = value / 256 * 256 in
    if unknown == 0
    then ok value
    else raise invalid_payload
        (say "FluidLink v2 capability mask has unknown bits 0x" ++ (show_hex unknown ++ say "."))

-- `_encode_capability_mask`, whose own error replaces that of `_decode_capability_mask`
unfoldable pub encode_mask : ℕ → String → Result ℕ
encode_mask value name = elim (decode_mask value) [
  | ok mask ↦ ok mask
  | err _ ↦
      raise invalid_payload (say "FluidLink v2 " ++ (say name ++ say " contains unknown bits."))
]

unfoldable pub read_mask : Reader ℕ
read_mask = do value ← Reader.u64; lift (decode_mask value)

pub Encodes-mask : (v : ℕ) → decode_mask v ≡ ok v → Encodes (Writer.u64 v) read_mask v
unfolding read_mask
Encodes-mask v h = Encodes-map (λ value. lift (decode_mask value)) (Encodes-u64 v) (λ bs. rw h refl)

pub encode_mask-eq-ok :
    (v : ℕ) (name : String) {m : ℕ} → encode_mask v name ≡ ok m → (decode_mask v ≡ ok v) × (m ≡ v)
unfolding encode_mask decode_mask
encode_mask-eq-ok v name h = ground arith

pub decode_mask-lt : (v : ℕ) → decode_mask v ≡ ok v → v < 256
unfolding decode_mask
decode_mask-lt v h = ground arith

pub decode_mask-ok : (v : ℕ) → v < 256 → decode_mask v ≡ ok v
unfolding decode_mask
decode_mask-ok v h = ground arith
