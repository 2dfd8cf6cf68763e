-- ===== src/Message/Welcome.antt =====
-- `FluidLinkV2Welcome`, `encode_welcome_payload` and `decode_welcome_payload` of
-- fluidgateway/fluidlink_v2.py.
use fluid_gateway.Common.{ℕ, ◌≡◌, refl, ap₂, sym, ◌∙◌, Bool, true, not, ◌&&◌, leb, ◌==◌, arith}
use fluid_gateway.Wire.Errors
use fluid_gateway.Wire.Errors.{
  Text, Bytes, Result, ok, invalid_payload, require, say, >>=-eq-ok, require-eq-ok,
}
use fluid_gateway.Wire.Texts.{max_payload_bytes}
use fluid_gateway.Wire.Writer
use fluid_gateway.Wire.Writer.{◌⊕◌}
use fluid_gateway.Wire.Reader
use fluid_gateway.Wire.Reader.{Reader, pure, ◌>>=◌}
use fluid_gateway.Wire.Codec.{
  Encodes, Encodes-then, Encodes-map, Encodes-finish, Encodes-raw, Encodes-text8, Encodes-u32,
}
use fluid_gateway.Message.Capability.{
  decode_mask, encode_mask, and_not, read_mask, Encodes-mask, encode_mask-eq-ok,
}
use fluid_gateway.Message.Hello.{max_name_bytes, max_version_bytes}

pub record Welcome : Type 0 where
  pub contract_digest : Bytes
  pub available_capabilities : ℕ
  pub accepted_capabilities : ℕ
  pub max_payload : ℕ
  pub server_name : Text
  pub server_version : Text

abbrev is_subset : ℕ → ℕ → Bool
is_subset accepted available = and_not accepted available == 0

welcome_fields : Welcome → ℕ → ℕ → Result Bytes
welcome_fields w available accepted =
    Writer.raw w.contract_digest 32
    ⊕ Writer.u64 available
    ⊕ Writer.u64 accepted
    ⊕ Writer.u32 w.max_payload
    ⊕ Writer.text8 w.server_name max_name_bytes
    ⊕ Writer.text8 w.server_version max_version_bytes

-- `encode_welcome_payload`
unfoldable pub encode_welcome : Welcome → Result Bytes
unfolding welcome_fields
encode_welcome w =
    Errors.◌>>=◌ (encode_mask w.available_capabilities "available_capabilities") λ available.
      Errors.◌>>=◌ (encode_mask w.accepted_capabilities "accepted_capabilities") λ accepted.
        Errors.◌>>=◌
          (require (is_subset accepted available) invalid_payload
            (say "FluidLink v2 accepted capabilities must be a subset of available capabilities."))
          λ _.
            Errors.◌>>=◌
              (require (leb w.max_payload max_payload_bytes) invalid_payload
                (say "FluidLink v2 max_payload_bytes is out of range."))
              λ _.
                Errors.◌>>=◌
                  (require (not (w.max_payload == 0)) invalid_payload
                    (say "FluidLink v2 max_payload_bytes must be greater than zero."))
                  λ _. Writer.finish (welcome_fields w available accepted)

read_welcome : Reader Welcome
read_welcome = do
  contract_digest ← Reader.bytes 32
  available ← read_mask
  accepted ← read_mask
  max_payload ← Reader.u32
  server_name ← Reader.text8 max_name_bytes
  server_version ← Reader.text8 max_version_bytes
  pure (record {
    contract_digest = contract_digest;
    available_capabilities = available;
    accepted_capabilities = accepted;
    max_payload = max_payload;
    server_name = server_name;
    server_version = server_version;
  })

-- `decode_welcome_payload`
unfoldable pub decode_welcome : Bytes → Result Welcome
unfolding read_welcome
decode_welcome payload = Errors.◌>>=◌ (Reader.finish read_welcome payload) λ w.
    Errors.◌>>=◌
      (require (is_subset w.accepted_capabilities w.available_capabilities) invalid_payload
        (say "FluidLink v2 accepted capabilities must be a subset of available capabilities."))
      λ _.
        Errors.◌>>=◌
          (require (leb 1 w.max_payload && leb w.max_payload max_payload_bytes) invalid_payload
            (say "FluidLink v2 welcome payload limit is invalid."))
          λ _. ok w

welcome_Encodes :
    (w : Welcome)
    → decode_mask w.available_capabilities ≡ ok w.available_capabilities
    → decode_mask w.accepted_capabilities ≡ ok w.accepted_capabilities
    → Encodes (welcome_fields w w.available_capabilities w.accepted_capabilities) read_welcome w
unfolding welcome_fields read_welcome
welcome_Encodes w m m' = Encodes-then _ (Encodes-raw w.contract_digest 32) (
    Encodes-then _ (Encodes-mask w.available_capabilities m) (
      Encodes-then _ (Encodes-mask w.accepted_capabilities m') (
        Encodes-then _ (Encodes-u32 w.max_payload) (
          Encodes-then _ (Encodes-text8 w.server_name max_name_bytes)
            (Encodes-map _ (Encodes-text8 w.server_version max_version_bytes) (λ bs. refl))))))

-- A welcome that the server encodes is what the client decodes.
pub decode_welcome-encode_welcome :
    (w : Welcome) (bs : Bytes) → encode_welcome w ≡ ok bs → decode_welcome bs ≡ ok w
unfolding encode_welcome decode_welcome
decode_welcome-encode_welcome w bs e =
    let (m, p, e₁) = >>=-eq-ok (encode_mask w.available_capabilities _) _ e in
    let (m', p', e₂) = >>=-eq-ok (encode_mask w.accepted_capabilities _) _ e₁ in
    let (known, same) = encode_mask-eq-ok w.available_capabilities _ p in
    let (known', same') = encode_mask-eq-ok w.accepted_capabilities _ p' in
    let (_, s, e₃) = >>=-eq-ok (require (is_subset m' m) _ _) _ e₂ in
    let (_, l, e₄) = >>=-eq-ok (require (leb w.max_payload max_payload_bytes) _ _) _ e₃ in
    let (_, z, e₅) = >>=-eq-ok (require (not (w.max_payload == 0)) _ _) _ e₄ in
    let subset = require-eq-ok (is_subset m' m) _ _ s in
    let small = require-eq-ok (leb w.max_payload max_payload_bytes) _ _ l in
    let pos = require-eq-ok (not (w.max_payload == 0)) _ _ z in
    let range : (leb 1 w.max_payload && leb w.max_payload max_payload_bytes) ≡ true =
      ground arith in
    let subset' : is_subset w.accepted_capabilities w.available_capabilities ≡ true =
      ap₂ is_subset (sym same') (sym same) ∙ subset in
    let back = Encodes-finish bs (welcome_Encodes w known known') (rw (same, same') at e₅) in
    rw (back, subset', range)
