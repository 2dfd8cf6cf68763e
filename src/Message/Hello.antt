-- ===== src/Message/Hello.antt =====
-- `FluidLinkV2Hello`, `encode_hello_payload` and `decode_hello_payload` of
-- fluidgateway/fluidlink_v2.py.
use fluid_gateway.Common.{ℕ, ◌<◌, ◌≡◌, refl, arith}
use fluid_gateway.Wire.Errors
use fluid_gateway.Wire.Errors.{Text, Bytes, Result, ok, >>=-eq-ok}
use fluid_gateway.Wire.Writer
use fluid_gateway.Wire.Writer.{◌⊕◌}
use fluid_gateway.Wire.Reader
use fluid_gateway.Wire.Reader.{Reader, lift, pure, ◌>>=◌}
use fluid_gateway.Wire.Codec.{
  Encodes, Encodes-then, Encodes-map, Encodes-finish, Encodes-raw, Encodes-text8,
}
use fluid_gateway.Message.Capability.{
  decode_mask, encode_mask, read_mask, Encodes-mask, encode_mask-eq-ok,
}

pub record Hello : Type 0 where
  pub contract_digest : Bytes
  pub requested_capabilities : ℕ
  pub required_capabilities : ℕ
  pub client_name : Text
  pub client_version : Text

abbrev pub max_name_bytes : ℕ
max_name_bytes = 128

abbrev pub max_version_bytes : ℕ
max_version_bytes = 64

-- The fields, once the masks are known.
hello_fields : Hello → ℕ → ℕ → Result Bytes
hello_fields hello requested required =
    Writer.raw hello.contract_digest 32
    ⊕ Writer.u64 requested
    ⊕ Writer.u64 required
    ⊕ Writer.text8 hello.client_name max_name_bytes
    ⊕ Writer.text8 hello.client_version max_version_bytes

-- `encode_hello_payload`
unfoldable pub encode_hello : Hello → Result Bytes
unfolding hello_fields
encode_hello hello =
    Errors.◌>>=◌ (encode_mask hello.requested_capabilities "requested_capabilities") λ requested.
      Errors.◌>>=◌ (encode_mask hello.required_capabilities "required_capabilities")
        λ required. Writer.finish (hello_fields hello requested required)

read_hello : Reader Hello
read_hello = do
  contract_digest ← Reader.bytes 32
  requested ← read_mask
  required ← read_mask
  client_name ← Reader.text8 max_name_bytes
  client_version ← Reader.text8 max_version_bytes
  pure (record {
    contract_digest = contract_digest;
    requested_capabilities = requested;
    required_capabilities = required;
    client_name = client_name;
    client_version = client_version;
  })

-- `decode_hello_payload`
unfoldable pub decode_hello : Bytes → Result Hello
unfolding read_hello
decode_hello = Reader.finish read_hello

hello_Encodes :
    (h : Hello)
    → decode_mask h.requested_capabilities ≡ ok h.requested_capabilities
    → decode_mask h.required_capabilities ≡ ok h.required_capabilities
    → Encodes (hello_fields h h.requested_capabilities h.required_capabilities) read_hello h
unfolding hello_fields read_hello
hello_Encodes h m m' = Encodes-then _ (Encodes-raw h.contract_digest 32) (
    Encodes-then _ (Encodes-mask h.requested_capabilities m) (
      Encodes-then _ (Encodes-mask h.required_capabilities m') (
        Encodes-then _ (Encodes-text8 h.client_name max_name_bytes)
          (Encodes-map _ (Encodes-text8 h.client_version max_version_bytes) (λ bs. refl)))))

-- A hello that the client encodes is what the server decodes.
pub decode_hello-encode_hello :
    (h : Hello) (bs : Bytes) → encode_hello h ≡ ok bs → decode_hello bs ≡ ok h
unfolding encode_hello decode_hello
decode_hello-encode_hello h bs e =
    let (m, p, e') = >>=-eq-ok (encode_mask h.requested_capabilities _) _ e in
    let (m', p', e'') = >>=-eq-ok (encode_mask h.required_capabilities _) _ e' in
    let (known, same) = encode_mask-eq-ok h.requested_capabilities _ p in
    let (known', same') = encode_mask-eq-ok h.required_capabilities _ p' in
    Encodes-finish bs (hello_Encodes h known known') (rw (same, same') at e'')

read_mask-lt : (bs rest : Bytes) (mask : ℕ) → read_mask bs ≡ ok (mask, rest) → mask < 256
unfolding read_mask decode_mask
read_mask-lt bs rest mask h =
    let (value, rest', p, q) =
      Reader.bind-eq-ok Reader.u64 (λ value. lift (decode_mask value)) bs h in
    ground arith

-- The masks of a decoded hello have known capabilities only.
pub decode_hello-masks :
    (bs : Bytes) (h : Hello)
    → decode_hello bs ≡ ok h
    → (h.requested_capabilities < 256) × (h.required_capabilities < 256)
unfolding decode_hello read_hello
decode_hello-masks bs h e =
    let whole = Reader.finish-eq-ok read_hello bs e in
    let (digest, bs₁, p₁, e₁) = Reader.bind-eq-ok (Reader.bytes 32) _ bs whole in
    let (requested, bs₂, p₂, e₂) = Reader.bind-eq-ok read_mask _ bs₁ e₁ in
    let (required, bs₃, p₃, e₃) = Reader.bind-eq-ok read_mask _ bs₂ e₂ in
    let (name, bs₄, p₄, e₄) = Reader.bind-eq-ok (Reader.text8 max_name_bytes) _ bs₃ e₃ in
    let (version, bs₅, p₅, e₅) = Reader.bind-eq-ok (Reader.text8 max_version_bytes) _ bs₄ e₄ in
    let first = read_mask-lt bs₁ bs₂ requested p₂ in
    let second = read_mask-lt bs₂ bs₃ required p₃ in ground arith
