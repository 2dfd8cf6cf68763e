-- ===== src/Link/RoundTrip.antt =====
-- Encoding a frame of fluidgateway/fluidlink.py and decoding its bytes.
use fluid_gateway.Common.{
  ℕ, ◌+◌, ◌≤◌, ◌≡◌, refl, subst, Bool, false, some, Option, Option-cases, inl, inr, ◌++◌, length,
  take, drop, length-append, take-append, drop-append, ltb, leb, arith,
}
use fluid_gateway.Wire.Errors.{Text, Bytes, ok, require-eq-ok, >>=-eq-ok}
use fluid_gateway.Wire.Utf8.{utf8_encode, utf8_decode, utf8_decode-utf8_encode}
use fluid_gateway.Frame.Struct.{pack_header}
use fluid_gateway.Frame.Layout.{IsSized, unpack_header-pack_header}
use fluid_gateway.Frame.RoundTrip.{
  length-session_bytes, session_back, no_stray_session, length-pack_header,
}
use fluid_gateway.Json.{Value, object, keys_encodable}
use fluid_gateway.Json.Shape.{nesting, is_clean}
use fluid_gateway.Link.Frame.{
  LinkFrame, max_link_payload, validate_link, session_of, bare_frame, validate_header, link_header,
  encode_json, encode_link, parse_json, as_object, decode_link_with, decode_link,
}
use fluid_gateway.Link.Validity.{
  IsValidLink, validate_link_sound, validate_link_complete, validate_value_complete,
}

module _ {F : Type 0} (is_finite : F → Bool) where
  pub link_header-IsSized :
      (f : LinkFrame F) (n : ℕ)
      → n ≤ max_link_payload
      → IsValidLink is_finite f
      → IsSized (link_header f n)
  link_header-IsSized f n le v = record {
    magic = refl;
    wire_version = omega arith;
    kind = ground arith;
    opcode = v.opcode;
    subject_opcode = v.subject_opcode;
    decision_opcode = v.decision_opcode;
    flags = omega (arith, v.flags);
    reserved = omega arith;
    sequence = v.sequence;
    message_id = v.message_id.0;
    session_id = length-session_bytes f.flags f.session_id v.session_id;
    payload_size = omega arith;
  }

  session_of-link_header :
      (f : LinkFrame F) (n : ℕ)
      → IsValidLink is_finite f
      → session_of is_finite (link_header f n) ≡ f.session_id
  session_of-link_header f n v = session_back f.flags f.session_id v.session_id

  bare_frame-IsValidLink :
      (f : LinkFrame F) (n : ℕ)
      → IsValidLink is_finite f
      → IsValidLink is_finite (bare_frame is_finite (link_header f n))
  unfolding is_clean nesting keys_encodable
  bare_frame-IsValidLink f n v = record {
    kind = v.kind;
    clean = refl;
    depth = omega arith;
    message_id = v.message_id;
    sequence_pos = v.sequence_pos;
    sequence = v.sequence;
    opcode = omega arith;
    subject_opcode = omega arith;
    decision_opcode = omega arith;
    flags = v.flags;
    json = v.json;
    session_id = rw (session_of-link_header f n v) v.session_id;
    request_ok = v.request_ok;
  }

  validate_header-link_header :
      (f : LinkFrame F) (n : ℕ)
      → n ≤ max_link_payload
      → IsValidLink is_finite f
      → validate_header is_finite (link_header f n) ≡ ok tt
  unfolding validate_header
  validate_header-link_header f n le v =
      let bare = validate_link_complete is_finite _ (bare_frame-IsValidLink f n v) in
      let stray = no_stray_session f.flags f.session_id v.session_id in
      rw (bare, stray) (ground arith)

  module _ (dumps : Value F → Option Text) (loads : Text → Option (Value F)) where
    -- What is written of a value is read as the value, where loads undoes dumps on it.
    parse_json-encode_json :
        (v : Value F) (bytes : Bytes)
        → ((written : Text) → dumps v ≡ some written → loads written ≡ some v)
        → encode_json is_finite dumps v ≡ ok bytes
        → parse_json is_finite loads bytes ≡ ok v
    unfolding encode_json parse_json
    parse_json-encode_json v bytes law h = elim (Option-cases (dumps v)) [
      | inl e ↦ absurd (ground arith)
      | inr (written, e) ↦ elim (Option-cases (utf8_encode written)) [
        | inl e' ↦ absurd (ground arith)
        | inr (bs, e') ↦
            let same : bs ≡ bytes = ground arith in
            let back : utf8_decode bytes ≡ some written =
              subst (λ b. utf8_decode b ≡ some written) same
                (utf8_decode-utf8_encode written bs e') in
            rw (parse_json, back, law written e) refl
      ]
    ]

    decode_link_with-link_header :
        (f : LinkFrame F) (wire payload : Bytes)
        → IsValidLink is_finite f
        → length payload ≤ max_link_payload
        → length wire ≡ 56 + length payload
        → drop 56 wire ≡ payload
        → parse_json is_finite loads payload ≡ ok (object f.payload)
        → decode_link_with is_finite loads wire (link_header f (length payload)) ≡ ok f
    unfolding decode_link_with as_object
    decode_link_with-link_header f wire payload v le size rest parsed =
        let header = validate_header-link_header f (length payload) le v in
        let value = validate_value_complete is_finite (object f.payload) v.clean v.depth in
        let session = session_of-link_header f (length payload) v in
        rw (header, rest, parsed, value, session, size) (ground arith)

    decode_link_parts :
        (f : LinkFrame F) (head payload wire : Bytes)
        → IsValidLink is_finite f
        → length payload ≤ max_link_payload
        → head ≡ pack_header (link_header f (length payload))
        → wire ≡ head ++ payload
        → parse_json is_finite loads payload ≡ ok (object f.payload)
        → decode_link is_finite loads wire ≡ ok f
    unfolding decode_link
    decode_link_parts f head payload wire v le packed split parsed =
        let sized = link_header-IsSized f (length payload) le v in
        let long : length head ≡ 56 = rw packed (length-pack_header _ sized) in
        let total : length wire ≡ 56 + length payload =
          rw (split, length-append) (omega (arith, long)) in
        let first : take 56 wire ≡ head = rw split (take-append head payload 56 long) in
        let rest : drop 56 wire ≡ payload = rw split (drop-append head payload 56 long) in
        let fits : ltb (length wire) 56 ≡ false = ground arith in
        rw (fits, first, packed, unpack_header-pack_header _ sized)
          (decode_link_with-link_header f wire payload v le total rest parsed)

    -- Where loads reads what dumps writes of the payload as the payload, the decoder of the JSON
    -- protocol reads the bytes of a frame that its encoder accepts as the same frame.
    pub decode_link-encode_link :
        (f : LinkFrame F) (wire : Bytes)
        → ((written : Text)
            → dumps (object f.payload) ≡ some written
            → loads written ≡ some (object f.payload))
        → encode_link is_finite dumps f ≡ ok wire
        → decode_link is_finite loads wire ≡ ok f
    unfolding encode_link
    decode_link-encode_link f wire law h =
        let (u, valid, h₁) = >>=-eq-ok (validate_link is_finite f) _ h in
        let (payload, encoded, h₂) =
          >>=-eq-ok (encode_json is_finite dumps (object f.payload)) _ h₁ in
        let (u', small, h₃) = >>=-eq-ok _ _ h₂ in
        let le = require-eq-ok (leb (length payload) max_link_payload) _ _ small in
        decode_link_parts f (pack_header (link_header f (length payload))) payload wire
          (validate_link_sound is_finite f valid) (ground arith) refl (ground arith)
          (parse_json-encode_json (object f.payload) payload law encoded)
