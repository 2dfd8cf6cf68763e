-- ===== src/Link/Stream/Reads.antt =====
-- The reader of fluidgateway/fluidlink.py finds the frames that the encoder wrote.
use fluid_gateway.Common.{
  ◌-◌, ◌≤◌, ◌≡◌, refl, ap, sym, ◌∙◌, Bool, true, false, ◌&&◌, Option, none, some, ◌++◌,
  append_assoc, length, take, drop, length-append, length-take, take-append-drop, leb, arith,
}
use fluid_gateway.Wire.Errors.{Text, Bytes, ok, require-eq-ok, >>=-eq-ok}
use fluid_gateway.Wire.Words.{unpack_le}
use fluid_gateway.Frame.{same_magic}
use fluid_gateway.Frame.Struct.{pack_header}
use fluid_gateway.Frame.Layout.{IsSized}
use fluid_gateway.Frame.RoundTrip.{length-pack_header}
use fluid_gateway.Frame.Stream.{Stream}
use fluid_gateway.Frame.Stream.Reading.{flatten, IsLive, read_exact-Reads}
use fluid_gateway.Frame.Stream.Cutting.{
  Cut, Cut-size, Cut-magic, Cut-payload_size, Cut-prefix, Finds,
}
use fluid_gateway.Json.{Value, object}
use fluid_gateway.Link.Frame.{
  LinkFrame, max_link_payload, validate_link, link_header, encode_json, encode_link, decode_link,
}
use fluid_gateway.Link.Validity.{validate_link_sound}
use fluid_gateway.Link.RoundTrip.{link_header-IsSized, decode_link-encode_link}
use fluid_gateway.Link.Stream.{read_link_after, read_link}

module _ {F : Type 0} (is_finite : F → Bool) where
  module _ (loads : Text → Option (Value F)) where
    read_link_after-Finds :
        (f : LinkFrame F) (payload prefix q rest : Bytes) (stream : Stream)
        → Cut (link_header f (length payload)) prefix q
        → length payload ≤ max_link_payload
        → decode_link is_finite loads ((prefix ++ q) ++ payload) ≡ ok f
        → IsLive stream
        → flatten stream ≡ q ++ (payload ++ rest)
        → Finds (read_link_after is_finite loads prefix stream) f rest
    unfolding read_link_after
    read_link_after-Finds f payload prefix q rest stream c small decoded live e =
        let h = link_header f (length payload) in
        let first =
          read_exact-Reads (56 - length prefix) false q (payload ++ rest) stream live e
            (Cut-size h prefix q c) in
        let second =
          read_exact-Reads (length payload) false payload rest first.left first.live first.remaining
            refl in
        let m = Cut-magic h prefix q c in
        let size : unpack_le (take 4 (drop 52 (prefix ++ q))) ≡ length payload =
          Cut-payload_size h prefix q c in
        let long = c.long in
        let short = c.short in
        let accepted : (leb 4 (length prefix)
              && (leb (length prefix) 56 && same_magic (take 4 prefix)))
            ≡ true =
          rw m (ground arith) in
        let bounded : leb (unpack_le (take 4 (drop 52 (prefix ++ q)))) max_link_payload ≡ true =
          rw size (ground arith) in
        record {
          left = second.left;
          returned = rw (accepted, first.returned, bounded, size, second.returned, decoded);
          remaining = second.remaining;
          live = second.live;
        }

  module _ (dumps : Value F → Option Text) (loads : Text → Option (Value F)) where
    -- What is on the wire of a frame that the encoder accepts.
    record Written (f : LinkFrame F) (wire : Bytes) : Type 0 where
      payload : Bytes
      sized : IsSized (link_header f (length payload))
      small : length payload ≤ max_link_payload
      whole : wire ≡ pack_header (link_header f (length payload)) ++ payload

    encode_link-Written :
        (f : LinkFrame F) (wire : Bytes) → encode_link is_finite dumps f ≡ ok wire → Written f wire
    unfolding encode_link
    encode_link-Written f wire h =
        let (u, valid, h₁) = >>=-eq-ok (validate_link is_finite f) _ h in
        let (payload, encoded, h₂) =
          >>=-eq-ok (encode_json is_finite dumps (object f.payload)) _ h₁ in
        let (u', fits, h₃) = >>=-eq-ok _ _ h₂ in
        let le = require-eq-ok (leb (length payload) max_link_payload) _ _ fits in
        let small : length payload ≤ max_link_payload = ground arith in
        record {
          payload = payload;
          sized =
              link_header-IsSized is_finite f (length payload) small
                (validate_link_sound is_finite f valid);
          small = small;
          whole = ground arith;
        }

    -- The same for a reader that is given a prefix of 4 to 56 bytes.
    read_link-encode_link_prefix :
        (f : LinkFrame F) (prefix wire rest : Bytes) (stream : Stream)
        → ((written : Text)
            → dumps (object f.payload) ≡ some written
            → loads written ≡ some (object f.payload))
        → encode_link is_finite dumps f ≡ ok wire
        → IsLive stream
        → prefix ++ flatten stream ≡ wire ++ rest
        → 4 ≤ length prefix
        → length prefix ≤ 56
        → Finds (read_link is_finite loads (some prefix) stream) f rest
    unfolding read_link
    read_link-encode_link_prefix f prefix wire rest stream law enc live e long short =
        let w = encode_link-Written f wire enc in
        let h = link_header f (length w.payload) in
        let (q, c, back) =
          Cut-prefix h w.payload prefix wire rest stream w.sized refl w.whole e long short in
        let cut : wire ≡ (prefix ++ q) ++ w.payload = w.whole ∙ ap (λ t. t ++ w.payload) c.whole in
        read_link_after-Finds loads f w.payload prefix q rest stream c w.small
          (rw (← cut) (decode_link-encode_link is_finite dumps loads f wire law enc)) live back

    -- Where loads reads what dumps writes of the payload as the payload, and a stream of pieces
    -- that are not empty starts with a frame that the encoder of the JSON protocol accepts,
    -- however it is cut, the reader without a prefix returns that frame and leaves exactly the
    -- bytes after it.
    pub read_link-encode_link :
        (f : LinkFrame F) (wire rest : Bytes) (stream : Stream)
        → ((written : Text)
            → dumps (object f.payload) ≡ some written
            → loads written ≡ some (object f.payload))
        → encode_link is_finite dumps f ≡ ok wire
        → IsLive stream
        → flatten stream ≡ wire ++ rest
        → Finds (read_link is_finite loads none stream) f rest
    read_link-encode_link f wire rest stream law enc live e =
        let w = encode_link-Written f wire enc in
        let long : 4 ≤ length wire =
          rw (w.whole, length-append) (omega (arith, length-pack_header _ w.sized)) in
        let cut : flatten stream ≡ take 4 wire ++ (drop 4 wire ++ rest) =
          e ∙ (ap (λ t. t ++ rest) (sym (take-append-drop 4 wire)) ∙ append_assoc _ _ rest) in
        let size = length-take 4 wire long in
        let first =
          read_exact-Reads 4 true (take 4 wire) (drop 4 wire ++ rest) stream live cut size in
        let found =
          read_link-encode_link_prefix f (take 4 wire) wire rest first.left law enc first.live
            (ap (λ t. take 4 wire ++ t) first.remaining
              ∙ (sym (append_assoc _ _ rest) ∙ ap (λ t. t ++ rest) (take-append-drop 4 wire)))
            (omega (arith, size)) (omega (arith, size)) in
        record {
          left = found.left;
          returned = unfold read_link in rw first.returned (unfold read_link in found.returned);
          remaining = found.remaining;
          live = found.live;
        }
