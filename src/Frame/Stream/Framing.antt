-- ===== src/Frame/Stream/Framing.antt =====
-- The reader finds the frames that the encoder wrote.
use fluid_gateway.Common.{
  ◌+◌, ◌-◌, ◌≤◌, ◌≡◌, refl, ap, sym, ◌∙◌, true, false, ◌&&◌, none, some, [], ◌++◌, append_assoc,
  length, take, drop, length-append, length-take, take-append-drop, leb, arith,
}
use fluid_gateway.Wire.Errors.{Bytes, ok, >>=-eq-ok}
use fluid_gateway.Wire.Words.{unpack_le}
use fluid_gateway.Frame.{Frame, validate, header_of, encode, decode, same_magic}
use fluid_gateway.Frame.Struct.{pack_header}
use fluid_gateway.Frame.Validity.{IsValid, validate_sound}
use fluid_gateway.Frame.RoundTrip.{header_of-IsSized, length-pack_header, decode-encode}
use fluid_gateway.Frame.Stream.{Stream, read, read_loop, read_exact, read_after, read_frame}
use fluid_gateway.Frame.Stream.Reading.{flatten, IsLive, read_exact-Reads}
use fluid_gateway.Frame.Stream.Cutting.{
  Cut, Cut-size, Cut-magic, Cut-payload_size, Cut-prefix, Finds,
}

read_after-Finds :
    (f : Frame) (prefix q wire rest : Bytes) (stream : Stream)
    → Cut (header_of f) prefix q
    → IsValid f
    → encode f ≡ ok wire
    → wire ≡ (prefix ++ q) ++ f.payload
    → IsLive stream
    → flatten stream ≡ q ++ (f.payload ++ rest)
    → Finds (read_after prefix stream) f rest
unfolding read_after
read_after-Finds f prefix q wire rest stream c v enc cut live e =
    let first =
      read_exact-Reads (56 - length prefix) false q (f.payload ++ rest) stream live e
        (Cut-size (header_of f) prefix q c) in
    let second =
      read_exact-Reads (length f.payload) false f.payload rest first.left first.live first.remaining
        refl in
    let m = Cut-magic (header_of f) prefix q c in
    let size = Cut-payload_size (header_of f) prefix q c in
    let decoded : decode ((prefix ++ q) ++ f.payload) ≡ ok f =
      rw (← cut) (decode-encode f wire enc) in
    let long = c.long in
    let short = c.short in
    let small = v.payload in
    let accepted : (leb 4 (length prefix) && (leb (length prefix) 56 && same_magic (take 4 prefix)))
        ≡ true =
      rw m (ground arith) in
    let bounded : leb (unpack_le (take 4 (drop 52 (prefix ++ q)))) 65535 ≡ true =
      rw size (ground arith) in
    record {
      left = second.left;
      returned = rw (accepted, first.returned, bounded, size, second.returned, decoded);
      remaining = second.remaining;
      live = second.live;
    }

-- The same for a reader that is given a prefix of 4 to 56 bytes: it returns the frame that the
-- prefix and the stream start with, and leaves exactly the bytes after it.
pub read_frame-encode_prefix :
    (f : Frame) (prefix wire rest : Bytes) (stream : Stream)
    → encode f ≡ ok wire
    → IsLive stream
    → prefix ++ flatten stream ≡ wire ++ rest
    → 4 ≤ length prefix
    → length prefix ≤ 56
    → Finds (read_frame (some prefix) stream) f rest
unfolding encode read_frame
read_frame-encode_prefix f prefix wire rest stream enc live e long short =
    let (u, valid, same) = >>=-eq-ok (validate f) _ enc in
    let v = validate_sound f valid in
    let cut : wire ≡ pack_header (header_of f) ++ f.payload = ground arith in
    let (q, c, back) =
      Cut-prefix (header_of f) f.payload prefix wire rest stream (header_of-IsSized f v) refl cut e
        long short in
    read_after-Finds f prefix q wire rest stream c v enc (cut ∙ ap (λ t. t ++ f.payload) c.whole)
      live back

length-encode :
    (f : Frame) (wire : Bytes) → encode f ≡ ok wire → length wire ≡ 56 + length f.payload
unfolding encode
length-encode f wire enc =
    let (u, valid, same) = >>=-eq-ok (validate f) _ enc in
    let cut : wire ≡ pack_header (header_of f) ++ f.payload = ground arith in
    rw (cut, length-append)
      (omega
        (arith, length-pack_header (header_of f) (header_of-IsSized f (validate_sound f valid))))

-- Where a stream of pieces that are not empty starts with an encoded frame, however it is cut, the
-- reader without a prefix returns that frame and leaves exactly the bytes after it.
pub read_frame-encode :
    (f : Frame) (wire rest : Bytes) (stream : Stream)
    → encode f ≡ ok wire
    → IsLive stream
    → flatten stream ≡ wire ++ rest
    → Finds (read_frame none stream) f rest
read_frame-encode f wire rest stream enc live e =
    let long : 4 ≤ length wire = omega (arith, length-encode f wire enc) in
    let cut : flatten stream ≡ take 4 wire ++ (drop 4 wire ++ rest) =
      e ∙ (ap (λ t. t ++ rest) (sym (take-append-drop 4 wire)) ∙ append_assoc _ _ rest) in
    let first =
      read_exact-Reads 4 true (take 4 wire) (drop 4 wire ++ rest) stream live cut
        (length-take 4 wire long) in
    let size = length-take 4 wire long in
    let found =
      read_frame-encode_prefix f (take 4 wire) wire rest first.left enc first.live
        (ap (λ t. take 4 wire ++ t) first.remaining
          ∙ (sym (append_assoc _ _ rest) ∙ ap (λ t. t ++ rest) (take-append-drop 4 wire)))
        (omega (arith, size)) (omega (arith, size)) in
    record {
      left = found.left;
      returned = unfold read_frame in rw first.returned (unfold read_frame in found.returned);
      remaining = found.remaining;
      live = found.live;
    }

-- A stream that has ended between two frames is no error.
pub read_frame_end : read_frame none [] ≡ ok (none, [])
unfolding read_frame read_exact read_loop read
read_frame_end = refl
