-- ===== src/Frame/RoundTrip.antt =====
-- Encoding a frame and decoding its bytes, in both orders.
use fluid_gateway.Common.{
  ℕ, ◌+◌, ◌≡◌, refl, ap, true, false, not, ◌||◌, none, some, Option, [], ◌∷◌, ◌++◌, length, take,
  drop, any, length-append, take-append, drop-append, ltb, if◌then◌else◌, arith,
}
use fluid_gateway.Wire.Errors.{Bytes, ok, >>=-eq-ok}
use fluid_gateway.Wire.Words.{length-pack_le}
use fluid_gateway.Frame.{
  Frame, flag_has_session, nonzero, validate, session_bytes, header_of, frame_of, encode,
  decode_with, decode,
}
use fluid_gateway.Frame.Struct.{Header, pack_header}
use fluid_gateway.Frame.Layout.{IsSized, unpack_header-pack_header}
use fluid_gateway.Frame.Validity.{AgreesWith, IsValid, validate_sound, validate_complete}

pub length-session_bytes :
    (flags : ℕ) (o : Option Bytes) → AgreesWith flags o → length (session_bytes o) ≡ 16
length-session_bytes flags none h = refl
length-session_bytes flags (some []) h = absurd (ground arith)
length-session_bytes flags (some (b ∷ bs)) h = h.1.0

pub header_of-IsSized : (f : Frame) → IsValid f → IsSized (header_of f)
header_of-IsSized f v = record {
  magic = refl;
  wire_version = omega arith;
  kind = ground arith;
  opcode = v.opcode;
  subject_opcode = v.subject_opcode;
  decision_opcode = v.decision_opcode;
  flags = omega arith;
  reserved = omega arith;
  sequence = v.sequence;
  message_id = v.message_id.0;
  session_id = length-session_bytes f.flags f.session_id v.session_id;
  payload_size = omega (arith, v.payload);
}

pub length-pack_header : (h : Header) → IsSized h → length (pack_header h) ≡ 56
unfolding pack_header
length-pack_header h s =
    omega (arith, length-append {0}, length-pack_le, s.magic, s.message_id, s.session_id)

pub session_back :
    (flags : ℕ) (o : Option Bytes)
    → AgreesWith flags o
    → (if flag_has_session flags then some (session_bytes o) else none) ≡ o
session_back flags none h = rw h refl
session_back flags (some []) h = absurd (ground arith)
session_back flags (some (b ∷ bs)) h = rw h.0 refl

frame_of-header_of : (f : Frame) → IsValid f → frame_of (header_of f) f.payload ≡ f
frame_of-header_of f v =
    ap (λ s. record f { session_id = s }) (session_back f.flags f.session_id v.session_id)

pub no_stray_session :
    (flags : ℕ) (o : Option Bytes)
    → AgreesWith flags o
    → (flag_has_session flags || not (any nonzero (session_bytes o))) ≡ true
no_stray_session flags none h = rw h refl
no_stray_session flags (some s) h = rw h.0 refl

decode_with-header_of :
    (f : Frame) (wire : Bytes)
    → IsValid f
    → length wire ≡ 56 + length f.payload
    → drop 56 wire ≡ f.payload
    → decode_with wire (header_of f) ≡ ok f
unfolding decode_with
decode_with-header_of f wire v size rest =
    let stray = no_stray_session f.flags f.session_id v.session_id in
    let whole = frame_of-header_of f v in
    let valid = validate_complete f v in rw (rest, whole, valid, stray, size) (ground arith)

decode_parts :
    (f : Frame) (head wire : Bytes)
    → IsValid f
    → head ≡ pack_header (header_of f)
    → wire ≡ head ++ f.payload
    → decode wire ≡ ok f
unfolding decode
decode_parts f head wire v packed split =
    let sized = header_of-IsSized f v in
    let long : length head ≡ 56 = rw packed (length-pack_header (header_of f) sized) in
    let total : length wire ≡ 56 + length f.payload =
      rw (split, length-append) (omega (arith, long)) in
    let first : take 56 wire ≡ head = rw split (take-append head f.payload 56 long) in
    let rest : drop 56 wire ≡ f.payload = rw split (drop-append head f.payload 56 long) in
    let fits : ltb (length wire) 56 ≡ false = ground arith in
    rw (fits, first, packed, unpack_header-pack_header (header_of f) sized)
      (decode_with-header_of f wire v total rest)

-- Whatever frame the encoder accepts, the decoder reads its bytes back as the same frame.
pub decode-encode : (f : Frame) (wire : Bytes) → encode f ≡ ok wire → decode wire ≡ ok f
unfolding encode
decode-encode f wire h =
    let (u, valid, same) = >>=-eq-ok (validate f) _ h in
    decode_parts f (pack_header (header_of f)) wire (validate_sound f valid) refl (ground arith)
