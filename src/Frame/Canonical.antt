-- ===== src/Frame/Canonical.antt =====
-- A frame has one encoding: the decoder accepts no other bytes for it.
use fluid_gateway.Common.{
  ◌+◌, ◌≤◌, ◌≡◌, refl, ap, ap₂, sym, ◌∙◌, Bool, true, false, not, ◌||◌, none, some, [], ◌∷◌, length,
  take, drop, any, length-take, length-drop, take-append-drop, All-take, if◌then◌else◌, arith,
}
use fluid_gateway.Wire.Errors.{Bytes, ok}
use fluid_gateway.Wire.Words.{IsByte, IsBytes}
use fluid_gateway.Frame.{
  Frame, flag_has_session, nonzero, validate, zero_session, session_bytes, header_of, frame_of,
  encode, decode_with, decode, same_magic,
}
use fluid_gateway.Frame.Struct.{Header, magic, unpack_header, split}
use fluid_gateway.Frame.Layout.{pack_header-unpack_header}

-- What the decoder's checks give.
record Accepted (wire : Bytes) (h : Header) (f : Frame) : Type 0 where
  magic_ok : same_magic h.magic ≡ true
  version : h.wire_version ≡ 2
  reserved : h.reserved ≡ 0
  size : length wire ≡ 56 + h.payload_size
  valid : validate (frame_of h (drop 56 wire)) ≡ ok tt
  stray : (flag_has_session h.flags || not (any nonzero h.session_id)) ≡ true
  frame : frame_of h (drop 56 wire) ≡ f

decode_with-Accepted :
    (wire : Bytes) (h : Header) (f : Frame) → decode_with wire h ≡ ok f → Accepted wire h f
unfolding decode_with
decode_with-Accepted wire h f e = record {
  magic_ok = ground arith;
  version = ground arith;
  reserved = ground arith;
  size = ground arith;
  valid = ground arith;
  stray = ground arith;
  frame = ground arith;
}

same_magic_sound : (m : Bytes) → same_magic m ≡ true → m ≡ magic
same_magic_sound (a ∷ b ∷ c ∷ d ∷ []) h = ground arith
same_magic_sound _ h = cc

all_zero : (s : Bytes) → any nonzero s ≡ false → length s ≡ 16 → s ≡ zero_session
all_zero s h e = same_length s zero_session h refl e
  where
    same_length :
        (xs ys : Bytes)
        → any nonzero xs ≡ false
        → any nonzero ys ≡ false
        → length xs ≡ length ys
        → xs ≡ ys
    same_length [] [] h k e = refl
    same_length [] (y ∷ ys) h k e = absurd (omega arith)
    same_length (x ∷ xs) [] h k e = absurd (omega arith)
    same_length (x ∷ xs) (y ∷ ys) h k e =
        ap₂ ◌∷◌ (ground arith) (same_length xs ys (ground arith) (ground arith) (omega arith))

session_kept :
    (flag : Bool) (s : Bytes)
    → length s ≡ 16
    → (flag || not (any nonzero s)) ≡ true
    → session_bytes (if flag then some s else none) ≡ s
session_kept true [] e h = absurd (omega arith)
session_kept true (b ∷ bs) e h = refl
session_kept false s e h = sym (all_zero s (ground arith) e)

header_back :
    (wire : Bytes) (h : Header) (f : Frame)
    → Accepted wire h f
    → length h.session_id ≡ 16
    → header_of (frame_of h (drop 56 wire)) ≡ h
header_back wire h f a e =
    let m = same_magic_sound h.magic a.magic_ok in
    let s = session_kept (flag_has_session h.flags) h.session_id e a.stray in
    let size : length (drop 56 wire) ≡ h.payload_size =
      length-drop 56 wire ∙ (rw a.size (omega arith)) in
    λ i. record {
      magic = sym m i;
      wire_version = sym a.version i;
      kind = h.kind;
      opcode = h.opcode;
      subject_opcode = h.subject_opcode;
      decision_opcode = h.decision_opcode;
      flags = h.flags;
      reserved = sym a.reserved i;
      sequence = h.sequence;
      message_id = h.message_id;
      session_id = s i;
      payload_size = size i;
    }

length-session_id : (d : Bytes) → length d ≡ 56 → length (unpack_header d).session_id ≡ 16
unfolding unpack_header split
length-session_id d e = length-take 16 _ (omega (arith, length-drop {0}, e))

-- Where the decoder accepts a list of bytes, encoding the decoded frame gives the same bytes: no
-- two byte strings decode to one frame.
pub encode-decode :
    (wire : Bytes) (f : Frame) → IsBytes wire → decode wire ≡ ok f → encode f ≡ ok wire
unfolding encode decode
encode-decode wire f b e =
    let long : 56 ≤ length wire = ground arith in
    let checked : decode_with wire (unpack_header (take 56 wire)) ≡ ok f = ground arith in
    let a = decode_with-Accepted wire (unpack_header (take 56 wire)) f checked in
    let head = length-take 56 wire long in
    let same = header_back wire _ f a (length-session_id (take 56 wire) head) in
    let packed = pack_header-unpack_header (take 56 wire) (All-take IsByte 56 wire b) head in
    rw (← a.frame, a.valid, same, packed) (ap ok (take-append-drop 56 wire))
