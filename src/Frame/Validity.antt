-- ===== src/Frame/Validity.antt =====
-- What `validate_fluidlink_v2_frame` accepts, said without its code.
use fluid_gateway.Common.{
  ℕ, ◌^◌, ◌≤◌, ◌<◌, ◌≡◌, ◌⊎◌, ◌↔◌, true, false, none, some, Option, length, any, arith,
}
use fluid_gateway.Wire.Errors.{Bytes, ok}
use fluid_gateway.Frame.{
  Frame, request_kind, response_kind, flag_ok, flag_has_session, nonzero, same_bool, is_some,
  session_fits, validate,
}

-- 16 bytes, not all of them zero
abbrev pub IsIdentity : Bytes → Type 0
IsIdentity bs = (length bs ≡ 16) × (any nonzero bs ≡ true)

-- The session id and the flag that announces it agree.
abbrev pub AgreesWith : ℕ → Option Bytes → Type 0
AgreesWith flags none = flag_has_session flags ≡ false
AgreesWith flags (some s) = (flag_has_session flags ≡ true) × IsIdentity s

pub record IsValid (f : Frame) : Type 0 where
  pub kind : (f.kind ≡ request_kind) ⊎ (f.kind ≡ response_kind)
  pub payload : length f.payload ≤ 65535
  pub message_id : IsIdentity f.message_id
  pub sequence_pos : 1 ≤ f.sequence
  pub sequence : f.sequence < 2 ^ 64
  pub opcode : f.opcode < 256
  pub subject_opcode : f.subject_opcode < 256
  pub decision_opcode : f.decision_opcode < 256
  pub flags : f.flags < 4
  pub session_id : AgreesWith f.flags f.session_id
  pub request_ok : (f.kind ≡ response_kind) ⊎ (flag_ok f.flags ≡ false)

pub session_agrees :
    (flags : ℕ) (o : Option Bytes)
    → same_bool (flag_has_session flags) (is_some o) ≡ true
    → session_fits o ≡ true
    → AgreesWith flags o
session_agrees flags none h k = ground arith
session_agrees flags (some s) h k = ground arith

-- A frame that passes the checks is valid: its kind, the ranges of its fields, its ids, and the
-- agreement of its flags with them.
pub validate_sound : (f : Frame) → validate f ≡ ok tt → IsValid f
unfolding validate
validate_sound f h = record {
  kind = ground arith;
  payload = ground arith;
  message_id = ground arith;
  sequence_pos = ground arith;
  sequence = ground arith;
  opcode = ground arith;
  subject_opcode = ground arith;
  decision_opcode = ground arith;
  flags = ground arith;
  session_id = session_agrees f.flags f.session_id (ground arith) (ground arith);
  request_ok = ground arith;
}

-- A valid frame passes the checks.
pub validate_complete : (f : Frame) → IsValid f → validate f ≡ ok tt
unfolding validate
validate_complete f v = ground arith

-- The checks accept exactly the valid frames: their kind, the ranges of their fields, their ids,
-- and the agreement of their flags with them.
pub validate_lem : (f : Frame) → (validate f ≡ ok tt) ↔ IsValid f
validate_lem f = (validate_sound f, validate_complete f)
