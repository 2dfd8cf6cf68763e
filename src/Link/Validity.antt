-- ===== src/Link/Validity.antt =====
-- What `validate_frame` of fluidgateway/fluidlink.py accepts, said without its code.
use fluid_gateway.Common.{◌^◌, ◌≤◌, ◌<◌, ◌≡◌, ◌⊎◌, ◌↔◌, refl, Bool, true, false, ◌&&◌, leb, arith}
use fluid_gateway.Wire.Errors.{Result, ok, err}
use fluid_gateway.Frame.{request_kind, response_kind, flag_ok}
use fluid_gateway.Frame.Validity.{IsIdentity, AgreesWith, session_agrees}
use fluid_gateway.Json.{Value, object, validate_value}
use fluid_gateway.Json.Shape.{nesting, is_clean, is_ok, is_ok-validate_value}
use fluid_gateway.Link.Frame.{LinkFrame, flag_json, validate_link}

module _ {F : Type 0} (is_finite : F → Bool) where
  -- The payload is standard JSON of at most 64 levels, and the header says so.
  pub record IsValidLink (f : LinkFrame F) : Type 0 where
    pub kind : (f.kind ≡ request_kind) ⊎ (f.kind ≡ response_kind)
    pub clean : is_clean is_finite (object f.payload) ≡ true
    pub depth : nesting (object f.payload) ≤ 64
    pub message_id : IsIdentity f.message_id
    pub sequence_pos : 1 ≤ f.sequence
    pub sequence : f.sequence < 2 ^ 64
    pub opcode : f.opcode < 256
    pub subject_opcode : f.subject_opcode < 256
    pub decision_opcode : f.decision_opcode < 256
    pub flags : f.flags < 8
    pub json : flag_json f.flags ≡ true
    pub session_id : AgreesWith f.flags f.session_id
    pub request_ok : (f.kind ≡ response_kind) ⊎ (flag_ok f.flags ≡ false)

  shape_of :
      (v : Value F)
      → validate_value is_finite 1 v ≡ ok tt
      → (is_clean is_finite v ≡ true) × (nesting v ≤ 64)
  shape_of v h =
      let both : (is_clean is_finite v && leb (nesting v) 64) ≡ true =
        rw (← is_ok-validate_value is_finite v, h) refl in
      (ground arith, ground arith)

  is_ok-eq : (r : Result (Unit {0})) → is_ok r ≡ true → r ≡ ok tt
  is_ok-eq (ok tt) h = refl
  is_ok-eq (err e) h = cc

  pub validate_value_complete :
      (v : Value F)
      → is_clean is_finite v ≡ true
      → nesting v ≤ 64
      → validate_value is_finite 1 v ≡ ok tt
  validate_value_complete v c n =
      is_ok-eq (validate_value is_finite 1 v) (rw is_ok-validate_value (ground arith))

  pub validate_link_sound : (f : LinkFrame F) → validate_link is_finite f ≡ ok tt → IsValidLink f
  unfolding validate_link
  validate_link_sound f h =
      let shape = shape_of (object f.payload) (ground arith) in
      record {
        kind = ground arith;
        clean = shape.0;
        depth = shape.1;
        message_id = ground arith;
        sequence_pos = ground arith;
        sequence = ground arith;
        opcode = ground arith;
        subject_opcode = ground arith;
        decision_opcode = ground arith;
        flags = ground arith;
        json = ground arith;
        session_id = session_agrees f.flags f.session_id (ground arith) (ground arith);
        request_ok = ground arith;
      }

  pub validate_link_complete : (f : LinkFrame F) → IsValidLink f → validate_link is_finite f ≡ ok tt
  unfolding validate_link
  validate_link_complete f v =
      let shape = validate_value_complete (object f.payload) v.clean v.depth in ground arith

  -- The checks of the JSON protocol accept exactly the valid frames: those with a clean payload of
  -- at most 64 levels, a kind, fields in their ranges, ids that are not zero, and flags that agree
  -- with them.
  pub validate_link_lem : (f : LinkFrame F) → (validate_link is_finite f ≡ ok tt) ↔ IsValidLink f
  validate_link_lem f = (validate_link_sound f, validate_link_complete f)
