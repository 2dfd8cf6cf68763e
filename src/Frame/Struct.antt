-- ===== src/Frame/Struct.antt =====
-- `FLUIDLINK_V2_HEADER`, the layout `struct.Struct("<4sBBBBBBHQ16s16sI")` of
-- fluidgateway/fluidlink_v2.py.
use fluid_gateway.Common.{ℕ, [], ◌∷◌, ◌++◌, take, drop}
use fluid_gateway.Wire.Errors.{Bytes}
use fluid_gateway.Wire.Words.{pack_le, unpack_le}

abbrev pub header_size : ℕ
header_size = 56

-- b"FLNK"
abbrev pub magic : Bytes
magic = b'F' ∷ b'L' ∷ b'N' ∷ b'K' ∷ []

pub record Header : Type 0 where
  pub magic : Bytes
  pub wire_version : ℕ
  pub kind : ℕ
  pub opcode : ℕ
  pub subject_opcode : ℕ
  pub decision_opcode : ℕ
  pub flags : ℕ
  pub reserved : ℕ
  pub sequence : ℕ
  pub message_id : Bytes
  pub session_id : Bytes
  pub payload_size : ℕ

-- `FLUIDLINK_V2_HEADER.pack`, for fields that have their sizes
unfoldable pub pack_header : Header → Bytes
pack_header h =
    h.magic
    ++ (pack_le 1 h.wire_version
        ++ (pack_le 1 h.kind
            ++ (pack_le 1 h.opcode
                ++ (pack_le 1 h.subject_opcode
                    ++ (pack_le 1 h.decision_opcode
                        ++ (pack_le 1 h.flags
                            ++ (pack_le 2 h.reserved
                                ++ (pack_le 8 h.sequence
                                    ++ (h.message_id
                                        ++ (h.session_id ++ pack_le 4 h.payload_size))))))))))

-- The bytes of the next field, and those after it.
unfoldable pub split : ℕ → Bytes → Bytes × Bytes
split n bs = (take n bs, drop n bs)

-- `FLUIDLINK_V2_HEADER.unpack`
unfoldable pub unpack_header : Bytes → Header
unpack_header wire =
    let (magic, d₁) = split 4 wire in
    let (wire_version, d₂) = split 1 d₁ in
    let (kind, d₃) = split 1 d₂ in
    let (opcode, d₄) = split 1 d₃ in
    let (subject_opcode, d₅) = split 1 d₄ in
    let (decision_opcode, d₆) = split 1 d₅ in
    let (flags, d₇) = split 1 d₆ in
    let (reserved, d₈) = split 2 d₇ in
    let (sequence, d₉) = split 8 d₈ in
    let (message_id, d₁₀) = split 16 d₉ in
    let (session_id, d₁₁) = split 16 d₁₀ in
    record {
      magic = magic;
      wire_version = unpack_le wire_version;
      kind = unpack_le kind;
      opcode = unpack_le opcode;
      subject_opcode = unpack_le subject_opcode;
      decision_opcode = unpack_le decision_opcode;
      flags = unpack_le flags;
      reserved = unpack_le reserved;
      sequence = unpack_le sequence;
      message_id = message_id;
      session_id = session_id;
      payload_size = unpack_le (split 4 d₁₁).0;
    }
