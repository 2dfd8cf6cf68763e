-- ===== src/Message/Operation.antt =====
-- The fields that an operation event and an operation batch share, `_encode_operation_event` and
-- `_decode_operation_event` of fluidgateway/fluidlink_v2.py.
use fluid_gateway.Common.{
  ℕ, ◌+◌, ◌/◌, ◌≡◌, refl, Bool, true, false, Option, List, ◌++◌, String, ◌==◌, arith,
}
use fluid_gateway.Wire.Errors
use fluid_gateway.Wire.Errors.{Text, Bytes, Result, ok, invalid_payload, require, say, >>=-eq-ok}
use fluid_gateway.Wire.Writer
use fluid_gateway.Wire.Writer.{◌⊕◌}
use fluid_gateway.Wire.Reader
use fluid_gateway.Wire.Reader.{Reader, lift, pure, ◌>>=◌, ◌>>◌}
use fluid_gateway.Wire.Codec.{
  Encodes, Encodes-then, Encodes-map, Encodes-u8, Encodes-u32, Encodes-u64, Encodes-text16,
}
use fluid_gateway.Message.Amount.{
  Amount, Measured, milliseconds, mebibytes, time_value, memory_value, unsigned,
}
use fluid_gateway.Message.Decision.{bit, has_bit}
use fluid_gateway.Message.Enum.{
  OperationType, Queue, enum_value, read_enum, Encodes-enum, operation_types, queues,
  operation_types-IsComplete, queues-IsComplete,
}
use fluid_gateway.Message.Listing.{
  write_optional, read_optional, is_present, Encodes-optional, text_list, text_list-eq-ok,
  write_texts, read_texts, Encodes-texts, write_identifier, read_identifier, max_identifier_bytes,
}
use fluid_gateway.Message.Notice.{max_reason_bytes}

-- An operation whose cost and size are of the type `A`: amounts for the encoder, what is measured for
-- the decoder.
pub record OperationEvent (A : Type 0) : Type 0 where
  pub operation_type : OperationType
  pub queue : Queue
  pub source : Option Text
  pub target : Option Text
  pub reason : Option Text
  pub cost : A
  pub size : A
  pub frame : Option ℕ
  pub depends_on : List Text

abbrev pub measured : {A B : Type 0} → OperationEvent A → B → B → OperationEvent B
measured o cost size = record {
  operation_type = o.operation_type;
  queue = o.queue;
  source = o.source;
  target = o.target;
  reason = o.reason;
  cost = cost;
  size = size;
  frame = o.frame;
  depends_on = o.depends_on;
}

unfoldable pub presence_of : Bool → Bool → Bool → Bool → ℕ
presence_of source target reason frame = bit source 1 + bit target 2 + bit reason 4 + bit frame 8

abbrev pub operation_presence : {A : Type 0} → OperationEvent A → ℕ
operation_presence o =
    presence_of (is_present o.source) (is_present o.target) (is_present o.reason)
      (is_present o.frame)

abbrev pub max_dependencies : ℕ
max_dependencies = 32

abbrev write_reason : Text → Result Bytes
write_reason t = Writer.text16 t max_reason_bytes false

unfoldable pub write_time : String → Amount → Result Bytes
write_time key a = Errors.◌>>=◌ (time_value a 0xFFFFFFFF key) Writer.u32

unfoldable pub write_memory : String → String → Amount → Result Bytes
write_memory bytes_key megabytes_key a =
    Errors.◌>>=◌ (memory_value a bytes_key megabytes_key) Writer.u64

unfoldable pub write_frame : ℕ → Result Bytes
write_frame frame = Errors.◌>>=◌ (unsigned frame 0xFFFFFFFFFFFFFFFF "frame") Writer.u64

-- What follows the presence byte (and, in an event, the id), up to the dependencies.
unfoldable pub write_body : OperationEvent Amount → Result Bytes → Result Bytes
write_body o dependencies =
    write_optional write_identifier o.source
    ⊕ write_optional write_identifier o.target
    ⊕ write_optional write_reason o.reason
    ⊕ write_time "cost_us" o.cost
    ⊕ write_memory "size_bytes" "size_mb" o.size
    ⊕ write_optional write_frame o.frame
    ⊕ dependencies

unfoldable pub read_body :
    (ℕ → Measured) → (ℕ → Measured) → OperationType → Queue → ℕ → Reader (OperationEvent Measured)
read_body time memory operation_type queue presence = do
  source ← read_optional (has_bit presence 1) read_identifier
  target ← read_optional (has_bit presence 2) read_identifier
  reason ← read_optional (has_bit presence 4) (Reader.text16 max_reason_bytes false)
  cost ← Reader.u32
  size ← Reader.u64
  frame ← read_optional (has_bit presence 8) Reader.u64
  depends_on ← read_texts max_dependencies "dependency"
  pure (record {
    operation_type = operation_type;
    queue = queue;
    source = source;
    target = target;
    reason = reason;
    cost = time cost;
    size = memory size;
    frame = frame;
    depends_on = depends_on;
  })

pub presence_bits :
    (s t r f : Bool)
    → (has_bit (presence_of s t r f) 1 ≡ s)
      × (has_bit (presence_of s t r f) 2 ≡ t)
      × (has_bit (presence_of s t r f) 4 ≡ r)
      × (has_bit (presence_of s t r f) 8 ≡ f)
unfolding presence_of
presence_bits s t r f = (ground arith, ground arith, ground arith, ground arith)

pub presence_known : (s t r f : Bool) → (presence_of s t r f / 16 == 0) ≡ true
unfolding presence_of
presence_known s t r f = ground arith

-- The cost and the size of an operation in wire units.
pub record Measures (o : OperationEvent Amount) (cost size : ℕ) : Type 0 where
  pub time : time_value o.cost 0xFFFFFFFF "cost_us" ≡ ok cost
  pub memory : memory_value o.size "size_bytes" "size_mb" ≡ ok size

pub Encodes-time :
    (key : String) (a : Amount) (n : ℕ)
    → time_value a 0xFFFFFFFF key ≡ ok n
    → Encodes (write_time key a) Reader.u32 n
unfolding write_time
Encodes-time key a n h = rw h (Encodes-u32 n)

pub Encodes-memory :
    (bytes_key megabytes_key : String) (a : Amount) (n : ℕ)
    → memory_value a bytes_key megabytes_key ≡ ok n
    → Encodes (write_memory bytes_key megabytes_key a) Reader.u64 n
unfolding write_memory
Encodes-memory bytes_key megabytes_key a n h = rw h (Encodes-u64 n)

pub Encodes-frame : (frame : ℕ) → Encodes (write_frame frame) Reader.u64 frame
unfolding write_frame unsigned
Encodes-frame frame = record {
  at = λ bs rest h.
      let written : Writer.u64 frame ≡ ok bs = ground arith in
      (Encodes-u64 frame).at bs rest written;
}

pub Encodes-body :
    (time memory : ℕ → Measured) (o : OperationEvent Amount) (cost size : ℕ)
    {dependencies : Result Bytes}
    → Measures o cost size
    → Encodes dependencies (read_texts max_dependencies "dependency") o.depends_on
    → Encodes
        (write_body o dependencies)
        (read_body time memory o.operation_type o.queue (operation_presence o))
        (measured o (time cost) (memory size))
unfolding write_body read_body
Encodes-body time memory o cost size m deps =
    let (s, t, r, f) =
      presence_bits (is_present o.source) (is_present o.target) (is_present o.reason)
        (is_present o.frame) in
    rw (s, t, r, f)
      (Encodes-then _
        (Encodes-optional write_identifier read_identifier o.source
          (λ x. Encodes-text16 x max_identifier_bytes false))
        (Encodes-then _
          (Encodes-optional write_identifier read_identifier o.target
            (λ x. Encodes-text16 x max_identifier_bytes false))
          (Encodes-then _
            (Encodes-optional write_reason _ o.reason
              (λ x. Encodes-text16 x max_reason_bytes false))
            (Encodes-then _ (Encodes-time _ o.cost cost m.time) (
              Encodes-then _ (Encodes-memory _ _ o.size size m.memory) (
                Encodes-then _ (Encodes-optional write_frame Reader.u64 o.frame Encodes-frame)
                  (Encodes-map _ deps (λ bs. refl))))))))

-- `_text_list` and the writing of its texts
unfoldable pub write_dependencies : List Text → Result Bytes
write_dependencies texts =
    Errors.◌>>=◌ (text_list texts max_dependencies "dependencies") write_texts

pub Encodes-dependencies :
    (texts : List Text)
    → Encodes (write_dependencies texts) (read_texts max_dependencies "dependency") texts
unfolding write_dependencies
Encodes-dependencies texts = record {
  at = λ bs rest h.
      let (checked, l, written) = >>=-eq-ok (text_list texts max_dependencies _) write_texts h in
      let (fits, same) = text_list-eq-ok texts max_dependencies _ l in
      (Encodes-texts texts max_dependencies _ fits).at bs rest (rw same at written);
}

abbrev pub operation_fields : Text → OperationEvent Amount → Result Bytes
operation_fields id o =
    Writer.u8 (enum_value operation_types o.operation_type)
    ⊕ Writer.u8 (enum_value queues o.queue)
    ⊕ Writer.u8 (operation_presence o)
    ⊕ write_identifier id
    ⊕ write_body o (write_dependencies o.depends_on)

-- `_encode_operation_event`
unfoldable pub encode_operation : Text → OperationEvent Amount → Result Bytes
encode_operation id o = Writer.finish (operation_fields id o)

abbrev pub known_presence : ℕ → String → Result (Unit {0})
known_presence presence what =
    require (presence / 16 == 0) invalid_payload
      (say "FluidLink v2 " ++ (say what ++ say " presence mask is invalid."))

-- `_decode_operation_event`
unfoldable pub read_operation : Reader (Text × OperationEvent Measured)
read_operation = do
  operation_type ← read_enum operation_types
  queue ← read_enum queues
  presence ← Reader.u8
  lift (known_presence presence "operation")
  id ← read_identifier
  event ← read_body milliseconds mebibytes operation_type queue presence
  pure (id, event)

pub Encodes-operation :
    (id : Text) (o : OperationEvent Amount) (cost size : ℕ)
    → Measures o cost size
    → Encodes
        (operation_fields id o)
        read_operation
        (id, measured o (milliseconds cost) (mebibytes size))
unfolding read_operation
Encodes-operation id o cost size m =
    let known =
      presence_known (is_present o.source) (is_present o.target) (is_present o.reason)
        (is_present o.frame) in
    Encodes-then _ (Encodes-enum operation_types o.operation_type operation_types-IsComplete) (
      Encodes-then _ (Encodes-enum queues o.queue queues-IsComplete) (
        Encodes-then _ (Encodes-u8 (operation_presence o)) (
          rw known (
            Encodes-then _ (Encodes-text16 id max_identifier_bytes false) (
              Encodes-map _
                (Encodes-body milliseconds mebibytes o cost size m
                  (Encodes-dependencies o.depends_on))
                (λ bs. refl))))))
