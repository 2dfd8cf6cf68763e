-- ===== src/Message/Event.antt =====
-- The session, frame, resource and state events of fluidgateway/fluidlink_v2.py, and
-- `encode_runtime_event_payload` and `decode_runtime_event_payload`.
pub mod RoundTrip
pub mod Codec
use fluid_gateway.Common.{
  ℕ, ◌+◌, ◌/◌, Bool, true, false, not, ◌&&◌, ◌||◌, Option, none, some, List, ◌++◌, String, ◌==◌,
  if◌then◌else◌,
}
use fluid_gateway.Wire.Errors
use fluid_gateway.Wire.Errors.{
  Text, Bytes, Result, ok, err, invalid_payload, unsupported_event_opcode, raise, require, say,
  show,
}
use fluid_gateway.Wire.Writer
use fluid_gateway.Wire.Writer.{◌⊕◌}
use fluid_gateway.Wire.Reader
use fluid_gateway.Wire.Reader.{Reader, lift, pure, ◌>>=◌, ◌>>◌}
use fluid_gateway.Message.Amount.{Amount, Measured, milliseconds, mebibytes, unsigned}
use fluid_gateway.Message.Decision.{bit, has_bit}
use fluid_gateway.Message.Enum.{
  Lifecycle, begin, end, ResourceAction, register, release, ResourceKind, MemoryLayer, Lifetime,
  StateAction, enum_value, read_enum, lifecycle_actions, resource_actions, resource_kinds,
  memory_layers, lifetimes, state_actions,
}
use fluid_gateway.Message.Listing.{
  write_optional, read_optional, is_present, text_list, write_texts, read_texts, write_identifier,
  read_identifier, max_identifier_bytes,
}
use fluid_gateway.Message.Operation.{
  OperationEvent, encode_operation, read_operation, write_time, write_memory, write_frame,
}

-- A session event with its budgets: the target of a frame, and of each memory layer.
pub record SessionEvent (A : Type 0) : Type 0 where
  pub action : Lifecycle
  pub id : Text
  pub target : Option A
  pub ram : Option A
  pub vram : Option A
  pub shared : Option A
  pub staging : Option A
  pub swapchain : Option A

abbrev pub is_end : Lifecycle → Bool
is_end begin = false
is_end end = true

-- Bits 0 to 5.
unfoldable pub session_presence : Bool → Bool → Bool → Bool → Bool → Bool → ℕ
session_presence target ram vram shared staging swapchain =
    bit target 1 + bit ram 2 + bit vram 4 + bit shared 8 + bit staging 16 + bit swapchain 32

abbrev pub session_mask : {A : Type 0} → SessionEvent A → ℕ
session_mask s =
    session_presence (is_present s.target) (is_present s.ram) (is_present s.vram)
      (is_present s.shared) (is_present s.staging) (is_present s.swapchain)

abbrev pub no_budget_at_end : Lifecycle → ℕ → Result (Unit {0})
no_budget_at_end action presence =
    require (not (is_end action) || presence == 0) invalid_payload
      (say "FluidLink v2 session end cannot carry budget fields.")

-- The budgets of the memory layers, which are converted before anything is written.
unfoldable pub session_memory : SessionEvent Amount → Result Bytes
session_memory s =
    write_optional (write_memory "bytes" "megabytes") s.ram
    ⊕ write_optional (write_memory "bytes" "megabytes") s.vram
    ⊕ write_optional (write_memory "bytes" "megabytes") s.shared
    ⊕ write_optional (write_memory "bytes" "megabytes") s.staging
    ⊕ write_optional (write_memory "bytes" "megabytes") s.swapchain

-- `_encode_session_event`
unfoldable pub encode_session : SessionEvent Amount → Result Bytes
encode_session s = Errors.◌>>=◌ (session_memory s) λ _.
    Errors.◌>>=◌ (no_budget_at_end s.action (session_mask s)) λ _. Writer.finish (
      Writer.u8 (enum_value (lifecycle_actions "session action") s.action)
      ⊕ Writer.u8 (session_mask s)
      ⊕ Writer.text16 s.id max_identifier_bytes (is_end s.action)
      ⊕ write_optional (write_time "microseconds") s.target
      ⊕ session_memory s)

-- `reader.u32() / 1000` and `reader.u64() / MEBIBYTE`
abbrev pub read_time : Reader Measured
read_time = do n ← Reader.u32; pure (milliseconds n)

abbrev pub read_memory : Reader Measured
read_memory = do n ← Reader.u64; pure (mebibytes n)

-- `_decode_session_event`
unfoldable pub read_session : Reader (SessionEvent Measured)
read_session = do
  action ← read_enum (lifecycle_actions "session action")
  presence ← Reader.u8
  lift (
      require (presence / 64 == 0) invalid_payload
        (say "FluidLink v2 session presence mask is invalid."))
  lift (no_budget_at_end action presence)
  id ← Reader.text16 max_identifier_bytes (is_end action)
  target ← read_optional (has_bit presence 1) read_time
  ram ← read_optional (has_bit presence 2) read_memory
  vram ← read_optional (has_bit presence 4) read_memory
  shared ← read_optional (has_bit presence 8) read_memory
  staging ← read_optional (has_bit presence 16) read_memory
  swapchain ← read_optional (has_bit presence 32) read_memory
  pure (record {
    action = action;
    id = id;
    target = target;
    ram = ram;
    vram = vram;
    shared = shared;
    staging = staging;
    swapchain = swapchain;
  })

pub record FrameEvent (A : Type 0) : Type 0 where
  pub action : Lifecycle
  pub frame : ℕ
  pub target : Option A

abbrev pub no_target_at_end : Lifecycle → Bool → Result (Unit {0})
no_target_at_end action has_target =
    require (not (is_end action && has_target)) invalid_payload
      (say "FluidLink v2 frame end cannot carry a target budget.")

-- `_encode_frame_event`; the frame number is checked first
unfoldable pub encode_frame : FrameEvent Amount → Result Bytes
encode_frame f = Errors.◌>>=◌ (unsigned f.frame 0xFFFFFFFFFFFFFFFF "frame") λ _.
    Errors.◌>>=◌ (no_target_at_end f.action (is_present f.target)) λ _. Writer.finish (
      Writer.u8 (enum_value (lifecycle_actions "frame action") f.action)
      ⊕ Writer.u8 (bit (is_present f.target) 1)
      ⊕ write_frame f.frame
      ⊕ write_optional (write_time "microseconds") f.target)

-- `_decode_frame_event`
unfoldable pub read_frame : Reader (FrameEvent Measured)
read_frame = do
  action ← read_enum (lifecycle_actions "frame action")
  presence ← Reader.u8
  lift (
      require (presence / 2 == 0) invalid_payload
        (say "FluidLink v2 frame presence mask is invalid."))
  lift (no_target_at_end action (not (presence == 0)))
  frame ← Reader.u64
  target ← read_optional (has_bit presence 1) read_time
  pure (record { action = action; frame = frame; target = target })

pub record Registration (A : Type 0) : Type 0 where
  pub kind : ResourceKind
  pub memory : MemoryLayer
  pub lifetime : Lifetime
  pub size : A
  pub aliases : List Text

-- A resource event: a release has no registration fields.
pub data ResourceEvent (A : Type 0) : Type 0 where
  registered : Text → Registration A → ResourceEvent A
  released : Text → ResourceEvent A

abbrev pub max_aliases : ℕ
max_aliases = 32

unfoldable pub write_aliases : List Text → Result Bytes
write_aliases texts = Errors.◌>>=◌ (text_list texts max_aliases "aliases") write_texts

-- `_encode_resource_event`
unfoldable pub encode_resource : ResourceEvent Amount → Result Bytes
encode_resource (registered id r) = Writer.finish (
    Writer.u8 (enum_value resource_actions register)
    ⊕ write_identifier id
    ⊕ Writer.u8 (enum_value resource_kinds r.kind)
    ⊕ Writer.u8 (enum_value memory_layers r.memory)
    ⊕ Writer.u8 (enum_value lifetimes r.lifetime)
    ⊕ write_memory "size_bytes" "size_mb" r.size
    ⊕ write_aliases r.aliases)
encode_resource (released id) =
    Writer.finish (Writer.u8 (enum_value resource_actions release) ⊕ write_identifier id)

unfoldable pub read_resource_of : ResourceAction → Text → Reader (ResourceEvent Measured)
read_resource_of release id = pure (released id)
read_resource_of register id = do
  kind ← read_enum resource_kinds
  memory ← read_enum memory_layers
  lifetime ← read_enum lifetimes
  size ← Reader.u64
  aliases ← read_texts max_aliases "alias"
  pure (
      registered id (record {
        kind = kind;
        memory = memory;
        lifetime = lifetime;
        size = mebibytes size;
        aliases = aliases;
      }))

-- `_decode_resource_event`
unfoldable pub read_resource : Reader (ResourceEvent Measured)
unfolding read_resource_of
read_resource = do
  action ← read_enum resource_actions
  id ← read_identifier
  read_resource_of action id

pub data Event (A : Type 0) : Type 0 where
  session : SessionEvent A → Event A
  frame : FrameEvent A → Event A
  resource : ResourceEvent A → Event A
  operation : Text → OperationEvent A → Event A
  state : StateAction → Event A

-- `FluidLinkEventOpcode`
abbrev pub event_opcode : {A : Type 0} → Event A → ℕ
event_opcode (session s) = 100
event_opcode (frame f) = 101
event_opcode (resource r) = 102
event_opcode (operation id o) = 103
event_opcode (state a) = 104

-- `encode_runtime_event_payload`, on a payload that has the event's own fields
unfoldable pub encode_event : Event Amount → Result Bytes
encode_event (session s) = encode_session s
encode_event (frame f) = encode_frame f
encode_event (resource r) = encode_resource r
encode_event (operation id o) = encode_operation id o
encode_event (state a) = Writer.finish (Writer.u8 (enum_value state_actions a))

abbrev pub map_reader : {A B : Type 0} → (A → B) → Reader A → Reader B
map_reader g r = do a ← r; pure (g a)

-- The decoder for an event opcode, if there is one.
unfoldable pub event_reader : ℕ → Option (Reader (Event Measured))
event_reader opcode =
    if opcode == 100
    then some (map_reader session read_session)
    else if opcode == 101
    then some (map_reader frame read_frame)
    else if opcode == 102
    then some (map_reader resource read_resource)
    else if opcode == 103
    then some (map_reader (λ (id, o). operation id o) read_operation)
    else if opcode == 104
    then some (map_reader state (read_enum state_actions))
    else none

-- `decode_runtime_event_payload`
unfoldable pub decode_event : ℕ → Bytes → Result (Event Measured)
decode_event opcode payload = elim (event_reader opcode) [
  | none ↦
      raise unsupported_event_opcode
        (say "Unsupported FluidLink event opcode " ++ (show opcode ++ say "."))
  | some r ↦ Reader.finish r payload
]
