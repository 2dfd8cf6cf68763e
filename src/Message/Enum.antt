-- ===== src/Message/Enum.antt =====
-- The tables of names and wire numbers of fluidgateway/fluidlink_v2.py. A name of a table is a
-- constructor, as `_enum_value` finds it after `strip().lower()`.
use fluid_gateway.Common.{ℕ, ◌≡◌, refl, List, [], ◌∷◌, ◌++◌, String, ◌==◌, if◌then◌else◌}
use fluid_gateway.Wire.Errors.{Result, ok, invalid_payload, raise, say, show}
use fluid_gateway.Wire.Writer
use fluid_gateway.Wire.Reader
use fluid_gateway.Wire.Reader.{Reader, lift, ◌>>=◌}
use fluid_gateway.Wire.Codec.{Encodes, Encodes-map, Encodes-u8}

-- A table: the number of each name, and the names in the order of the dict.
pub record Table (K : Type 0) : Type 0 where
  pub number : K → ℕ
  pub names : List K
  pub label : String

module _ {K : Type 0} where
  find_name : (K → ℕ) → String → ℕ → List K → Result K
  find_name number label value [] = raise invalid_payload (
      say "Unsupported FluidLink v2 " ++ (say label ++ (say " opcode " ++ (show value ++ say "."))))
  find_name number label value (k ∷ ks) =
      if value == number k then ok k else find_name number label value ks

  -- `_enum_name`
  unfoldable pub enum_name : Table K → ℕ → Result K
  unfolding find_name
  enum_name table value = find_name table.number table.label value table.names

  -- `_enum_value` on a name of the table
  abbrev pub enum_value : Table K → K → ℕ
  enum_value table k = table.number k

  unfoldable pub read_enum : Table K → Reader K
  read_enum table = do value ← Reader.u8; lift (enum_name table value)

  -- Every name of the table is found under its number.
  abbrev pub IsComplete : Table K → Type 0
  IsComplete table = (k : K) → enum_name table (table.number k) ≡ ok k

  pub Encodes-enum :
      (table : Table K) (k : K)
      → IsComplete table
      → Encodes (Writer.u8 (enum_value table k)) (read_enum table) k
  unfolding read_enum
  Encodes-enum table k known = Encodes-map _ (Encodes-u8 (table.number k)) (λ bs. rw (known k) refl)

pub data Lifecycle : Type 0 where
  begin end : Lifecycle

-- `LIFECYCLE_ACTIONS`
abbrev lifecycle_number : Lifecycle → ℕ
lifecycle_number begin = 1
lifecycle_number end = 2

abbrev pub lifecycle_actions : String → Table Lifecycle
lifecycle_actions label = record {
  number = lifecycle_number;
  names = begin ∷ end ∷ [];
  label = label;
}

pub lifecycle-IsComplete : (label : String) → IsComplete (lifecycle_actions label)
unfolding enum_name
lifecycle-IsComplete label begin = refl
lifecycle-IsComplete label end = refl

pub data ResourceAction : Type 0 where
  register release : ResourceAction

-- `RESOURCE_ACTIONS`
abbrev resource_action_number : ResourceAction → ℕ
resource_action_number register = 1
resource_action_number release = 2

abbrev pub resource_actions : Table ResourceAction
resource_actions = record {
  number = resource_action_number;
  names = register ∷ release ∷ [];
  label = "resource action";
}

pub resource_actions-IsComplete : IsComplete resource_actions
unfolding enum_name
resource_actions-IsComplete register = refl
resource_actions-IsComplete release = refl

pub data StateAction : Type 0 where
  snapshot : StateAction

-- `STATE_ACTIONS`
abbrev pub state_actions : Table StateAction
state_actions = record { number = λ _. 1; names = snapshot ∷ []; label = "state action" }

pub state_actions-IsComplete : IsComplete state_actions
unfolding enum_name
state_actions-IsComplete snapshot = refl

pub data ResourceKind : Type 0 where
  unknown buffer texture framebuffer command : ResourceKind

-- `RESOURCE_KINDS`
abbrev resource_kind_number : ResourceKind → ℕ
resource_kind_number unknown = 0
resource_kind_number buffer = 1
resource_kind_number texture = 2
resource_kind_number framebuffer = 3
resource_kind_number command = 4

abbrev pub resource_kinds : Table ResourceKind
resource_kinds = record {
  number = resource_kind_number;
  names = unknown ∷ buffer ∷ texture ∷ framebuffer ∷ command ∷ [];
  label = "resource kind";
}

pub resource_kinds-IsComplete : IsComplete resource_kinds
unfolding enum_name
resource_kinds-IsComplete unknown = refl
resource_kinds-IsComplete _ = refl

pub data MemoryLayer : Type 0 where
  ram vram shared staging swapchain display : MemoryLayer

-- `MEMORY_LAYERS`
abbrev memory_layer_number : MemoryLayer → ℕ
memory_layer_number ram = 1
memory_layer_number vram = 2
memory_layer_number shared = 3
memory_layer_number staging = 4
memory_layer_number swapchain = 5
memory_layer_number display = 6

abbrev pub memory_layers : Table MemoryLayer
memory_layers = record {
  number = memory_layer_number;
  names = ram ∷ vram ∷ shared ∷ staging ∷ swapchain ∷ display ∷ [];
  label = "memory layer";
}

pub memory_layers-IsComplete : IsComplete memory_layers
unfolding enum_name
memory_layers-IsComplete ram = refl
memory_layers-IsComplete _ = refl

pub data Lifetime : Type 0 where
  unknown asset frame transient session : Lifetime

-- `LIFETIMES`
abbrev lifetime_number : Lifetime → ℕ
lifetime_number Lifetime.unknown = 0
lifetime_number asset = 1
lifetime_number frame = 2
lifetime_number transient = 3
lifetime_number session = 4

abbrev pub lifetimes : Table Lifetime
lifetimes = record {
  number = lifetime_number;
  names = Lifetime.unknown ∷ asset ∷ frame ∷ transient ∷ session ∷ [];
  label = "lifetime";
}

pub lifetimes-IsComplete : IsComplete lifetimes
unfolding enum_name
lifetimes-IsComplete Lifetime.unknown = refl
lifetimes-IsComplete _ = refl

pub data OperationType : Type 0 where
  copy sync allocate upload present compute draw : OperationType

-- `OPERATION_TYPES`
abbrev operation_type_number : OperationType → ℕ
operation_type_number copy = 1
operation_type_number sync = 2
operation_type_number allocate = 3
operation_type_number upload = 4
operation_type_number present = 5
operation_type_number compute = 6
operation_type_number draw = 7

abbrev pub operation_types : Table OperationType
operation_types = record {
  number = operation_type_number;
  names = copy ∷ sync ∷ allocate ∷ upload ∷ present ∷ compute ∷ draw ∷ [];
  label = "operation type";
}

pub operation_types-IsComplete : IsComplete operation_types
unfolding enum_name
operation_types-IsComplete copy = refl
operation_types-IsComplete _ = refl

pub data Queue : Type 0 where
  unknown cpu copy graphics compute present : Queue

-- `QUEUES`
abbrev queue_number : Queue → ℕ
queue_number Queue.unknown = 0
queue_number cpu = 1
queue_number Queue.copy = 2
queue_number graphics = 3
queue_number Queue.compute = 4
queue_number Queue.present = 5

abbrev pub queues : Table Queue
queues = record {
  number = queue_number;
  names = Queue.unknown ∷ cpu ∷ Queue.copy ∷ graphics ∷ Queue.compute ∷ Queue.present ∷ [];
  label = "queue";
}

pub queues-IsComplete : IsComplete queues
unfolding enum_name
queues-IsComplete Queue.unknown = refl
queues-IsComplete _ = refl
