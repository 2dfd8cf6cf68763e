-- ===== src/Runtime/Data.antt =====
-- The records of fluidgateway/runtime.py, and the dicts that its decisions read.
use fluid_gateway.Common.{
  ℤ, same_integer, same_integer-eq, ◌≡◌, refl, ap, ap₂, Bool, true, false, ◌&&◌, Option, none, some,
  List, [], ◌∷◌, any, ◌==◌, if◌then◌else◌, arith,
}
use fluid_gateway.Wire.Errors.{Text}
use fluid_gateway.Message.Enum.{OperationType}

-- What the code does with a cost in milliseconds or a size in mebibytes: `==`, and `<= 0`.
pub record Quantity (N : Type 0) : Type 0 where
  pub same : N → N → Bool
  pub is_nothing : N → Bool
  pub nothing : N

-- `RuntimeResource`; `kind` and `memory` are normalised names
pub record Resource (N : Type 0) : Type 0 where
  pub id : Text
  pub kind : Text
  pub memory : Text
  pub size_mb : N
  pub lifetime : Text
  pub aliases : List Text

-- `RuntimeOperation`
pub record Operation (N : Type 0) : Type 0 where
  pub id : Text
  pub type : OperationType
  pub source : Option Text
  pub target : Option Text
  pub queue : Text
  pub reason : Text
  pub cost_ms : N
  pub size_mb : N
  pub frame : Option ℤ
  pub depends_on : List Text

-- The policies, in the order in which `decide_operation` tries them.
pub data Policy : Type 0 where
  eliminate_self_copy collapse_aliased_resource_copy deduplicate_identical_transfer : Policy
  remove_orphan_sync remove_empty_sync reuse_transient_buffer : Policy

pub data Action : Type 0 where
  remove reuse : Action

-- `RuntimeDecision`, without its rationale, which its policy determines
pub record Decision (N : Type 0) : Type 0 where
  pub operation_id : Text
  pub action : Action
  pub policy : Policy
  pub estimated_saved_ms : N
  pub estimated_saved_mb : N

abbrev pub same_text : Text → Text → Bool
same_text [] [] = true
same_text (a ∷ as') (b ∷ bs) = a == b && same_text as' bs
same_text _ _ = false

abbrev pub same_name : Option Text → Option Text → Bool
same_name none none = true
same_name (some a) (some b) = same_text a b
same_name _ _ = false

abbrev pub same_frame : Option ℤ → Option ℤ → Bool
same_frame none none = true
same_frame (some a) (some b) = same_integer a b
same_frame _ _ = false

abbrev pub is_member : Text → List Text → Bool
is_member t = any (same_text t)

-- A dict: its keys with their values, in the order of insertion.
module _ {K V : Type 0} where
  unfoldable pub lookup : (K → Bool) → List (K × V) → Option V
  lookup test [] = none
  lookup test ((k, v) ∷ rest) = if test k then some v else lookup test rest

pub same_text-eq : (a b : Text) → same_text a b ≡ true → a ≡ b
same_text-eq [] [] h = refl
same_text-eq [] (b ∷ bs) h = cc
same_text-eq (a ∷ as') [] h = cc
same_text-eq (a ∷ as') (b ∷ bs) h = ap₂ ◌∷◌ (ground arith) (same_text-eq as' bs (ground arith))

pub same_name-eq : (a b : Option Text) → same_name a b ≡ true → a ≡ b
same_name-eq none none h = refl
same_name-eq none (some b) h = cc
same_name-eq (some a) none h = cc
same_name-eq (some a) (some b) h = ap some (same_text-eq a b h)

pub same_frame-eq : (a b : Option ℤ) → same_frame a b ≡ true → a ≡ b
same_frame-eq none none h = refl
same_frame-eq none (some b) h = cc
same_frame-eq (some a) none h = cc
same_frame-eq (some a) (some b) h = ap some (same_integer-eq a b h)
