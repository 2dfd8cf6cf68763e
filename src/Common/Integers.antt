-- ===== src/Common/Integers.antt =====
-- Python's integers over native numbers.
use Prim.Native.Nat.{ℕ}
use mathlib.Core.Path.{◌≡◌, ap}
use mathlib.Core.Bool.{Bool, true, false}
use native.Mathlib.Omega.{arith}
use fluid_gateway.Common.Tests.{◌==◌}

pub data ℤ : Type 0 where
  pos negsuc : ℕ → ℤ

abbrev pub same_integer : ℤ → ℤ → Bool
same_integer (pos a) (pos b) = a == b
same_integer (negsuc a) (negsuc b) = a == b
same_integer _ _ = false

pub same_integer-eq : (a b : ℤ) → same_integer a b ≡ true → a ≡ b
same_integer-eq (pos a) (pos b) h = ap pos (ground arith)
same_integer-eq (pos a) (negsuc b) h = cc
same_integer-eq (negsuc a) (pos b) h = cc
same_integer-eq (negsuc a) (negsuc b) h = ap negsuc (ground arith)
