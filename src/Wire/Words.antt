-- ===== src/Wire/Words.antt =====
-- The little-endian words of Python's `struct` formats `<B`, `<H`, `<I` and `<Q`.
use native.Mathlib.Nat.{pow-suc}
use fluid_gateway.Common.{
  ℕ, zero, suc, ◌+◌, ◌*◌, ◌/◌, ◌%◌, ◌^◌, ◌<◌, ◌≡◌, refl, ap₂, [], ◌∷◌, length, All, arith,
}
use fluid_gateway.Wire.Errors.{Bytes}

abbrev pub IsByte : ℕ → Type 0
IsByte b = b < 256

abbrev pub IsBytes : Bytes → Type 0
IsBytes = All IsByte

-- The low `n` bytes of a number, the lowest first.
unfoldable pub pack_le : ℕ → ℕ → Bytes
pack_le zero v = []
pack_le (suc n) v = (v % 256) ∷ pack_le n (v / 256)

unfoldable pub unpack_le : Bytes → ℕ
unpack_le [] = 0
unpack_le (b ∷ bs) = b + 256 * unpack_le bs

pub length-pack_le : (n v : ℕ) → length (pack_le n v) ≡ n
unfolding pack_le
length-pack_le zero v = refl
length-pack_le (suc n) v = omega (arith, length-pack_le n (v / 256))

pub pack_le-IsBytes : (n v : ℕ) → IsBytes (pack_le n v)
unfolding pack_le
pack_le-IsBytes zero v = tt
pack_le-IsBytes (suc n) v = (omega arith, pack_le-IsBytes n (v / 256))

shift_bound : (n v : ℕ) → v < 256 ^ suc n → v / 256 < 256 ^ n
shift_bound n v h = let e : 256 ^ suc n ≡ 256 ^ n * 256 = pow-suc 256 n in omega arith

pub unpack_le-pack_le : (n v : ℕ) → v < 256 ^ n → unpack_le (pack_le n v) ≡ v
unfolding pack_le unpack_le
unpack_le-pack_le zero v h = omega arith
unpack_le-pack_le (suc n) v h = omega (arith, unpack_le-pack_le n (v / 256) (shift_bound n v h))

pub pack_le-unpack_le : (bs : Bytes) → IsBytes bs → pack_le (length bs) (unpack_le bs) ≡ bs
unfolding pack_le unpack_le
pack_le-unpack_le [] h = refl
pack_le-unpack_le (b ∷ bs) (lt, h) =
    let low : (b + 256 * unpack_le bs) % 256 ≡ b = omega arith in
    let high : (b + 256 * unpack_le bs) / 256 ≡ unpack_le bs = omega arith in
    rw (low, high) (ap₂ ◌∷◌ refl (pack_le-unpack_le bs h))

pub unpack_le-lt : (bs : Bytes) → IsBytes bs → unpack_le bs < 256 ^ length bs
unfolding unpack_le
unpack_le-lt [] h = omega arith
unpack_le-lt (b ∷ bs) (lt, h) =
    let e : 256 ^ suc (length bs) ≡ 256 ^ length bs * 256 = pow-suc 256 (length bs) in
    omega (arith, unpack_le-lt bs h)
