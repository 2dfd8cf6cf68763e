-- ===== src/Message/MaskLaws.antt =====
-- Laws of the capability masks, which are bytes: checked by evaluation at every pair of bytes.
use Prim.Native.Nat.{bit_and, bit_or}
use fluid_gateway.Common.{
  ℕ, zero, suc, ◌<◌, ◌≡◌, refl, ◌⊎◌, inl, inr, Bool, true, false, not, ◌||◌, ◌==◌, ==→eq, arith,
}
use fluid_gateway.Message.Capability.{and_not, capabilities, supported_capabilities}

-- A test that holds at every number below a bound, and at every pair of them.
all_below : ℕ → (ℕ → Bool) → Bool
all_below zero test = true
all_below (suc bound) test = elim (test bound) [ true ↦ all_below bound test | false ↦ false ]

all_below_sound :
    (bound : ℕ) (test : ℕ → Bool) (value : ℕ)
    → value < bound
    → all_below bound test ≡ true
    → test value ≡ true
unfolding all_below
all_below_sound zero test value small passed = absurd (omega arith)
all_below_sound (suc bound) test value small passed =
    ground (arith, all_below_sound bound test value)

pairs_sound :
    (p : ℕ → ℕ → Bool) (a b : ℕ)
    → all_below 256 (λ x. all_below 256 (p x)) ≡ true
    → a < 256
    → b < 256
    → p a b ≡ true
pairs_sound p a b h la lb =
    all_below_sound 256 (p a) b lb (all_below_sound 256 (λ x. all_below 256 (p x)) a la h)

-- What a server accepts is available to it.
abbrev accepted_test : ℕ → ℕ → ℕ → Bool
accepted_test available a b = and_not (bit_and (bit_or a b) available) available == 0

accepted_table : all_below 256 (λ a. all_below 256 (accepted_test 0x7F a)) ≡ true
unfolding all_below and_not
accepted_table = refl

accepted_batch_table : all_below 256 (λ a. all_below 256 (accepted_test 0xFF a)) ≡ true
unfolding all_below and_not
accepted_batch_table = refl

-- What is required and available is accepted.
abbrev required_test : ℕ → ℕ → ℕ → Bool
required_test available a b =
    not (and_not b available == 0) || and_not b (bit_and (bit_or a b) available) == 0

required_table : all_below 256 (λ a. all_below 256 (required_test 0x7F a)) ≡ true
unfolding all_below and_not
required_table = refl

required_batch_table : all_below 256 (λ a. all_below 256 (required_test 0xFF a)) ≡ true
unfolding all_below and_not
required_batch_table = refl

-- The masks that a server offers.
abbrev pub IsOffer : ℕ → Type 0
IsOffer available = (available ≡ capabilities) ⊎ (available ≡ supported_capabilities)

-- For either offer and any two bytes of requested and required capabilities, what the server
-- accepts of them is available.
pub accepted_available :
    (available a b : ℕ)
    → IsOffer available
    → a < 256
    → b < 256
    → and_not (bit_and (bit_or a b) available) available ≡ 0
accepted_available available a b (inl e) la lb =
    rw e (==→eq _ 0 (pairs_sound (accepted_test 0x7F) a b accepted_table la lb))
accepted_available available a b (inr e) la lb =
    rw e (==→eq _ 0 (pairs_sound (accepted_test 0xFF) a b accepted_batch_table la lb))

-- For either offer, where all the required capabilities are available, they are all accepted.
pub required_accepted :
    (available a b : ℕ)
    → IsOffer available
    → a < 256
    → b < 256
    → and_not b available ≡ 0
    → and_not b (bit_and (bit_or a b) available) ≡ 0
required_accepted available a b (inl e) la lb h =
    let t = pairs_sound (required_test 0x7F) a b required_table la lb in rw e (ground arith)
required_accepted available a b (inr e) la lb h =
    let t = pairs_sound (required_test 0xFF) a b required_batch_table la lb in rw e (ground arith)
