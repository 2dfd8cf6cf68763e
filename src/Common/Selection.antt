-- ===== src/Common/Selection.antt =====
-- Filters by a Boolean test, and what holds of every element of a list.
use mathlib.Core.Path.{◌≡◌, refl, subst, sym}
use mathlib.Core.Logic.{inl, inr}
use mathlib.Core.Bool.{Bool, true, false}
use mathlib.Core.List.{List, [], ◌∷◌, Memᴰ}
use fluid_gateway.Common.Tests.{Bool-cases, if◌then◌else◌}
use fluid_gateway.Common.Lists.{All}

module _ {ℓ} {A : Type ℓ} where
  -- [x for x in xs if p(x)]
  abbrev pub select : (A → Bool) → List A → List A
  select p [] = []
  select p (x ∷ xs) = let rest = select p xs in if p x then x ∷ rest else rest

module _ {ℓ κ} {A : Type ℓ} (P : A → Type κ) where
  pub All-Memᴰ : (xs : List A) → All P xs → (x : A) → Memᴰ x xs → P x
  All-Memᴰ [] h x m = elim m [ ]
  All-Memᴰ (y ∷ ys) h x (Memᴰ.head e) = subst P (sym e) h.0
  All-Memᴰ (y ∷ ys) h x (Memᴰ.tail m) = All-Memᴰ ys h.1 x m

  pub All_every : (xs : List A) → ((x : A) → Memᴰ x xs → P x) → All P xs
  All_every [] f = tt
  All_every (x ∷ xs) f = (f x (Memᴰ.head refl), All_every xs (λ y m. f y (Memᴰ.tail m)))

  pub All-select : (p : A → Bool) (xs : List A) → All P xs → All P (select p xs)
  All-select p [] h = tt
  All-select p (x ∷ xs) h = elim (Bool-cases (p x)) [
    | inl e ↦ rw e (h.0, All-select p xs h.1)
    | inr e ↦ rw e (All-select p xs h.1)
  ]

module _ {ℓ κ κ'} {A : Type ℓ} (P : A → Type κ) (Q : A → Type κ') where
  pub All-map : ((x : A) → P x → Q x) → (xs : List A) → All P xs → All Q xs
  All-map f [] h = tt
  All-map f (x ∷ xs) h = (f x h.0, All-map f xs h.1)

module _ {ℓ} {A : Type ℓ} where
  -- What is selected passes the test.
  pub select_passes : (p : A → Bool) (xs : List A) → All (λ x. p x ≡ true) (select p xs)
  select_passes p [] = tt
  select_passes p (x ∷ xs) = elim (Bool-cases (p x)) [
    | inl e ↦ rw e (e, select_passes p xs)
    | inr e ↦ rw e (select_passes p xs)
  ]

-- What holds of both branches holds of the branch that is taken.
module _ {ℓ κ} {A : Type ℓ} (P : A → Type κ) where
  pub if_both : (b : Bool) (x y : A) → P x → P y → P (if b then x else y)
  if_both true x y p q = p
  if_both false x y p q = q
