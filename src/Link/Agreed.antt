-- ===== src/Link/Agreed.antt =====
-- What the sets of fluidgateway/fluidlink.py hold: the capabilities that the peers agree on.
use fluid_gateway.Common.{
  ◌≡◌, refl, ap, ◌∙◌, sym, Bool-cases, inl, inr, Bool, true, false, not, ◌&&◌, ◌||◌, List, [], ◌∷◌,
  ◌++◌, select, ◌==◌, arith,
}
use fluid_gateway.Wire.Errors.{Text}
use fluid_gateway.Runtime.Data.{same_text, same_text-eq, is_member}
use fluid_gateway.Runtime.Invalidation.Reached.{same_text_refl}
use fluid_gateway.Link.Names.{precedes, insert, set_of, link_capabilities, agreed, unsupported}

is_member-insert :
    (n t : Text) (us : List Text) → is_member n (insert t us) ≡ (same_text n t || is_member n us)
unfolding insert
is_member-insert n t [] = refl
is_member-insert n t (u ∷ us) = elim (Bool-cases (same_text t u)) [
  | inl e ↦ rw (e, same_text-eq t u e) (ground arith)
  | inr e ↦ elim (Bool-cases (precedes t u)) [
    | inl p ↦ rw (e, p) refl
    | inr p ↦ rw (e, p, is_member-insert n t us) (ground arith)
  ]
]

is_member-set_of : (n : Text) (names : List Text) → is_member n (set_of names) ≡ is_member n names
unfolding set_of
is_member-set_of n [] = refl
is_member-set_of n (t ∷ ts) =
    is_member-insert n t (set_of ts) ∙ ap (λ b. same_text n t || b) (is_member-set_of n ts)

-- Each text comes before the next.
abbrev ascends : Text → List Text → Bool
ascends t [] = true
ascends t (u ∷ us) = precedes t u

abbrev pub is_sorted : List Text → Bool
is_sorted [] = true
is_sorted (t ∷ ts) = ascends t ts && is_sorted ts

precedes_total : (t u : Text) → same_text t u ≡ false → precedes t u ≡ false → precedes u t ≡ true
precedes_total [] [] e p = cc
precedes_total [] (d ∷ ds) e p = cc
precedes_total (c ∷ cs) [] e p = refl
precedes_total (c ∷ cs) (d ∷ ds) e p = elim (Bool-cases (c == d)) [
  | inr other ↦ ground arith
  | inl same ↦ ground (arith, precedes_total cs ds (ground arith) (ground arith))
]

ascends-insert :
    (t u : Text) (us : List Text)
    → precedes u t ≡ true
    → ascends u us ≡ true
    → ascends u (insert t us) ≡ true
unfolding insert
ascends-insert t u [] p h = p
ascends-insert t u (v ∷ vs) p h = elim (Bool-cases (same_text t v)) [
  | inl e ↦ rw e h
  | inr e ↦ elim (Bool-cases (precedes t v)) [ inl q ↦ rw (e, q) p | inr q ↦ rw (e, q) h ]
]

is_sorted-insert :
    (t : Text) (us : List Text) → is_sorted us ≡ true → is_sorted (insert t us) ≡ true
unfolding insert
is_sorted-insert t [] h = refl
is_sorted-insert t (u ∷ us) h = elim (Bool-cases (same_text t u)) [
  | inl e ↦ rw e h
  | inr e ↦ elim (Bool-cases (precedes t u)) [
    | inl p ↦ rw (e, p) (ground arith)
    | inr p ↦
        rw
          (
            e,
            p,
            ascends-insert t u us (precedes_total t u e p) (ground arith),
            is_sorted-insert t us (ground arith),
          )
          refl
  ]
]

is_sorted-set_of : (names : List Text) → is_sorted (set_of names) ≡ true
unfolding set_of
is_sorted-set_of [] = refl
is_sorted-set_of (t ∷ ts) = is_sorted-insert t (set_of ts) (is_sorted-set_of ts)

pub set_of_lem :
    (names : List Text)
    → (is_sorted (set_of names) ≡ true)
      × ((n : Text) → is_member n (set_of names) ≡ is_member n names)
set_of_lem names = (is_sorted-set_of names, λ n. is_member-set_of n names)

is_member-append :
    (n : Text) (xs ys : List Text) → is_member n (xs ++ ys) ≡ (is_member n xs || is_member n ys)
is_member-append n [] ys = refl
is_member-append n (x ∷ xs) ys = ground (arith, is_member-append n xs ys)

is_member-select :
    (n : Text) (p : Text → Bool) (xs : List Text)
    → is_member n (select p xs) ≡ (p n && is_member n xs)
is_member-select n p [] = ground arith
is_member-select n p (x ∷ xs) = elim (Bool-cases (same_text n x)) [
  | inl e ↦
      let same = same_text-eq n x e in
      elim (Bool-cases (p x)) [
        | inl t ↦ rw (same, t, same_text_refl x) refl
        | inr f ↦ rw (same, f, is_member-select x p xs, f) refl
      ]
  | inr e ↦ elim (Bool-cases (p x)) [
    | inl t ↦ rw (t, e) (is_member-select n p xs)
    | inr f ↦ rw (f, e) (is_member-select n p xs)
  ]
]

-- A capability is accepted exactly where it is available and requested or required.
pub is_member-agreed :
    (n : Text) (requested required : List Text)
    → is_member n (agreed requested required)
      ≡ (is_member n link_capabilities && (is_member n requested || is_member n required))
unfolding agreed
is_member-agreed n requested required =
    is_member-set_of n _
    ∙ is_member-select n (λ name. is_member name link_capabilities) (requested ++ required)
    ∙ ap (λ b. is_member n link_capabilities && b) (is_member-append n requested required)

-- Where nothing required is missing, all that is required is available.
pub unsupported_none :
    (n : Text) (required : List Text)
    → unsupported required ≡ []
    → is_member n required ≡ true
    → is_member n link_capabilities ≡ true
unfolding unsupported
unsupported_none n required e h =
    let missing : (not (is_member n link_capabilities) && is_member n required) ≡ false =
      sym (is_member-select n (λ name. not (is_member name link_capabilities)) required)
      ∙ ap (is_member n) e in
    ground arith
