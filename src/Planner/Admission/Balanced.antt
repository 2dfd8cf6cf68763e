-- ===== src/Planner/Admission/Balanced.antt =====
-- What the decisions and the counts of an admission plan (fluidgateway/admission.py) have in common.
use fluid_gateway.Common.{
  ℕ, ℤ, suc, ◌+◌, ◌≡◌, ◌∙◌, refl, ap, subst, Bool, true, false, Option, Option-cases, inl, inr,
  List, [], ◌∷◌, length, All, if_both, if◌then◌else◌, arith,
}
use fluid_gateway.Wire.Errors.{ok, say, ◌>>=◌, >>=-eq-ok}
use fluid_gateway.Json.{Value, Values, Fields, nil, item, get}
use fluid_gateway.Runtime.Data.{same_text}
use fluid_gateway.Runtime.Parsing.{Python, text_or, frame_of_value}
use fluid_gateway.Planner.Admission.{
  AdmissionAction, Contribution, AdmissionDecision, AdmissionPlan, same_action, count,
  dict_or_empty, number_of, decide_admission, build_admission_decision, operation_result, slots_of,
  build_admission_plan, plan_of_slots,
}

-- What an action says of the rest of a decision: the contribution it counts for, and whether the
-- operation is admitted.
abbrev pub contribution_of : AdmissionAction → Contribution
contribution_of AdmissionAction.admit_now = Contribution.hot_path
contribution_of AdmissionAction.admit_prefetch = Contribution.prestaged
contribution_of AdmissionAction.reject_redundant = Contribution.avoided
contribution_of AdmissionAction.reuse_existing = Contribution.reused
contribution_of AdmissionAction.hold_next_frame = Contribution.held

abbrev pub is_admitted : AdmissionAction → Bool
is_admitted AdmissionAction.admit_now = true
is_admitted AdmissionAction.admit_prefetch = true
is_admitted _ = false

unfoldable pub admitted_count : {F : Type 0} → List (AdmissionDecision F) → ℕ
admitted_count [] = 0
admitted_count (slot ∷ slots) =
    let rest = admitted_count slots in if slot.admitted then rest + 1 else rest

-- What one slot more adds to the counts.
counted_one :
    (a : AdmissionAction) (now prefetch deferred reused held : ℕ)
    → (if same_action a AdmissionAction.admit_now then now + 1 else now)
        + (if same_action a AdmissionAction.admit_prefetch then prefetch + 1 else prefetch)
        + (if same_action a AdmissionAction.reject_redundant then deferred + 1 else deferred)
        + (if same_action a AdmissionAction.reuse_existing then reused + 1 else reused)
        + (if same_action a AdmissionAction.hold_next_frame then held + 1 else held)
      ≡ suc (now + prefetch + deferred + reused + held)
unfolding same_action
counted_one AdmissionAction.admit_now a b c d e = omega arith
counted_one AdmissionAction.admit_prefetch a b c d e = omega arith
counted_one AdmissionAction.reject_redundant a b c d e = omega arith
counted_one AdmissionAction.reuse_existing a b c d e = omega arith
counted_one AdmissionAction.hold_next_frame a b c d e = omega arith

admitted_one :
    (a : AdmissionAction) (now prefetch : ℕ)
    → (if is_admitted a then now + prefetch + 1 else now + prefetch)
      ≡ (if same_action a AdmissionAction.admit_now then now + 1 else now)
        + (if same_action a AdmissionAction.admit_prefetch then prefetch + 1 else prefetch)
unfolding same_action
admitted_one AdmissionAction.admit_now a b = omega arith
admitted_one AdmissionAction.admit_prefetch a b = omega arith
admitted_one AdmissionAction.reject_redundant a b = omega arith
admitted_one AdmissionAction.reuse_existing a b = omega arith
admitted_one AdmissionAction.hold_next_frame a b = omega arith

module _ {F : Type 0} where
  pub record IsCoherent (d : AdmissionDecision F) : Type 0 where
    pub contribution : d.contribution ≡ contribution_of d.action
    pub admitted : d.admitted ≡ is_admitted d.action

  counted_all :
      (slots : List (AdmissionDecision F))
      → count AdmissionAction.admit_now slots
          + count AdmissionAction.admit_prefetch slots
          + count AdmissionAction.reject_redundant slots
          + count AdmissionAction.reuse_existing slots
          + count AdmissionAction.hold_next_frame slots
        ≡ length slots
  unfolding count
  counted_all [] = omega arith
  counted_all (slot ∷ slots) = counted_one slot.action _ _ _ _ _ ∙ ap suc (counted_all slots)

  admitted_all :
      (slots : List (AdmissionDecision F))
      → All IsCoherent slots
      → admitted_count slots
        ≡ count AdmissionAction.admit_now slots + count AdmissionAction.admit_prefetch slots
  unfolding count admitted_count
  admitted_all [] h = omega arith
  admitted_all (slot ∷ slots) h =
      rw (h.0.admitted, admitted_all slots h.1) (admitted_one slot.action _ _)

  module _ (python : Python F) (overflows : Value F → Bool) where
    decide_admission-IsCoherent :
        (operation gate : Fields F) (frame : Option ℤ) (cost_ms size_mb : F)
        → IsCoherent (decide_admission python overflows operation gate frame cost_ms size_mb)
    unfolding decide_admission
    decide_admission-IsCoherent operation gate frame cost_ms size_mb =
        let gate_action = text_or python (say "execute_now") (get (say "action") gate) in
        if_both IsCoherent (same_text gate_action (say "prestage_before_draw")) _ _
          (record { contribution = refl; admitted = refl })
          (if_both IsCoherent (same_text gate_action (say "defer_redundant_work")) _ _
            (record { contribution = refl; admitted = refl })
            (if_both IsCoherent (same_text gate_action (say "reuse_existing_resource")) _ _
              (record { contribution = refl; admitted = refl })
              (if_both IsCoherent (same_text gate_action (say "hold_noncritical_work")) _ _
                (record { contribution = refl; admitted = refl })
                (record { contribution = refl; admitted = refl }))))

    build_admission_decision-IsCoherent :
        (result : Fields F) (slot : AdmissionDecision F)
        → build_admission_decision python overflows result ≡ ok slot
        → IsCoherent slot
    unfolding build_admission_decision
    build_admission_decision-IsCoherent result slot e =
        let (operation, e₁, h₁) = >>=-eq-ok (dict_or_empty python overflows _) _ e in
        let (gate, e₂, h₂) = >>=-eq-ok (dict_or_empty python overflows _) _ h₁ in
        let (cost_ms, e₃, h₃) = >>=-eq-ok (number_of python overflows _) _ h₂ in
        let (size_mb, e₄, h₄) = >>=-eq-ok (number_of python overflows _) _ h₃ in
        let (frame, e₅, h₅) = >>=-eq-ok (frame_of_value python _) _ h₄ in
        let made : decide_admission python overflows operation gate frame cost_ms size_mb ≡ slot =
          ground arith in
        subst IsCoherent made (decide_admission-IsCoherent operation gate frame cost_ms size_mb)

    slots_of-IsCoherent :
        (values : Values F) (slots : List (AdmissionDecision F))
        → slots_of python overflows values ≡ ok slots
        → All IsCoherent slots
    unfolding slots_of build_admission_decision
    slots_of-IsCoherent nil slots e =
        let same : [] ≡ slots = ground arith in subst (All IsCoherent) same tt
    slots_of-IsCoherent (item value values) slots e =
        elim (Option-cases (operation_result python overflows value)) [
          | inl none_there ↦ slots_of-IsCoherent values slots (rw (slots_of, none_there) at e)
          | inr (result, there) ↦
              let e' : (build_admission_decision python overflows result >>= _) ≡ ok slots =
                rw (slots_of, there) at e in
              let (slot, e₁, h₁) =
                >>=-eq-ok (build_admission_decision python overflows result) _ e' in
              let (rest, e₂, h₂) = >>=-eq-ok (slots_of python overflows values) _ h₁ in
              let whole : slot ∷ rest ≡ slots = ground arith in
              subst (All IsCoherent) whole (
                build_admission_decision-IsCoherent result slot e₁,
                slots_of-IsCoherent values rest e₂,
              )
        ]

    -- What an admission plan adds up to.
    pub record IsBalanced (plan : AdmissionPlan F) : Type 0 where
      pub coherent : All IsCoherent plan.slots
      pub counted :
          plan.immediate_count + plan.prefetch_count + plan.deferred_count + plan.reused_count
            + plan.held_count
          ≡ plan.operation_count
      pub admitted : admitted_count plan.slots ≡ plan.immediate_count + plan.prefetch_count

    -- Where build_admission_plan returns a plan, its five counts add up to the number of its
    -- slots, the admitted slots are those of the immediate and the prefetch count, and each slot
    -- counts for the contribution that goes with its action and is admitted exactly where its
    -- action admits.
    pub build_admission_plan-IsBalanced :
        (add : F → F → F) (results : Values F) (plan : AdmissionPlan F)
        → build_admission_plan python overflows add results ≡ ok plan
        → IsBalanced plan
    unfolding build_admission_plan
    build_admission_plan-IsBalanced add results plan e =
        let (slots, e₁, h₁) = >>=-eq-ok (slots_of python overflows results) _ e in
        let coherent = slots_of-IsCoherent results slots e₁ in
        let made : plan_of_slots python overflows add slots ≡ plan = ground arith in
        subst IsBalanced made (record {
          coherent = coherent;
          counted = counted_all slots;
          admitted = admitted_all slots coherent;
        })
