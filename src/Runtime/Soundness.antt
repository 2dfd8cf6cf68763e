-- ===== src/Runtime/Soundness.antt =====
-- When an operation may go, said without the code of `decide_operation`
-- (fluidgateway/runtime.py).
use fluid_gateway.Common.{
  ◌≡◌, ◌≢◌, refl, subst, Bool-cases, ◌⊎◌, inl, inr, true, not, ◌&&◌, Option, none, some, List, [],
  all, length, ◌==◌, arith,
}
use fluid_gateway.Wire.Errors.{Text}
use fluid_gateway.Message.Enum.{OperationType, copy, sync, allocate, upload, present, compute, draw}
use fluid_gateway.Runtime.Data.{
  Quantity, Resource, Operation, Policy, eliminate_self_copy, collapse_aliased_resource_copy,
  deduplicate_identical_transfer, remove_orphan_sync, remove_empty_sync, reuse_transient_buffer,
  Action, remove, reuse, Decision, same_text, same_name, same_frame, is_member, same_text-eq,
  same_name-eq, same_frame-eq,
}
use fluid_gateway.Runtime.Decide.{
  is_transient_reason, repeats, decision, shares, find_resource, last_copy, active_buffer,
  decide_duplicate, decide_transfer, decide_sync, decide_allocate, decide_as, decide_operation,
}

abbrev pub IsTransfer : OperationType → Type 0
IsTransfer type = (type ≡ copy) ⊎ (type ≡ upload)

module _ {N : Type 0} (q : Quantity N) (lower : Text → Text) (resources : List (Text × Resource N))
    (copies : List (Text × Operation N)) (buffers : List ((Option Text × N) × Operation N))
    (removed_ids : List Text) where
  -- What a transfer moves from and to.
  pub record Moves (o : Operation N) : Type 0 where
    pub transfer : IsTransfer o.type
    pub source : Resource N
    pub target : Resource N
    pub source_found : find_resource q resources o.source ≡ some source
    pub target_found : find_resource q resources o.target ≡ some target

  -- The reasons that a policy has.
  abbrev pub Justifies : Policy → Operation N → Type 0
  Justifies eliminate_self_copy o = Moves o × (o.source ≡ o.target)
  Justifies collapse_aliased_resource_copy o =
      (m : Moves o) × (m.target.memory ≡ m.source.memory)
      × (shares m.target.aliases m.source.aliases ≡ true)
  Justifies deduplicate_identical_transfer o =
      Moves o
      × ((previous : Operation N) × (last_copy q copies o.target ≡ some previous)
          × (previous.source ≡ o.source)
          × (q.same previous.size_mb o.size_mb ≡ true)
          × (previous.frame ≡ o.frame)
          × (previous.queue ≡ o.queue))
  Justifies remove_orphan_sync o =
      (o.type ≡ sync)
      × (o.depends_on ≢ [])
      × (all (λ dep. is_member dep removed_ids) o.depends_on ≡ true)
  Justifies remove_empty_sync o =
      (o.type ≡ sync) × (q.is_nothing o.cost_ms ≡ true) × (o.depends_on ≡ [])
  Justifies reuse_transient_buffer o =
      (o.type ≡ allocate)
      × ((previous : Operation N) × (active_buffer q buffers o.target o.size_mb ≡ some previous)
          × (previous.frame ≡ o.frame)
          × (is_transient_reason lower o.reason ≡ true))

  -- A decision on an operation that has a reason.
  pub record Sound (o : Operation N) (d : Decision N) : Type 0 where
    pub about : d.operation_id ≡ o.id
    pub reason : Justifies d.policy o

  -- A result, each decision of which is sound.
  record AllSound (o : Operation N) (r : Option (Decision N)) : Type 0 where
    each : (d : Decision N) → r ≡ some d → Sound o d

  decided :
      (o : Operation N) (action : Action) (policy : Policy) (ms mb : N)
      → Justifies policy o
      → AllSound o (some (decision q o action policy ms mb))
  decided o action policy ms mb reason = record {
    each = λ d e.
        let same : decision q o action policy ms mb ≡ d = ground arith in
        let sound : Sound o (decision q o action policy ms mb) = record {
          about = refl;
          reason = reason;
        } in
        subst (Sound o) same sound;
  }

  none-AllSound : (o : Operation N) → AllSound o none
  none-AllSound o = record { each = λ d e. cc }

  duplicate_sound :
      (o : Operation N) (previous : Option (Operation N))
      → Moves o
      → last_copy q copies o.target ≡ previous
      → AllSound o (decide_duplicate q o previous)
  unfolding decide_duplicate
  duplicate_sound o none m e = none-AllSound o
  duplicate_sound o (some previous) m e = elim (Bool-cases (repeats q previous o)) [
    | inr no_repeat ↦ rw no_repeat (none-AllSound o)
    | inl repeat ↦ rw repeat (
        decided o remove deduplicate_identical_transfer _ _ (
          m,
          (
            previous,
            e,
            same_name-eq previous.source o.source (ground arith),
            ground arith,
            same_frame-eq previous.frame o.frame (ground arith),
            same_text-eq previous.queue o.queue (ground arith),
          ),
        ))
  ]

  transfer_sound :
      (o : Operation N) (source target : Option (Resource N)) (previous : Option (Operation N))
      → IsTransfer o.type
      → find_resource q resources o.source ≡ source
      → find_resource q resources o.target ≡ target
      → last_copy q copies o.target ≡ previous
      → AllSound o (decide_transfer q o source target previous)
  unfolding decide_transfer
  transfer_sound o none target previous t es et ep = none-AllSound o
  transfer_sound o (some s) none previous t es et ep = none-AllSound o
  transfer_sound o (some s) (some s') previous t es et ep =
      let m : Moves o = record {
        transfer = t;
        source = s;
        target = s';
        source_found = es;
        target_found = et;
      } in
      elim (Bool-cases (same_name o.source o.target)) [
        | inl self ↦
            rw self
              (decided o remove eliminate_self_copy _ _ (m, same_name-eq o.source o.target self))
        | inr other ↦
            elim (Bool-cases (same_text s'.memory s.memory && shares s'.aliases s.aliases)) [
              | inl aliased ↦
                  rw (other, aliased)
                    (decided o remove collapse_aliased_resource_copy _ _
                      (m, same_text-eq s'.memory s.memory (ground arith), ground arith))
              | inr apart ↦ rw (other, apart) (duplicate_sound o previous m ep)
            ]
      ]

  sync_sound : (o : Operation N) → o.type ≡ sync → AllSound o (decide_sync q o removed_ids)
  unfolding decide_sync
  sync_sound o t =
      let waits = all (λ dep. is_member dep removed_ids) o.depends_on in
      elim (Bool-cases (not (length o.depends_on == 0) && waits)) [
        | inl orphan ↦ rw orphan (
            decided o remove remove_orphan_sync _ _ (t, (λ e. absurd (ground arith)), ground arith))
        | inr kept ↦ elim (Bool-cases (q.is_nothing o.cost_ms && length o.depends_on == 0)) [
          | inl idle ↦
              rw (kept, idle)
                (decided o remove remove_empty_sync _ _ (t, ground arith, ground arith))
          | inr busy ↦ rw (kept, busy) (none-AllSound o)
        ]
      ]

  allocate_sound :
      (o : Operation N) (previous : Option (Operation N))
      → o.type ≡ allocate
      → active_buffer q buffers o.target o.size_mb ≡ previous
      → AllSound o (decide_allocate q lower o previous)
  unfolding decide_allocate
  allocate_sound o none t e = none-AllSound o
  allocate_sound o (some previous) t e =
      elim (Bool-cases (same_frame previous.frame o.frame && is_transient_reason lower o.reason)) [
        | inr needed ↦ rw needed (none-AllSound o)
        | inl reused ↦ rw reused (
            decided o reuse reuse_transient_buffer _ _
              (t, (previous, e, same_frame-eq previous.frame o.frame (ground arith), ground arith)))
      ]

  decide_AllSound :
      (o : Operation N) (t : OperationType)
      → o.type ≡ t
      → AllSound o (decide_as q t lower o resources copies buffers removed_ids)
  unfolding decide_as
  decide_AllSound o copy e = transfer_sound o _ _ _ (inl e) refl refl refl
  decide_AllSound o upload e = transfer_sound o _ _ _ (inr e) refl refl refl
  decide_AllSound o sync e = sync_sound o e
  decide_AllSound o allocate e = allocate_sound o _ e refl
  decide_AllSound o present e = none-AllSound o
  decide_AllSound o compute e = none-AllSound o
  decide_AllSound o draw e = none-AllSound o

  -- Whatever decide_operation decides is about the operation it is given and its policy has its
  -- reason: a removed transfer has known resources and is a self copy, a copy between aliases in
  -- one memory, or a repetition of the last copy to its target; a removed sync waits for removed
  -- operations alone, or has no cost and waits for none; a reused allocation has an active buffer
  -- of its target, size and frame, and a transient reason.
  pub decide_operation-Sound :
      (o : Operation N) (d : Decision N)
      → decide_operation q lower o resources copies buffers removed_ids ≡ some d
      → Sound o d
  unfolding decide_operation
  decide_operation-Sound o d e = (decide_AllSound o o.type refl).each d e
