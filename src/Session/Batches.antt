-- ===== src/Session/Batches.antt =====
-- How `FluidLinkV2ServerSession` uses its event handler (fluidgateway/fluidlink_v2.py).
use Prim.Native.Nat.{bit_and}
use fluid_gateway.Common.{
  ℕ, zero, suc, ◌+◌, ◌≡◌, ap, inl, inr, true, false, ◌&&◌, List, ◌∷◌, length, ◌==◌, arith,
}
use fluid_gateway.Wire.Errors.{Text, Bytes, Result, ok, err, ◌>>=◌, >>=-eq-ok}
use fluid_gateway.Wire.Codec.{Result-cases}
use fluid_gateway.Frame.{Frame, is_some}
use fluid_gateway.Message.Amount.{Measured}
use fluid_gateway.Message.Batch.{BatchEvent}
use fluid_gateway.Message.Capability.{required_capabilities}
use fluid_gateway.Message.Compact.{compact_response}
use fluid_gateway.Message.Event.{operation}
use fluid_gateway.Message.Decision.{Compact}
use fluid_gateway.Message.Operation.{OperationEvent}
use fluid_gateway.Message.Vector.{encode_vector}
use fluid_gateway.Session.State.{Session, event_request_opcode}
use fluid_gateway.Session.Events.{Handler, batch_name, run_batch, decide_batch, handle_event}
use fluid_gateway.Session.Process.{dispatch, process_hello, process}

module _ {S : Type 0} (handler : Handler S) where
  length-run_batch :
      (n ordinal : ℕ) (batch_id : Text) (o : OperationEvent Measured) (h : S)
      (ds : List (ℕ × Compact))
      → (run_batch handler n ordinal batch_id o h).1 ≡ ok ds
      → length ds ≡ n
  unfolding run_batch
  length-run_batch zero ordinal batch_id o h ds e = ground arith
  length-run_batch (suc n) ordinal batch_id o h ds e =
      let answer = handler h (operation (batch_name batch_id ordinal) o) in
      elim (Result-cases (answer.1 >>= compact_response true)) [
        | inr (x, p) ↦
            let failed : ◌≡◌ {A = Result (List (ℕ × Compact))} (err x) (ok ds) =
              rw (run_batch, p) at e in
            absurd (cc)
        | inl (decision, p) ↦
            let rest = run_batch handler n (ordinal + 1) batch_id o answer.0 in
            let joined : (rest.1 >>= λ more. ok (decision ∷ more)) ≡ ok ds =
              rw (run_batch, p) at e in
            let (more, q, same) = >>=-eq-ok rest.1 (λ more. ok (decision ∷ more)) joined in
            let counted = length-run_batch n (ordinal + 1) batch_id o answer.0 more q in
            let whole : ◌≡◌ {A = List (ℕ × Compact)} (decision ∷ more) ds = cc in
            rw (← whole) (ap suc counted)
      ]

  -- What a server answers to a batch.
  pub record Answers (batch : BatchEvent Measured) (payload : Bytes) : Type 0 where
    pub decisions : List (ℕ × Compact)
    pub counted : length decisions ≡ batch.operation_count
    pub encoded :
        encode_vector (record { batch_id = batch.batch_id; decisions = decisions }) ≡ ok payload

  -- Where the handling of a batch does not fail, its payload encodes exactly as many decisions as
  -- the batch has operations, under the id of the batch.
  pub decide_batch-Answers :
      (batch : BatchEvent Measured) (h : S) (payload : Bytes)
      → (decide_batch handler batch h).1 ≡ ok payload
      → Answers batch payload
  unfolding decide_batch
  decide_batch-Answers batch h payload e =
      let (ds, p, q) =
        >>=-eq-ok (run_batch handler batch.operation_count 0 batch.batch_id batch.operation h).1 _
          e in
      record {
        decisions = ds;
        counted = length-run_batch batch.operation_count 0 batch.batch_id batch.operation h ds p;
        encoded = q;
      }

  -- The handler's state stays as it is unless the session has an id, the request is a runtime
  -- event, and the session has accepted all the capabilities that runtime events require.
  pub process_handler :
      (fresh : Bytes) (s : Session) (request : Frame) (h : S)
      → (is_some s.session_id
          && (request.opcode == event_request_opcode
              && (bit_and s.accepted_capabilities required_capabilities == required_capabilities)))
        ≡ false
      → (process handler fresh s request h).1 ≡ h
  unfolding process dispatch process_hello handle_event
  process_handler fresh s request h e = ground arith
