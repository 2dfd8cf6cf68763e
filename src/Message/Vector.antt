-- ===== src/Message/Vector.antt =====
-- `encode_operation_batch_decision_payload` and `decode_operation_batch_decision_payload` of
-- fluidgateway/fluidlink_v2.py, with `_batch_decision` and `_validate_batch_decision`.
use fluid_gateway.Common.{
  ℕ, ◌≡◌, refl, ap, sym, ◌∙◌, Bool, true, false, not, Option, none, some, List, [], ◌∷◌, length,
  leb, ◌==◌,
}
use fluid_gateway.Wire.Errors
use fluid_gateway.Wire.Errors.{Text, Bytes, Result, ok, invalid_payload, require, say, >>=-eq-ok}
use fluid_gateway.Wire.Writer
use fluid_gateway.Wire.Writer.{◌⊕◌}
use fluid_gateway.Wire.Reader
use fluid_gateway.Wire.Reader.{Reader, lift, pure, ◌>>=◌, ◌>>◌}
use fluid_gateway.Wire.Codec.{
  Encodes, Encodes-then, Encodes-map, Encodes-finish, Encodes-u8, Encodes-u16, Encodes-raw,
  Encodes-empty, bind-ok,
}
use fluid_gateway.Message.Amount.{time_value, memory_value}
use fluid_gateway.Message.BatchId.{
  hex, validate_batch_id, batch_id_bytes, batch_count, batch_count-eq-ok, batch_id_bytes-eq-ok,
}
use fluid_gateway.Message.Compact.{execute}
use fluid_gateway.Message.Decision.{
  Compact, Decision, encode_decision, decode_decision, decode_decision-encode_decision,
}
use fluid_gateway.Message.Listing.{write_all, read_all}

-- `{"batch_id": ..., "decisions": [...]}`, each decision with its opcode.
pub record BatchDecisions (D : Type 0) : Type 0 where
  pub batch_id : Text
  pub decisions : List (ℕ × D)

abbrev agrees : Option Bool → Bool → Bool
agrees none b = false
agrees (some true) b = b
agrees (some false) b = not b

-- `_validate_batch_decision`
unfoldable pub validate_batch_decision : ℕ → Option Bool → Result (Unit {0})
validate_batch_decision opcode executed =
    Errors.◌>>=◌
      (require (leb opcode 6) invalid_payload
        (say "FluidLink v2 operation batch contains an invalid decision opcode."))
      λ _.
        require (agrees executed (opcode == execute)) invalid_payload
          (say "FluidLink v2 operation batch decision execution state and opcode disagree.")

-- `_batch_decision`, and what the encoder writes for it
unfoldable pub write_decision : ℕ × Compact → Result Bytes
write_decision (opcode, compact) =
    Errors.◌>>=◌ (validate_batch_decision opcode compact.executed)
      λ _. Writer.u8 opcode ⊕ (Errors.◌>>=◌ (encode_decision compact) λ bs. Writer.raw bs 17)

unfoldable pub read_one : Reader (ℕ × Decision)
read_one = do
  opcode ← Reader.u8
  raw ← Reader.bytes 17
  compact ← lift (decode_decision raw)
  lift (validate_batch_decision opcode compact.executed)
  pure (opcode, compact)

-- `encode_operation_batch_decision_payload`
unfoldable pub encode_vector : BatchDecisions Compact → Result Bytes
encode_vector v = Errors.◌>>=◌ (batch_id_bytes v.batch_id) λ id.
    Errors.◌>>=◌ (batch_count (length v.decisions)) λ count.
      Writer.finish (Writer.raw id 16 ⊕ Writer.u16 count ⊕ write_all write_decision v.decisions)

read_vector : Reader (BatchDecisions Decision)
read_vector = do
  id ← Reader.bytes 16
  lift (validate_batch_id id)
  size ← Reader.u16
  count ← lift (batch_count size)
  decisions ← read_all count read_one
  pure (record { batch_id = hex id; decisions = decisions })

-- `decode_operation_batch_decision_payload`
unfoldable pub decode_vector : Bytes → Result (BatchDecisions Decision)
unfolding read_vector
decode_vector = Reader.finish read_vector

-- A decision as the peer sees it: the same opcode and answers, its savings in wire units.
pub record SameDecision (c : ℕ × Compact) (d : ℕ × Decision) : Type 0 where
  pub opcode : d.0 ≡ c.0
  pub time : time_value c.1.saved_time 0xFFFFFFFFFFFFFFFF "saved_us" ≡ ok d.1.saved_us
  pub memory : memory_value c.1.saved_memory "saved_bytes" "saved_mb" ≡ ok d.1.saved_bytes
  pub accepted : d.1.accepted ≡ c.1.accepted
  pub executed : d.1.executed ≡ c.1.executed

abbrev pub SameDecisions : List (ℕ × Compact) → List (ℕ × Decision) → Type 0
SameDecisions [] [] = Unit
SameDecisions (c ∷ cs) (d ∷ ds) = SameDecision c d × SameDecisions cs ds
SameDecisions _ _ = ⊥

decided :
    (c : ℕ × Compact) (d : ℕ × Decision) (bs : Bytes)
    → SameDecision c d
    → encode_decision c.1 ≡ ok bs
    → decode_decision bs ≡ ok d.1
decided c d bs same e =
    rw (← same.accepted, ← same.executed) at
      (decode_decision-encode_decision c.1 bs d.1.saved_us d.1.saved_bytes same.time same.memory e)

one_Encodes :
    (c : ℕ × Compact) (d : ℕ × Decision) → SameDecision c d → Encodes (write_decision c) read_one d
unfolding write_decision read_one Writer.raw
one_Encodes c d same = record {
  at = λ bs rest h.
      let (_, v, written) = >>=-eq-ok (validate_batch_decision c.0 c.1.executed) _ h in
      (Encodes-then _ (Encodes-u8 c.0) (record {
        at = λ y r k.
            let (p, e, q) = >>=-eq-ok (encode_decision c.1) _ k in
            let back = decided c d p same e in
            let read = (Encodes-raw p 17).at y r q in
            let valid : validate_batch_decision c.0 d.1.executed ≡ ok tt = rw same.executed v in
            let o = same.opcode in
            bind-ok (Reader.bytes 17) _ read
            ∙ (rw (back, valid) (ap (λ n. ok ((n, d.1), r)) (sym o)));
      })).at
        bs rest written;
}

decisions_Encodes :
    (cs : List (ℕ × Compact)) (ds : List (ℕ × Decision))
    → SameDecisions cs ds
    → Encodes (write_all write_decision cs) (read_all (length cs) read_one) ds
unfolding write_all read_all
decisions_Encodes [] [] same = Encodes-empty []
decisions_Encodes [] (d ∷ ds) same = absurd same
decisions_Encodes (c ∷ cs) [] same = absurd same
decisions_Encodes (c ∷ cs) (d ∷ ds) (one, same) =
    Encodes-then _ (one_Encodes c d one) (Encodes-map _ (decisions_Encodes cs ds same) (λ bs. refl))

vector_Encodes :
    (id : Bytes) (cs : List (ℕ × Compact)) (ds : List (ℕ × Decision))
    → validate_batch_id id ≡ ok tt
    → batch_count (length cs) ≡ ok (length cs)
    → SameDecisions cs ds
    → Encodes
        (Writer.raw id 16 ⊕ Writer.u16 (length cs) ⊕ write_all write_decision cs)
        read_vector
        (record { batch_id = hex id; decisions = ds })
unfolding read_vector
vector_Encodes id cs ds valid counted same = Encodes-then _ (Encodes-raw id 16) (
    rw valid (
      Encodes-then _ (Encodes-u16 (length cs))
        (rw counted (Encodes-map _ (decisions_Encodes cs ds same) (λ bs. refl)))))

-- The decisions of a batch that the server encodes are decoded as equally many, in order, each
-- with its opcode, its answers and its savings in wire units.
pub decode_vector-encode_vector :
    (v : BatchDecisions Compact) (id bs : Bytes) (ds : List (ℕ × Decision))
    → batch_id_bytes v.batch_id ≡ ok id
    → SameDecisions v.decisions ds
    → encode_vector v ≡ ok bs
    → decode_vector bs ≡ ok (record { batch_id = hex id; decisions = ds })
unfolding encode_vector decode_vector
decode_vector-encode_vector v id bs ds i same e =
    let (count, c, e₁) = >>=-eq-ok (batch_count (length v.decisions)) _ (rw i at e) in
    let (equal, counted) = batch_count-eq-ok (length v.decisions) c in
    Encodes-finish bs
      (vector_Encodes id v.decisions ds (batch_id_bytes-eq-ok v.batch_id i) counted same)
      (rw equal at e₁)
