-- ===== src/Message/Batch.antt =====
-- `encode_operation_batch_event_payload` and `decode_operation_batch_event_payload` of
-- fluidgateway/fluidlink_v2.py: one operation that a client asks for several times.
use fluid_gateway.Common.{ℕ, ◌≤◌, ◌≡◌, refl, List, length}
use fluid_gateway.Wire.Errors
use fluid_gateway.Wire.Errors.{Text, Bytes, Result, ok, >>=-eq-ok}
use fluid_gateway.Wire.Writer
use fluid_gateway.Wire.Writer.{◌⊕◌}
use fluid_gateway.Wire.Reader
use fluid_gateway.Wire.Reader.{Reader, lift, pure, ◌>>=◌, ◌>>◌}
use fluid_gateway.Wire.Codec.{
  Encodes, Encodes-then, Encodes-map, Encodes-finish, Encodes-u8, Encodes-u16, Encodes-raw,
}
use fluid_gateway.Message.Amount.{
  Amount, Measured, units_and_quotient, microseconds_and_milliseconds, bytes_and_mebibytes,
}
use fluid_gateway.Message.BatchId.{
  hex, validate_batch_id, batch_id_bytes, batch_count, batch_count-eq-ok, batch_id_bytes-eq-ok,
}
use fluid_gateway.Message.Enum.{
  enum_value, read_enum, Encodes-enum, operation_types, queues, operation_types-IsComplete,
  queues-IsComplete,
}
use fluid_gateway.Message.Listing.{
  is_present, text_list, text_list-eq-ok, write_texts, Encodes-texts,
}
use fluid_gateway.Message.Operation.{
  OperationEvent, Measures, measured, operation_presence, max_dependencies, write_body, read_body,
  Encodes-body, known_presence, presence_known,
}

pub record BatchEvent (A : Type 0) : Type 0 where
  pub batch_id : Text
  pub operation_count : ℕ
  pub operation : OperationEvent A

-- The decoded operation: the numbers of microseconds and bytes, and the two floats beside them.
abbrev pub in_units : OperationEvent Amount → ℕ → ℕ → OperationEvent Measured
in_units o cost size = measured o (microseconds_and_milliseconds cost) (bytes_and_mebibytes size)

batch_fields : Bytes → ℕ → OperationEvent Amount → List Text → Result Bytes
batch_fields id count o dependencies =
    Writer.raw id 16
    ⊕ Writer.u16 count
    ⊕ Writer.u8 (enum_value operation_types o.operation_type)
    ⊕ Writer.u8 (enum_value queues o.queue)
    ⊕ Writer.u8 (operation_presence o)
    ⊕ write_body o (write_texts dependencies)

-- `encode_operation_batch_event_payload`
unfoldable pub encode_batch : BatchEvent Amount → Result Bytes
unfolding batch_fields
encode_batch b = Errors.◌>>=◌ (batch_id_bytes b.batch_id) λ id.
    Errors.◌>>=◌ (batch_count b.operation_count) λ count.
      Errors.◌>>=◌ (text_list b.operation.depends_on max_dependencies "dependencies")
        λ deps. Writer.finish (batch_fields id count b.operation deps)

read_batch : Reader (BatchEvent Measured)
read_batch = do
  id ← Reader.bytes 16
  lift (validate_batch_id id)
  size ← Reader.u16
  count ← lift (batch_count size)
  operation_type ← read_enum operation_types
  queue ← read_enum queues
  presence ← Reader.u8
  lift (known_presence presence "operation batch")
  operation ←
      read_body microseconds_and_milliseconds bytes_and_mebibytes operation_type queue presence
  pure (record { batch_id = hex id; operation_count = count; operation = operation })

-- `decode_operation_batch_event_payload`
unfoldable pub decode_batch : Bytes → Result (BatchEvent Measured)
unfolding read_batch
decode_batch = Reader.finish read_batch

batch_Encodes :
    (id : Bytes) (count : ℕ) (o : OperationEvent Amount) (cost size : ℕ)
    → validate_batch_id id ≡ ok tt
    → batch_count count ≡ ok count
    → length o.depends_on ≤ max_dependencies
    → Measures o cost size
    → Encodes
        (batch_fields id count o o.depends_on)
        read_batch
        (record { batch_id = hex id; operation_count = count; operation = in_units o cost size })
unfolding batch_fields read_batch
batch_Encodes id count o cost size valid counted fits m =
    let known =
      presence_known (is_present o.source) (is_present o.target) (is_present o.reason)
        (is_present o.frame) in
    Encodes-then _ (Encodes-raw id 16) (
      rw valid (
        Encodes-then _ (Encodes-u16 count) (
          rw counted (
            Encodes-then _
              (Encodes-enum operation_types o.operation_type operation_types-IsComplete)
              (Encodes-then _ (Encodes-enum queues o.queue queues-IsComplete) (
                Encodes-then _ (Encodes-u8 (operation_presence o)) (
                  rw known (
                    Encodes-map _
                      (Encodes-body microseconds_and_milliseconds bytes_and_mebibytes o cost size m
                        (Encodes-texts o.depends_on max_dependencies "dependency" fits))
                      (λ bs. refl)))))))))

-- An operation batch that a client encodes is decoded with the same count and the same operation,
-- with the numbers of microseconds and bytes on the wire and beside them their quotients by 1000
-- and by 1048576, under the id that its sixteen bytes print as.
pub decode_batch-encode_batch :
    (b : BatchEvent Amount) (id bs : Bytes) (cost size : ℕ)
    → batch_id_bytes b.batch_id ≡ ok id
    → Measures b.operation cost size
    → encode_batch b ≡ ok bs
    → decode_batch bs
      ≡ ok (record {
        batch_id = hex id;
        operation_count = b.operation_count;
        operation =
            measured b.operation (units_and_quotient cost 1000) (units_and_quotient size 1048576);
      })
unfolding encode_batch decode_batch
decode_batch-encode_batch b id bs cost size i m e =
    let (count, c, e₁) = >>=-eq-ok (batch_count b.operation_count) _ (rw i at e) in
    let (deps, d, e₂) = >>=-eq-ok (text_list b.operation.depends_on max_dependencies _) _ e₁ in
    let (same, counted) = batch_count-eq-ok b.operation_count c in
    let (fits, same') = text_list-eq-ok b.operation.depends_on max_dependencies _ d in
    Encodes-finish bs
      (batch_Encodes id b.operation_count b.operation cost size (batch_id_bytes-eq-ok b.batch_id i)
        counted fits m)
      (rw (same, same') at e₂)
