-- ===== src/Examples/Payloads.antt =====
-- The payload codecs at concrete messages.
use fluid_gateway.Common.{ℕ, zero, suc, ◌≡◌, refl, ◌-◌, ◌*◌, ◌^◌, false, some, [], ◌∷◌}
use fluid_gateway.Wire.Errors.{Text, Bytes, ok, say}
use fluid_gateway.Wire.Utf8.{utf8_encode}
use fluid_gateway.Message.Amount.{Amount, Decimal, half_up, IsNearest, half_up-IsNearest}
use fluid_gateway.Message.Batch.{BatchEvent, encode_batch, decode_batch, decode_batch-encode_batch}
use fluid_gateway.Message.BatchId.{hex, batch_id_bytes, batch_id_bytes-hex}
use fluid_gateway.Message.Compact.{Policy, number, OperationResult}
use fluid_gateway.Message.Decision.{
  Compact, encode_decision, decode_decision, decode_decision-encode_decision,
}
use fluid_gateway.Message.Event.{operation, encode_event, decode_event}
use fluid_gateway.Message.Event.Codec.{decode_event-encode_event}
use fluid_gateway.Message.Notice.{session_closed, or_none, truncate_utf8}
use fluid_gateway.Message.Notice.Delivery.{IsDelivered, encode_error-IsDelivered}
use fluid_gateway.Message.Operation.{Measures}
use fluid_gateway.Message.Vector.{
  BatchDecisions, SameDecision, encode_vector, decode_vector, decode_vector-encode_vector,
}
use fluid_gateway.Examples.Data.{
  or_nothing, sixteen, skipped, skipped_decision, copy_operation, copy_in_units, copy_decoded,
}

-- Three hundred euro signs, three bytes each, after a space.
abbrev euros : ℕ → Text
euros zero = []
euros (suc n) = 0x20AC ∷ euros n

long_message_encoded : (b : Bytes) × (utf8_encode (0x20 ∷ euros 300) ≡ some b)
unfolding utf8_encode
long_message_encoded = (or_none (utf8_encode (0x20 ∷ euros 300)), refl)

encode_error-IsDelivered_example : IsDelivered session_closed (0x20 ∷ euros 300)
encode_error-IsDelivered_example =
    encode_error-IsDelivered session_closed (0x20 ∷ euros 300) long_message_encoded.0
      long_message_encoded.1

-- A hundred and seventy of them fit.
long_message_cut : truncate_utf8 (0x20 ∷ euros 300) 512 ≡ euros 170
unfolding truncate_utf8 utf8_encode fluid_gateway.Wire.Utf8.replace_surrogates
    fluid_gateway.Wire.Texts.strip fluid_gateway.Wire.Texts.is_space
    fluid_gateway.Wire.Utf8.decode_ignore
long_message_cut = refl

decode_decision-encode_decision_example :
    decode_decision (or_nothing (encode_decision skipped)) ≡ ok skipped_decision
unfolding encode_decision fluid_gateway.Message.Amount.time_value
    fluid_gateway.Message.Amount.amount_value fluid_gateway.Message.Amount.memory_value
    fluid_gateway.Wire.Writer.finish fluid_gateway.Wire.Writer.◌⊕◌ fluid_gateway.Wire.Writer.u8
    fluid_gateway.Wire.Writer.u64 fluid_gateway.Wire.Words.pack_le
    fluid_gateway.Message.Amount.in_context fluid_gateway.Message.Amount.half_even
    fluid_gateway.Message.Amount.excess
decode_decision-encode_decision_example =
    decode_decision-encode_decision skipped (or_nothing (encode_decision skipped)) 2500 524288 refl
      refl refl

decode_event-encode_event_example :
    decode_event 103 (or_nothing (encode_event (operation (say "op-1") copy_operation)))
    ≡ ok (operation (say "op-1") copy_decoded)
unfolding encode_event fluid_gateway.Message.Amount.time_value
    fluid_gateway.Message.Amount.amount_value fluid_gateway.Message.Amount.memory_value
    fluid_gateway.Message.Operation.encode_operation fluid_gateway.Wire.Writer.finish
    fluid_gateway.Wire.Writer.◌⊕◌ fluid_gateway.Wire.Writer.u8
    fluid_gateway.Message.Operation.presence_of fluid_gateway.Wire.Writer.text16
    fluid_gateway.Wire.Texts.encode_bounded_text utf8_encode say fluid_gateway.Wire.Texts.is_blank
    fluid_gateway.Wire.Texts.is_space fluid_gateway.Wire.Writer.u16
    fluid_gateway.Message.Operation.write_body fluid_gateway.Message.Listing.write_optional
    fluid_gateway.Message.Operation.write_time fluid_gateway.Wire.Writer.u32
    fluid_gateway.Message.Operation.write_memory fluid_gateway.Wire.Writer.u64
    fluid_gateway.Message.Operation.write_frame fluid_gateway.Message.Operation.write_dependencies
    fluid_gateway.Message.Listing.text_list fluid_gateway.Message.Listing.write_texts
    fluid_gateway.Message.Listing.write_all fluid_gateway.Wire.Words.pack_le
    fluid_gateway.Message.Amount.in_context fluid_gateway.Message.Amount.half_even
    fluid_gateway.Message.Amount.excess
decode_event-encode_event_example =
    decode_event-encode_event (operation (say "op-1") copy_operation)
      (operation (say "op-1") copy_decoded)
      (or_nothing (encode_event (operation (say "op-1") copy_operation)))
      (2500, 524288, refl, record { time = refl; memory = refl }, refl) refl

abbrev two_copies : BatchEvent Amount
two_copies = record {
  batch_id = say "0102030405060708090A0b0c0d0e0fff";
  operation_count = 2;
  operation = copy_operation;
}

decode_batch-encode_batch_example :
    decode_batch (or_nothing (encode_batch two_copies))
    ≡ ok (record { batch_id = hex (sixteen 1); operation_count = 2; operation = copy_in_units })
unfolding encode_batch batch_id_bytes say fluid_gateway.Message.BatchId.from_hex
    fluid_gateway.Message.BatchId.validate_batch_id fluid_gateway.Message.Amount.time_value
    fluid_gateway.Message.Amount.amount_value fluid_gateway.Message.Amount.memory_value
    fluid_gateway.Message.BatchId.batch_count fluid_gateway.Message.Listing.text_list
    fluid_gateway.Wire.Texts.encode_bounded_text utf8_encode fluid_gateway.Wire.Texts.is_blank
    fluid_gateway.Wire.Texts.is_space fluid_gateway.Wire.Writer.finish fluid_gateway.Wire.Writer.◌⊕◌
    fluid_gateway.Wire.Writer.raw fluid_gateway.Wire.Writer.u16 fluid_gateway.Wire.Writer.u8
    fluid_gateway.Message.Operation.presence_of fluid_gateway.Message.Operation.write_body
    fluid_gateway.Message.Listing.write_optional fluid_gateway.Wire.Writer.text16
    fluid_gateway.Message.Operation.write_time fluid_gateway.Wire.Writer.u32
    fluid_gateway.Message.Operation.write_memory fluid_gateway.Wire.Writer.u64
    fluid_gateway.Message.Operation.write_frame fluid_gateway.Message.Listing.write_texts
    fluid_gateway.Message.Listing.write_all fluid_gateway.Wire.Words.pack_le
    fluid_gateway.Message.Amount.in_context fluid_gateway.Message.Amount.half_even
    fluid_gateway.Message.Amount.excess
decode_batch-encode_batch_example =
    decode_batch-encode_batch two_copies (sixteen 1) (or_nothing (encode_batch two_copies)) 2500
      524288 refl (record { time = refl; memory = refl }) refl

abbrev one_skipped : BatchDecisions Compact
one_skipped = record { batch_id = hex (sixteen 1); decisions = (2, skipped) ∷ [] }

decode_vector-encode_vector_example :
    decode_vector (or_nothing (encode_vector one_skipped))
    ≡ ok (record { batch_id = hex (sixteen 1); decisions = (2, skipped_decision) ∷ [] })
unfolding encode_vector batch_id_bytes hex fluid_gateway.Message.BatchId.from_hex
    fluid_gateway.Message.BatchId.validate_batch_id fluid_gateway.Message.Amount.time_value
    fluid_gateway.Message.Amount.amount_value fluid_gateway.Message.Amount.memory_value
    fluid_gateway.Message.BatchId.batch_count fluid_gateway.Wire.Writer.finish
    fluid_gateway.Wire.Writer.◌⊕◌ fluid_gateway.Wire.Writer.raw fluid_gateway.Wire.Writer.u16
    fluid_gateway.Message.Listing.write_all fluid_gateway.Message.Vector.write_decision
    fluid_gateway.Message.Vector.validate_batch_decision fluid_gateway.Wire.Writer.u8
    encode_decision fluid_gateway.Wire.Writer.u64 fluid_gateway.Wire.Words.pack_le
    fluid_gateway.Message.Amount.in_context fluid_gateway.Message.Amount.half_even
    fluid_gateway.Message.Amount.excess
decode_vector-encode_vector_example =
    decode_vector-encode_vector one_skipped (sixteen 1) (or_nothing (encode_vector one_skipped))
      ((2, skipped_decision) ∷ []) refl
      (record { opcode = refl; time = refl; memory = refl; accepted = refl; executed = refl }, tt)
      refl

-- 0.0625 ms is 62.5 microseconds, which the wire rounds up to 63.
-- 0.0004 followed by 34 nines has a product of more than 28 digits, which is rounded first.
abbrev many_nines : Decimal
many_nines = record { coefficient = 5 * 10 ^ 34 - 1; places = 38 }

many_nines_up : half_up many_nines 1000 ≡ 1
unfolding half_up fluid_gateway.Message.Amount.in_context fluid_gateway.Message.Amount.half_even
    fluid_gateway.Message.Amount.excess
many_nines_up = refl

half_up-IsNearest_example : IsNearest many_nines 1000 (half_up many_nines 1000)
half_up-IsNearest_example = half_up-IsNearest many_nines 1000

abbrev deduplicated : OperationResult
deduplicated = record {
  executed = false;
  decision = some (record {
    policy = Policy.deduplicate_identical_transfer;
    estimated_saved_ms = number (record { coefficient = 25; places = 1 });
    estimated_saved_mb = number (record { coefficient = 5; places = 1 });
  });
}
