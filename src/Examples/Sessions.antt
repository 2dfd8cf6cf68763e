-- ===== src/Examples/Sessions.antt =====
-- A session that opens, is pinged and is closed, with a handler that counts the events it sees.
use fluid_gateway.Common.{
  ℕ, suc, ◌+◌, ◌≡◌, refl, true, false, none, some, List, [], ◌∷◌, if◌then◌else◌,
}
use fluid_gateway.Wire.Errors.{Bytes, ok, say}
use fluid_gateway.Frame.{Frame}
use fluid_gateway.Message.Hello.{encode_hello}
use fluid_gateway.Message.Capability.{and_not}
use fluid_gateway.Message.Hello.{decode_hello}
use fluid_gateway.Session.Handshake.{accepted_of}
use fluid_gateway.Session.Agreement.{accepted_of-profile_of}
use fluid_gateway.Message.Amount.{Measured}
use fluid_gateway.Message.Batch.{BatchEvent}
use fluid_gateway.Message.BatchId.{hex}
use fluid_gateway.Session.Batches.{Answers, decide_batch-Answers, process_handler}
use fluid_gateway.Session.State.{Session, initial}
use fluid_gateway.Session.Events.{Handler, decide_batch}
use fluid_gateway.Session.Automaton.{Move}
use fluid_gateway.Session.Process.{is_consumed, process}
use fluid_gateway.Session.Progress.{process-Move, process_sequence}
use fluid_gateway.Session.Echo.{Echoes, process-Echoes}
use fluid_gateway.Session.Safety.{IsSafe, Keeps, run, run-IsSafe, run-Keeps, run_closed}
use fluid_gateway.Examples.Data.{or_nothing, sixteen, ping_frame, hello_message, copy_in_units}

abbrev count_events : Handler ℕ
count_events n event = (suc n, ok (record { accepted = true; result = none }))

abbrev fresh_session : Session
fresh_session = record {
  server_name = say "gateway";
  server_version = say "2.0";
  session_id = none;
  contract_digest = none;
  expected_sequence = 1;
  accepted_capabilities = 0;
  closed = false;
}

abbrev hello_frame : Frame
hello_frame = record {
  kind = 1;
  opcode = 1;
  subject_opcode = 0;
  decision_opcode = 0;
  flags = 0;
  sequence = 1;
  message_id = sixteen 1;
  session_id = none;
  payload = or_nothing (encode_hello hello_message);
}

abbrev open_session : Session
open_session = record {
  server_name = say "gateway";
  server_version = say "2.0";
  session_id = some (sixteen 7);
  contract_digest = some [];
  expected_sequence = 2;
  accepted_capabilities = 127;
  closed = false;
}

abbrev closed_session : Session
closed_session = record {
  server_name = say "gateway";
  server_version = say "2.0";
  session_id = some (sixteen 7);
  contract_digest = some [];
  expected_sequence = 2;
  accepted_capabilities = 127;
  closed = true;
}

abbrev connection : List (Bytes × Frame)
connection = (sixteen 7, hello_frame) ∷ (sixteen 8, ping_frame) ∷ []

process-Move_example :
    Move
      (sixteen 7)
      hello_frame
      fresh_session
      (process count_events (sixteen 7) fresh_session hello_frame 0).0
process-Move_example = process-Move count_events (sixteen 7) fresh_session hello_frame 0

process_sequence_example :
    (process count_events (sixteen 7) open_session ping_frame 0).0.expected_sequence
    ≡ 2 + (if is_consumed open_session ping_frame then 1 else 0)
process_sequence_example = process_sequence count_events (sixteen 7) open_session ping_frame 0

abbrev pong_frame : Frame
pong_frame = record {
  kind = 2;
  opcode = 21;
  subject_opcode = 0;
  decision_opcode = 0;
  flags = 3;
  sequence = 2;
  message_id = sixteen 1;
  session_id = some (sixteen 7);
  payload = 2 ∷ 104 ∷ 105 ∷ [];
}

process-Echoes_example :
    Echoes ping_frame (process count_events (sixteen 7) open_session ping_frame 0).0 pong_frame
unfolding process fluid_gateway.Session.Process.dispatch fluid_gateway.Session.Handshake.handle_ping
    fluid_gateway.Message.Notice.decode_nonce fluid_gateway.Wire.Reader.finish
    fluid_gateway.Wire.Reader.text8 fluid_gateway.Wire.Reader.u8 fluid_gateway.Wire.Reader.text
    fluid_gateway.Wire.Reader.bytes fluid_gateway.Wire.Utf8.utf8_decode
    fluid_gateway.Wire.Texts.is_blank fluid_gateway.Wire.Texts.is_space
    fluid_gateway.Message.Notice.encode_nonce fluid_gateway.Wire.Writer.finish
    fluid_gateway.Wire.Writer.text8 fluid_gateway.Wire.Texts.encode_bounded_text
    fluid_gateway.Wire.Utf8.utf8_encode fluid_gateway.Wire.Writer.◌⊕◌ fluid_gateway.Wire.Writer.u8
    fluid_gateway.Session.State.response_frame
process-Echoes_example =
    process-Echoes count_events (sixteen 7) open_session ping_frame 0 pong_frame refl

run-IsSafe_example : IsSafe (run count_events connection fresh_session 0).0
unfolding initial fluid_gateway.Wire.Texts.encode_bounded_text fluid_gateway.Wire.Utf8.utf8_encode
    say fluid_gateway.Wire.Texts.is_blank fluid_gateway.Wire.Texts.is_space
run-IsSafe_example =
    run-IsSafe count_events (say "gateway") (say "2.0") fresh_session connection 0 refl

run-Keeps_example : Keeps open_session (run count_events connection open_session 0).0
run-Keeps_example = run-Keeps count_events connection open_session 0 refl

run_closed_example : run count_events connection closed_session 5 ≡ (closed_session, 5)
run_closed_example = run_closed count_events connection closed_session 5 refl refl

accepted_of-profile_of_example :
    (and_not 27 (accepted_of hello_message 127) ≡ 0)
    × (and_not (accepted_of hello_message 127) 127 ≡ 0)
unfolding decode_hello fluid_gateway.Wire.Reader.finish fluid_gateway.Wire.Reader.bytes encode_hello
    fluid_gateway.Message.Capability.encode_mask fluid_gateway.Message.Capability.decode_mask
    fluid_gateway.Wire.Writer.finish fluid_gateway.Wire.Writer.◌⊕◌ fluid_gateway.Wire.Writer.raw
    fluid_gateway.Session.Handshake.contract_digest fluid_gateway.Message.BatchId.from_hex say
    fluid_gateway.Wire.Writer.u64 fluid_gateway.Wire.Writer.text8
    fluid_gateway.Wire.Texts.encode_bounded_text fluid_gateway.Wire.Utf8.utf8_encode
    fluid_gateway.Wire.Texts.is_blank fluid_gateway.Wire.Texts.is_space fluid_gateway.Wire.Writer.u8
    fluid_gateway.Wire.Words.pack_le fluid_gateway.Message.Capability.read_mask
    fluid_gateway.Wire.Reader.u64 fluid_gateway.Wire.Words.unpack_le fluid_gateway.Wire.Reader.text8
    fluid_gateway.Wire.Reader.u8 fluid_gateway.Wire.Reader.text fluid_gateway.Wire.Utf8.utf8_decode
    fluid_gateway.Session.Handshake.profile_of and_not
accepted_of-profile_of_example =
    accepted_of-profile_of hello_frame.payload hello_message 127 refl refl refl

abbrev execute_all : Handler ℕ
execute_all n event = (
  suc n,
  ok (record { accepted = true; result = some (record { executed = true; decision = none }) }),
)

abbrev two_copies_in_units : BatchEvent Measured
two_copies_in_units = record {
  batch_id = hex (sixteen 1);
  operation_count = 2;
  operation = copy_in_units;
}

decide_batch-Answers_example :
    Answers execute_all two_copies_in_units
      (or_nothing (decide_batch execute_all two_copies_in_units 0).1)
unfolding decide_batch fluid_gateway.Session.Events.run_batch
    fluid_gateway.Message.Compact.compact_response fluid_gateway.Message.Vector.encode_vector
    fluid_gateway.Message.BatchId.batch_id_bytes hex fluid_gateway.Message.BatchId.from_hex
    fluid_gateway.Message.BatchId.validate_batch_id fluid_gateway.Message.BatchId.batch_count
    fluid_gateway.Wire.Writer.finish fluid_gateway.Wire.Writer.◌⊕◌ fluid_gateway.Wire.Writer.raw
    fluid_gateway.Wire.Writer.u16 fluid_gateway.Message.Listing.write_all
    fluid_gateway.Message.Vector.write_decision fluid_gateway.Message.Vector.validate_batch_decision
    fluid_gateway.Wire.Writer.u8 fluid_gateway.Message.Decision.encode_decision
    fluid_gateway.Message.Amount.time_value fluid_gateway.Message.Amount.amount_value
    fluid_gateway.Message.Amount.memory_value fluid_gateway.Wire.Writer.u64
    fluid_gateway.Wire.Words.pack_le fluid_gateway.Message.Amount.in_context
    fluid_gateway.Message.Amount.half_even fluid_gateway.Message.Amount.excess
decide_batch-Answers_example =
    decide_batch-Answers execute_all two_copies_in_units 0
      (or_nothing (decide_batch execute_all two_copies_in_units 0).1) refl

process_handler_example : (process count_events (sixteen 7) fresh_session hello_frame 5).1 ≡ 5
process_handler_example = process_handler count_events (sixteen 7) fresh_session hello_frame 5 refl
