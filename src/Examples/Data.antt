-- ===== src/Examples/Data.antt =====
-- Concrete values that the examples share.
use fluid_gateway.Common.{ℕ, true, false, none, some, [], ◌∷◌}
use fluid_gateway.Wire.Errors.{Bytes, Result, ok, err, say}
use fluid_gateway.Message.Amount.{Amount, decimal, Measured, quotient, units_and_quotient}
use fluid_gateway.Message.Decision.{Compact, Decision}
use fluid_gateway.Message.Enum.{OperationType, Queue}
use fluid_gateway.Message.Operation.{OperationEvent}
use fluid_gateway.Message.Hello.{Hello}
use fluid_gateway.Message.Welcome.{Welcome}
use fluid_gateway.Frame.{Frame}
use fluid_gateway.Session.Handshake.{contract_digest}

abbrev pub or_nothing : Result Bytes → Bytes
or_nothing (ok bs) = bs
or_nothing (err e) = []

abbrev pub sixteen : ℕ → Bytes
sixteen n = n ∷ 2 ∷ 3 ∷ 4 ∷ 5 ∷ 6 ∷ 7 ∷ 8 ∷ 9 ∷ 10 ∷ 11 ∷ 12 ∷ 13 ∷ 14 ∷ 15 ∷ 255 ∷ []

-- A ping in a session.
abbrev pub ping_frame : Frame
ping_frame = record {
  kind = 1;
  opcode = 20;
  subject_opcode = 0;
  decision_opcode = 0;
  flags = 2;
  sequence = 2;
  message_id = sixteen 1;
  session_id = some (sixteen 7);
  payload = 2 ∷ 104 ∷ 105 ∷ [];
}

abbrev pub hello_message : Hello
hello_message = record {
  contract_digest = contract_digest;
  requested_capabilities = 127;
  required_capabilities = 27;
  client_name = say "game";
  client_version = say "1.0";
}

abbrev pub welcome_message : Welcome
welcome_message = record {
  contract_digest = contract_digest;
  available_capabilities = 127;
  accepted_capabilities = 31;
  max_payload = 65535;
  server_name = say "gateway";
  server_version = say "2.0";
}

-- 2.5 ms, and 0.5 MiB
abbrev pub some_time : Amount
some_time = decimal (record { coefficient = 25; places = 1 })

abbrev pub some_memory : Amount
some_memory = decimal (record { coefficient = 5; places = 1 })

abbrev pub skipped : Compact
skipped = record {
  accepted = true;
  executed = some false;
  saved_time = some_time;
  saved_memory = some_memory;
}

abbrev pub skipped_decision : Decision
skipped_decision = record {
  accepted = true;
  executed = some false;
  saved_us = 2500;
  saved_bytes = 524288;
}

-- A copy of half a mebibyte that takes 2.5 ms.
abbrev pub copy_operation : OperationEvent Amount
copy_operation = record {
  operation_type = OperationType.copy;
  queue = Queue.copy;
  source = some (say "a");
  target = some (say "b");
  reason = none;
  cost = some_time;
  size = some_memory;
  frame = some 3;
  depends_on = say "before" ∷ [];
}

-- The same, with the cost and the size as an event decodes them, and as a batch does.
abbrev copy_as : Measured → Measured → OperationEvent Measured
copy_as cost size = record {
  operation_type = OperationType.copy;
  queue = Queue.copy;
  source = some (say "a");
  target = some (say "b");
  reason = none;
  cost = cost;
  size = size;
  frame = some 3;
  depends_on = say "before" ∷ [];
}

abbrev pub copy_decoded : OperationEvent Measured
copy_decoded = copy_as (quotient 2500 1000) (quotient 524288 1048576)

abbrev pub copy_in_units : OperationEvent Measured
copy_in_units = copy_as (units_and_quotient 2500 1000) (units_and_quotient 524288 1048576)
