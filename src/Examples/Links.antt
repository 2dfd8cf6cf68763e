-- ===== src/Examples/Links.antt =====
-- A session of the protocol with JSON payloads. The only value that is written and read is `{}`.
use fluid_gateway.Common.{
  ℕ, ◌+◌, ◌≡◌, ◌↔◌, refl, Bool, true, false, ◌&&◌, Option, none, some, List, [], ◌∷◌, ◌++◌, leb,
  take, drop, arith,
}
use fluid_gateway.Wire.Errors.{Text, Bytes, ok, say}
use fluid_gateway.Json.{
  Value, Fields, object, sequence, nil, item, end, field, text, null, boolean, validate_value,
}
use fluid_gateway.Json.Shape.{nesting, is_clean, is_ok, is_ok-validate_value}
use fluid_gateway.Link.Frame.{LinkFrame, encode_link, decode_link, validate_link}
use fluid_gateway.Link.Validity.{IsValidLink, validate_link_lem}
use fluid_gateway.Link.RoundTrip.{decode_link-encode_link}
use fluid_gateway.Link.Compact.{Floats}
use fluid_gateway.Link.Handshake.{LinkSession, new_session}
use fluid_gateway.Link.Process.{DictHandler, link_process, takes_sequence}
use fluid_gateway.Link.Echo.{LinkEchoes, link_process-LinkEchoes}
use fluid_gateway.Link.Moves.{LinkMove, link_process-LinkMove}
use fluid_gateway.Link.Lifetime.{
  IsSafeLink, link_run, link_run-IsSafeLink, link_run_closed, link_process_handler,
}
use fluid_gateway.Frame.Stream.Cutting.{Finds}
use fluid_gateway.Link.Stream.{read_link}
use fluid_gateway.Link.Stream.Reads.{read_link-encode_link}
use fluid_gateway.Examples.Data.{sixteen}

abbrev always : ℕ → Bool
always n = true

abbrev write : Value ℕ → Option Text
write (object end) = some (say "{}")
write _ = none

abbrev read : Text → Option (Value ℕ)
read written = some (object end)

abbrev numbers : Floats ℕ
numbers = record { is_finite = always; is_negative = λ n. false; zero = 0; of_whole = λ n. none }

abbrev goodbye : LinkFrame ℕ
goodbye = record {
  kind = 1;
  opcode = 30;
  subject_opcode = 0;
  decision_opcode = 0;
  flags = 6;
  sequence = 2;
  message_id = sixteen 1;
  session_id = some (sixteen 7);
  payload = end;
}

abbrev goodbye_wire : Bytes
goodbye_wire =
    70
    ∷ 76
    ∷ 78
    ∷ 75
    ∷ 1
    ∷ 1
    ∷ 30
    ∷ 0
    ∷ 0
    ∷ 6
    ∷ 0
    ∷ 0
    ∷ 2
    ∷ 0
    ∷ 0
    ∷ 0
    ∷ 0
    ∷ 0
    ∷ 0
    ∷ 0
    ∷ (sixteen 1 ++ (sixteen 7 ++ (2 ∷ 0 ∷ 0 ∷ 0 ∷ 123 ∷ 125 ∷ [])))

goodbye_encoded : encode_link always write goodbye ≡ ok goodbye_wire
unfolding encode_link validate_link validate_value fluid_gateway.Json.validate_depth
    fluid_gateway.Json.keys_encodable fluid_gateway.Link.Frame.encode_json
    fluid_gateway.Wire.Utf8.utf8_encode say fluid_gateway.Frame.Struct.pack_header
    fluid_gateway.Wire.Words.pack_le
goodbye_encoded = refl

decode_link-encode_link_example : decode_link always read goodbye_wire ≡ ok goodbye
decode_link-encode_link_example =
    decode_link-encode_link always write read goodbye goodbye_wire (λ written e. refl)
      goodbye_encoded

abbrev nested : Value ℕ
nested = sequence (item (object (field (say "a") (text (say "b")) end)) (item null nil))

is_ok-validate_value_example :
    is_ok (validate_value always 1 nested) ≡ (is_clean always nested && leb (nesting nested) 64)
is_ok-validate_value_example = is_ok-validate_value always nested

abbrev asked : List Text
asked = say "heartbeat.v1" ∷ say "binary.framing.v1" ∷ say "heartbeat.v1" ∷ []

-- The handler counts the events and answers with an empty dict.
abbrev count_events : DictHandler ℕ ℕ
count_events n event = (n + 1, ok end)

abbrev at_hand : LinkSession
at_hand = record {
  server_name = say "gateway";
  server_version = say "1.0";
  session_id = some (sixteen 7);
  expected_sequence = 2;
  accepted_capabilities = say "heartbeat.v1" ∷ [];
  closed = false;
}

abbrev over : LinkSession
over = record at_hand { closed = true }

link_process-LinkEchoes_example :
    LinkEchoes goodbye
      (link_process numbers count_events (sixteen 9) at_hand goodbye 0).0
      (link_process numbers count_events (sixteen 9) at_hand goodbye 0).2
link_process-LinkEchoes_example =
    link_process-LinkEchoes numbers count_events (sixteen 9) at_hand goodbye 0

link_process-LinkMove_example :
    LinkMove
      (sixteen 9)
      goodbye
      at_hand
      (link_process numbers count_events (sixteen 9) at_hand goodbye 0).0
link_process-LinkMove_example =
    link_process-LinkMove numbers count_events (sixteen 9) at_hand goodbye 0

abbrev requests : List (Bytes × LinkFrame ℕ)
requests = (sixteen 9, goodbye) ∷ (sixteen 9, record goodbye { sequence = 3 }) ∷ []

link_run-IsSafeLink_example :
    IsSafeLink (link_run numbers count_events requests (new_session (say "g") (say "1")) 0).0
link_run-IsSafeLink_example =
    link_run-IsSafeLink numbers count_events (say "g") (say "1") requests 0

link_run_closed_example :
    ((link_run numbers count_events requests over 5).0 ≡ over)
    × ((link_run numbers count_events requests over 5).1 ≡ 5)
link_run_closed_example = link_run_closed numbers count_events requests over 5 refl refl

link_process_handler_example :
    (link_process numbers count_events (sixteen 9) at_hand goodbye 5).1 ≡ 5
unfolding fluid_gateway.Link.Process.allows_events fluid_gateway.Link.Process.event_capabilities say
link_process_handler_example =
    link_process_handler numbers count_events (sixteen 9) at_hand goodbye 5 refl

validate_link_lem_example : (validate_link always goodbye ≡ ok tt) ↔ IsValidLink always goodbye
validate_link_lem_example = validate_link_lem always goodbye

read_link-encode_link_example :
    Finds
      (read_link always read none (take 9 goodbye_wire ∷ (drop 9 goodbye_wire ++ 70 ∷ []) ∷ []))
      goodbye
      (70 ∷ [])
read_link-encode_link_example =
    read_link-encode_link always write read goodbye goodbye_wire (70 ∷ [])
      (take 9 goodbye_wire ∷ (drop 9 goodbye_wire ++ 70 ∷ []) ∷ []) (λ written e. refl)
      goodbye_encoded (omega arith, (omega arith, tt)) refl
