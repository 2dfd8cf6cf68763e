-- ===== src/Link/Handshake.antt =====
-- The state of `FluidLinkServerSession` of fluidgateway/fluidlink.py, and its `_handle_hello`.
use fluid_gateway.Common.{
  pos, ℕ, Bool, true, false, not, ◌||◌, Option, none, some, List, [], ◌∷◌, ◌++◌, ◌==◌,
  if◌then◌else◌,
}
use fluid_gateway.Frame.{is_some}
use fluid_gateway.Runtime.Data.{same_text}
use fluid_gateway.Wire.Errors.{Text, Bytes, Result, ok, err, say}
use fluid_gateway.Json.{
  Value, Values, Fields, whole, text, sequence, object, nil, item, end, field, get, max_json_depth,
}
use fluid_gateway.Link.Frame.{LinkFrame, max_link_payload, link_response, link_error}
use fluid_gateway.Session.State.{welcome_opcode}
use fluid_gateway.Link.Names.{
  link_capabilities, joined, agreed, unsupported, valid_text, string_set,
}

pub record LinkSession : Type 0 where
  pub server_name : Text
  pub server_version : Text
  pub session_id : Option Bytes
  pub expected_sequence : ℕ
  pub accepted_capabilities : List Text
  pub closed : Bool

-- `__init__`
unfoldable pub new_session : Text → Text → LinkSession
new_session server_name server_version = record {
  server_name = server_name;
  server_version = server_version;
  session_id = none;
  expected_sequence = 1;
  accepted_capabilities = [];
  closed = false;
}

unfoldable pub link_contract : Text
link_contract = say "10b46685472d13d2d49cc81aa1f7df2d654c1ec53fdc666e086e0d062ad114fa"

abbrev pub accept : Bytes → List Text → LinkSession → LinkSession
accept fresh accepted s = record s { session_id = some fresh; accepted_capabilities = accepted }

module _ {F : Type 0} where
  -- `payload.get(key, [])`
  unfoldable pub get_list : Text → Fields F → Value F
  get_list key payload = elim (get key payload) [ none ↦ sequence nil | some value ↦ value ]

  unfoldable pub texts : List Text → Values F
  texts [] = nil
  texts (t ∷ ts) = item (text t) (texts ts)

  -- `payload.get("contract_sha256") == FLUIDLINK_CONTRACT_SHA256`
  unfoldable pub shares_contract : Option (Value F) → Bool
  shares_contract (some (text t)) = same_text t link_contract
  shares_contract _ = false

  unfoldable pub fail : LinkSession → LinkFrame F → Text → Text → LinkFrame F
  fail s request code message = link_error request code message s.session_id

  unfoldable pub welcome_fields : LinkSession → List Text → Fields F
  welcome_fields s accepted = field (say "contract_sha256") (text link_contract) (
      field (say "server")
        (object (
          field (say "name") (text s.server_name)
            (field (say "version") (text s.server_version) end)))
        (field (say "available_capabilities") (sequence (texts link_capabilities)) (
          field (say "accepted_capabilities") (sequence (texts accepted)) (
            field (say "limits")
              (object (
                field (say "max_payload_bytes") (whole (pos max_link_payload))
                  (field (say "max_json_depth") (whole (pos max_json_depth)) end)))
              end))))

  -- The end of `_handle_hello`, by the required capabilities that are not available.
  unfoldable pub settle :
      Bytes → LinkSession → LinkFrame F → List Text → List Text → LinkSession × LinkFrame F
  settle fresh s request accepted (name ∷ names) = (
    s,
    fail s request (say "required_capability_unavailable")
        (say "Required capabilities are unavailable: " ++ joined (name ∷ names)),
  )
  settle fresh s request accepted [] = (
    accept fresh accepted s,
    link_response request welcome_opcode 0 0 (some fresh) true (welcome_fields s accepted),
  )

  unfoldable pub negotiate_link :
      Bytes
      → LinkSession
      → LinkFrame F
      → Result (List Text)
      → Result (List Text)
      → LinkSession × LinkFrame F
  negotiate_link fresh s request (ok requested) (ok required) =
      settle fresh s request (agreed requested required) (unsupported required)
  negotiate_link fresh s request (err e) _ =
      (s, fail s request (say "invalid_capabilities") e.message)
  negotiate_link fresh s request (ok requested) (err e) =
      (s, fail s request (say "invalid_capabilities") e.message)

  -- `_handle_hello` for a client that is a dict
  unfoldable pub meet : Bytes → LinkSession → LinkFrame F → Fields F → LinkSession × LinkFrame F
  meet fresh s request client =
      if not (valid_text (get (say "name") client) 128)
      then (
        s,
        fail s request (say "invalid_hello")
            (say "FluidLink client.name must contain 1 to 128 UTF-8 bytes."),
      )
      else if not (valid_text (get (say "version") client) 64)
      then (
        s,
        fail s request (say "invalid_hello")
            (say "FluidLink client.version must contain 1 to 64 UTF-8 bytes."),
      )
      else if not (shares_contract (get (say "contract_sha256") request.payload))
      then (
        s,
        fail s request (say "contract_mismatch")
            (say "FluidLink peers do not share the same v1 contract."),
      )
      else negotiate_link fresh s request
          (string_set (get_list (say "capabilities") request.payload))
          (string_set (get_list (say "required_capabilities") request.payload))

  unfoldable pub meet_client :
      Bytes → LinkSession → LinkFrame F → Option (Value F) → LinkSession × LinkFrame F
  meet_client fresh s request (some (object client)) = meet fresh s request client
  meet_client fresh s request _ =
      (s, fail s request (say "invalid_hello") (say "FluidLink hello requires a client object."))

  -- `_handle_hello`; the id that `uuid4` makes is an argument
  unfoldable pub link_hello : Bytes → LinkSession → LinkFrame F → LinkSession × LinkFrame F
  link_hello fresh s request =
      if is_some request.session_id
        || (not (request.subject_opcode == 0) || not (request.decision_opcode == 0))
      then (
        s,
        fail s request (say "invalid_hello")
            (say "FluidLink hello must use an empty session and zero sub-opcodes."),
      )
      else meet_client fresh s request (get (say "client") request.payload)
