-- ===== src/Lib.antt =====
-- FluidLink, the protocols between a game and the FluidGateway runtime, and the runtime's optimizer.
--
-- A peer sends a frame of 56 header bytes and a payload. The server reads it from a byte stream,
-- checks it, gives it to the session of the connection, and answers with a frame. The session opens
-- with a hello, hands decoded runtime events to the runtime's event handler, and writes the
-- handler's decisions back. The files follow the program's parts:
--
-- Common: the library names in use, Boolean tests on numbers, lists measured by native numbers.
-- Wire: byte strings and texts are lists of natural numbers; Wire/Errors has
--   FluidLinkProtocolError (fluidgateway/fluidlink.py) and the result of code that may raise it,
--   Wire/Words the little-endian words of struct, Wire/Utf8 the codec that str.encode and
--   bytes.decode use, Wire/Writer and Wire/Reader the classes _PayloadWriter and _PayloadReader
--   of fluidgateway/fluidlink_v2.py. Wire/Codec relates a writer's call to the reader's call
--   that undoes it, and all the codecs are proved with its rules. Wire/Utf8/Cut is about
--   decoding the first bytes of a text, Wire/Texts/Stripped about str.strip, and
--   Message/Notice/Delivery about the error payload.
-- Frame: FluidLinkV2Frame, validate_fluidlink_v2_frame, encode_fluidlink_v2_frame and
--   decode_fluidlink_v2_frame; Frame/Stream has read_fluidlink_v2_frame and read_exact of
--   fluidgateway/fluidlink.py, over a stream that is a list of the pieces as they arrive.
-- Message: one module for each payload of fluidgateway/fluidlink_v2.py (hello, welcome, nonce
--   and error, decision, runtime events, operation batches and their decisions), the capability
--   masks, the fixed-point amounts, and compact_runtime_response of fluidgateway/fluidlink.py.
-- Session: FluidLinkV2ServerSession. Session/State is its state, Session/Handshake, Events and
--   Process are its handlers and process; a step takes the session and the event handler's state
--   and returns both with the response, or the error that escapes. Session/Automaton says which
--   moves a session may make, Session/Progress that process makes no other, Session/Echo what
--   every response has in common, Session/Safety what holds over a whole connection,
--   Session/Agreement what a handshake agrees on, Session/Batches how the event handler is used.
-- Json: the values of Python's json module and validate_json_value (fluidgateway/fluidlink.py).
-- Link: the older protocol of fluidgateway/fluidlink.py, with payloads in JSON. Link/Frame has
--   FluidLinkFrame, its checks, encode_fluidlink_frame and decode_fluidlink_frame, Link/Stream
--   read_fluidlink_frame, Link/Envelope the sizes of a frame, Link/Compact
--   compact_runtime_response, Link/Names string_set and the sets of capabilities, Link/Handshake and
--   Link/Process FluidLinkServerSession. Link/Moves, Echo and Lifetime are for it what
--   Session/Progress, Echo and Safety are for the binary protocol.
-- Runtime: the optimizer of fluidgateway/runtime.py, over a type of costs and sizes that is a
--   parameter. Runtime/Data has its records, Runtime/Decide decide_operation and
--   validate_manifest, Runtime/Invalidation invalidate_resource, Runtime/State
--   RuntimeOptimizationState with process and release_resource, and optimize_manifest,
--   Runtime/Parsing load_manifest with parse_resource and parse_operation. Runtime/Controller is
--   FluidGatewayController (fluidgateway/control.py), a client of that state, and Runtime/Events
--   the event stream of fluidgateway/events.py, a client of the controller. Runtime/Controller/Passed
--   is about the dicts that the controller passes to the two parsers, Runtime/Controller/Planned
--   about the controller beside optimize_manifest.
-- Planner: the admission controller of fluidgateway/admission.py, which says when an operation is
--   executed.
-- Examples: concrete messages, frames, connections, manifests, event streams and results.
--
-- Numbers are native naturals, since the binary wire has no sign; a whole number in JSON and the frame
-- of an operation are integers. A text is the list of its code points.
-- The event handler is a function from its state and an event to its state and a response or an
-- error. What uuid4 returns is an argument. A number of milliseconds or mebibytes is a decimal, as
-- Decimal(str(value)) reads it; an amount that is negative, infinite or no number is a constructor
-- that the code refuses. Its product with the scale is rounded to the 28 digits of the default decimal
-- context, half to even, before it is rounded to a whole number, half up. A time or a size that is
-- decoded is the quotient that the code computes as a float, kept as its two numbers. str.lower is an argument where a text is searched.
--
-- The number of digits beyond the 28th is counted on fuel, the number itself. read_exact runs on fuel, the size and one more: a read that is not empty lowers what remains. The
-- printed numbers have at most as many digits as their value and one more, and the text decoder as
-- many steps as there are bytes.
--
-- The loop of invalidate_resource runs on as many rounds as there are resources, and one more: a
-- resource enters the loop once.
--
-- json.dumps and json.loads are parameters, and so are str, int and float of a decoded value. A
-- dict is the list of its keys and values in the order of their insertion, a set of names the list
-- of them, sorted. A KeyError of the optimizer is a constructor of its result.
--
-- Not modelled: the alternative keys and the type checks of the dicts that the binary encoders are
-- given (a payload there has its own fields, of their own types), sockets and files, the dict of a
-- controller's snapshot but for its sums, and the adapter session, the other planners, the reports
-- and the command line around the runtime.
pub mod Common
pub mod Wire
pub mod Frame
pub mod Message
pub mod Session
pub mod Runtime
pub mod Planner
pub mod Json
pub mod Link
pub mod Examples
