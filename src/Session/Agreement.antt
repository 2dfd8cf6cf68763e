-- ===== src/Session/Agreement.antt =====
-- What a handshake agrees on (fluidgateway/fluidlink_v2.py).
use fluid_gateway.Common.{ℕ, ◌≡◌}
use fluid_gateway.Wire.Errors.{Bytes, ok}
use fluid_gateway.Message.Capability.{and_not}
use fluid_gateway.Message.MaskLaws.{accepted_available, required_accepted}
use fluid_gateway.Message.Hello.{Hello, decode_hello, decode_hello-masks}
use fluid_gateway.Session.Handshake.{offered, profile_of, accepted_of}
use fluid_gateway.Session.Progress.{profile_of-Offers, Offers-IsOffer}

-- Where a decoded hello is offered capabilities that have all it requires, what the server accepts
-- has all that the hello requires and no more than is available.
pub accepted_of-profile_of :
    (payload : Bytes) (hello : Hello) (available : ℕ)
    → decode_hello payload ≡ ok hello
    → profile_of hello ≡ offered available
    → and_not hello.required_capabilities available ≡ 0
    → (and_not hello.required_capabilities (accepted_of hello available) ≡ 0)
      × (and_not (accepted_of hello available) available ≡ 0)
unfolding accepted_of
accepted_of-profile_of payload hello available d p known =
    let (lt, lt') = decode_hello-masks payload hello d in
    let offer = Offers-IsOffer hello available (profile_of-Offers hello available p) in
    (
      required_accepted available hello.requested_capabilities hello.required_capabilities offer lt
          lt' known,
      accepted_available available hello.requested_capabilities hello.required_capabilities offer lt
          lt',
    )
