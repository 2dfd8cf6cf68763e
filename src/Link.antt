-- ===== src/Link.antt =====
-- The FluidLink protocol with JSON payloads, fluidgateway/fluidlink.py.
pub mod Frame
pub mod Validity
pub mod RoundTrip
pub mod Stream
pub mod Envelope
pub mod Compact
pub mod Names
pub mod Handshake
pub mod Process
pub mod Echo
pub mod Agreed
pub mod Moves
pub mod Lifetime
