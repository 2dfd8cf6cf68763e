-- ===== src/Session.antt =====
-- `FluidLinkV2ServerSession` of fluidgateway/fluidlink_v2.py.
pub mod State
pub mod Handshake
pub mod Events
pub mod Process
pub mod Automaton
pub mod Progress
pub mod Echo
pub mod Safety
pub mod Agreement
pub mod Batches
