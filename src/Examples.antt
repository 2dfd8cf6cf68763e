-- ===== src/Examples.antt =====
-- Concrete messages, frames and sessions: tests, and each theorem at an input that it applies to.
pub mod Data
pub mod Payloads
pub mod Frames
pub mod Sessions
pub mod Plans
pub mod Manifests
mod Links
pub mod Controllers
mod Streams
mod Admissions
