-- ===== src/Runtime.antt =====
-- The runtime optimizer (fluidgateway/runtime.py).
pub mod Data
pub mod Decide
pub mod Soundness
pub mod Invalidation
pub mod State
pub mod Parsing
pub mod Controller
pub mod Events
