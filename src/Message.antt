-- ===== src/Message.antt =====
-- The payloads of the FluidLink v2 frames (fluidgateway/fluidlink_v2.py), one module for each kind.
pub mod Capability
pub mod MaskLaws
pub mod Hello
pub mod Welcome
pub mod Notice
pub mod Amount
pub mod Decision
pub mod Compact
pub mod Listing
pub mod Enum
pub mod Operation
pub mod Event
pub mod BatchId
pub mod Batch
pub mod Vector
