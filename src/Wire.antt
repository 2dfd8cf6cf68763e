-- ===== src/Wire.antt =====
-- The byte level under the FluidLink v2 protocol of fluidgateway/fluidlink_v2.py: exceptions as
-- values, little-endian words, UTF-8 texts, and the payload writer and reader.
pub mod Errors
pub mod Words
pub mod Utf8
pub mod Texts
pub mod Writer
pub mod Reader
pub mod Codec
