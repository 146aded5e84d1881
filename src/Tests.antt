-- ===== src/Tests.antt =====
-- Runs of the models at concrete inputs, and the theorems applied to them.
pub mod Delivery
pub mod Blocks
pub mod Pool
pub mod Worker
pub mod Hook
pub mod Front
pub mod KvReturn
pub mod Assembly
pub mod Stages
pub mod Writer
pub mod Decoder
pub mod Resume
pub mod Segments
