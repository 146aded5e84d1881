-- ===== src/Hook.antt =====
-- spark/capture_sitecustomize_v3.py: the capture hook in the prefill engine. It keeps, layer by layer, the
-- last rows and a window at every block boundary, and writes them when the prefill is over.
pub mod Boundaries
pub mod Windows
pub mod Pools
pub mod Finish
pub mod Ingest
pub mod Flush
pub mod Record
