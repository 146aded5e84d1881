-- ===== src/Connector.antt =====
-- spark/pd_kv_connector.py: the prefill engine's connector, which streams a tagged request's K/V rows
-- out of the paged cache as blocks of the decoder's size.
pub mod Tags
pub mod Scheduler
pub mod Layout
pub mod Wire
pub mod Capture
pub mod Cut
pub mod Delivery
pub mod Seal
pub mod Worker
