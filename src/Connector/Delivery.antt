-- ===== src/Connector/Delivery.antt =====
-- Which blocks a capture of spark/pd_kv_connector.py delivers: the rows that were accepted, cut in
-- order, whatever the sender thread does between the rounds of the loop.
pub mod Sends
pub mod Keeps
pub mod Queue
pub mod Dispatch
pub mod Loop
pub mod Ingest
pub mod Life
pub mod Complete
