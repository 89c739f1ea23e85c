-- ===== src/Ingest.antt =====
-- The readers of ingest/.
pub mod Pcap
mod Tests
