-- ===== src/Parsers.antt =====
-- The packet parsers of parsers/.
pub mod Outcome
pub mod Dns
pub mod Packet
pub mod Tls
mod Tests
