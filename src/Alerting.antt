-- ===== src/Alerting.antt =====
-- The alerting layer of alerting/.
pub mod Schema
pub mod Normalizer
pub mod Webhook
pub mod Dispatch
pub mod ClickHouse
pub mod Store
pub mod Correlator
mod Tests
