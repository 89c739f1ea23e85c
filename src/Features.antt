-- ===== src/Features.antt =====
-- The statistics of features/.
pub mod Numbers
pub mod Online
pub mod Sketch
pub mod Sweep
pub mod Ddos
pub mod Beaconing
pub mod Dns
pub mod Traffic
pub mod Scheduler
mod Tests
