-- ===== src/Datasource.antt =====
-- datasource/: the labeled records and their replay.
pub mod Extractor
pub mod Labeling
pub mod Labels
pub mod Records
pub mod Replay
mod Tests
