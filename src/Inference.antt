-- ===== src/Inference.antt =====
-- The batch inference of inference/.
pub mod Engine
pub mod Models
pub mod Worker
mod Tests
