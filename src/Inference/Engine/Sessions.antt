-- ===== src/Inference/Engine/Sessions.antt =====
-- What a session that was loaded once is worth later.
use sih.Inference.Engine.{Engine}
