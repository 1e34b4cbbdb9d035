-- ===== src/Core.antt =====
-- The core of the agent (src/core/).
pub mod TurnValidator
pub mod Subagent
pub mod Cron
pub mod Usage
pub mod Compaction
pub mod Pruner
pub mod AgentLoop
mod Tests
