-- ===== src/Channels.antt =====
-- The message channels (src/channels/).
pub mod Deduplication
pub mod LaneProcessor
pub mod Policy
pub mod ThreadBinder
mod Tests
