-- ===== src/Providers.antt =====
-- The provider layer: error classification, cooldowns and failover (src/providers/).
pub mod Error
pub mod Failover
pub mod Cooldown
mod Tests
