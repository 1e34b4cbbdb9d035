-- ===== src/Channels/Policy.antt =====
-- include/ravbot/channels/channel_policy.hpp and src/channels/channel_policy.cpp.
pub mod Modes
pub mod Pairing
pub mod Sessions
pub mod Codes
pub mod Keys
mod Tests
