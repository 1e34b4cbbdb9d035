-- ===== src/Core/Subagent.antt =====
-- include/ravbot/core/subagent.hpp and src/core/subagent.cpp.
pub mod Types
pub mod Manager
pub mod Children
pub mod Limits
pub mod Removal
pub mod Within
pub mod Histories
pub mod Cleanup
pub mod States
mod Tests
