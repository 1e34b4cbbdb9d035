-- ===== src/Core/Cron.antt =====
-- include/ravbot/core/cron_scheduler.hpp and src/core/cron_scheduler.cpp.
pub mod Expression
pub mod Scheduler
pub mod Fields
pub mod NextRun
pub mod Removal
pub mod Calendars
pub mod Earliest
pub mod Ticks
mod Tests
