-- ===== src/Security.antt =====
-- The security layer (src/security/).
pub mod RateLimiter
pub mod ExecApproval
pub mod ToolPermissions
pub mod Rbac
mod Tests
