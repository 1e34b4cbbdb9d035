-- ===== src/Gateway.antt =====
-- The gateway's command queue and its paired devices (src/gateway/command_queue.cpp and
-- src/gateway/device_pairing.cpp).
pub mod Types
pub mod Lane
pub mod CommandQueue
pub mod DevicePairing
mod Tests
