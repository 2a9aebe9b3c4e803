-- ===== src/Ambient.antt =====
-- The ambient mode (backend/app/ambient).
pub mod Events
pub mod Deliver
pub mod Wakeups
pub mod Triggers
pub mod Drain
