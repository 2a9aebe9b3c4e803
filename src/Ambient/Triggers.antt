-- ===== src/Ambient/Triggers.antt =====
-- The trigger evaluators (backend/app/ambient/triggers.py).
pub mod Schedules
pub mod Polls
pub mod States
mod Tests
