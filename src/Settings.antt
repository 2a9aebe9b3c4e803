-- ===== src/Settings.antt =====
-- The settings that an operator changes while the program runs (backend/app/settings_store.py).
pub mod Value
pub mod Defaults
pub mod Parts
pub mod Check
pub mod Update
pub mod Stored
pub mod Accepted
pub mod Ranges
pub mod Sound
pub mod Runs
mod Tests
