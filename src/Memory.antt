-- ===== src/Memory.antt =====
-- The semantic memory (backend/app/memory).
mod Tests
pub mod Words
pub mod Rows
pub mod Tokens
pub mod Tombstones
pub mod Store
pub mod Changes
pub mod Sweeps
pub mod Review
pub mod Sound
pub mod Steps
pub mod Extract
pub mod Jobs
pub mod Past
