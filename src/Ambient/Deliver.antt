-- ===== src/Ambient/Deliver.antt =====
-- The delivery plane (backend/app/ambient/deliver.py): when a row of the outbox reaches the human.
pub mod Outbox
pub mod Settings
pub mod Flush
pub mod Tick
pub mod Rows
pub mod Budget
pub mod Quiet
pub mod Handled
pub mod Ledger
pub mod Passes
pub mod Steps
pub mod Digest
mod Tests
