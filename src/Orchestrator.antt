-- ===== src/Orchestrator.antt =====
-- The orchestrator (backend/app/orchestrator).
pub mod Admission
pub mod Plan
