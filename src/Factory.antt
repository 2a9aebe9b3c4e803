-- ===== src/Factory.antt =====
-- The worker factory (backend/app/factory).
pub mod Json
pub mod Dag
