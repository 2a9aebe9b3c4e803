-- ===== src/Factory/Dag.antt =====
-- Structural validation of a workflow (backend/app/factory/dag.py).
pub mod Errors
pub mod Nodes
pub mod Edges
pub mod Cycle
pub mod Reach
pub mod Validate
pub mod Graph
pub mod Distinct
pub mod Verdict
pub mod Returns
mod Tests
