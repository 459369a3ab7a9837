-- ===== src/Workflows.antt =====
-- The workflows of workflows/.
pub mod LiveCapture
pub mod OperatorBatch
