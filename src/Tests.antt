-- ===== src/Tests.antt =====
-- The theorems at concrete inputs.
pub mod Instances
pub mod StorageExamples
pub mod CaptureExamples
pub mod WorkflowExamples
pub mod TargetExamples
pub mod BatchExamples
pub mod ConfigurationExamples
pub mod MigrationExamples
pub mod RetentionExamples
pub mod QualityExamples
pub mod BrowserExamples
pub mod ContractExamples
