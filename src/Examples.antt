-- ===== src/Examples.antt =====
-- The theorems at concrete inputs, and tests of the definitions.
pub mod HistoryExamples
pub mod NdjsonExamples
mod Parameters
pub mod RelayExamples
pub mod SessionExamples
pub mod WebsearchExamples
pub mod AcpExamples
pub mod PoolExamples
pub mod StreamExamples
pub mod CollectorExamples
pub mod ToolExamples
pub mod CatalogExamples
pub mod ManagerExamples
pub mod EffortExamples
