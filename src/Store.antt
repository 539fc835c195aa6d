-- ===== src/Store.antt =====
-- internal/store: the embedded database of one data home.
pub mod Status
pub mod Model
pub mod Txn
pub mod Rows
pub mod Disk
pub mod Jobs
pub mod Workflow
pub mod Results
pub mod Resume
pub mod History
pub mod Artifacts
pub mod Settings
pub mod Queries
