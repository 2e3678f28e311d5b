-- ===== src/TaskEvidence.antt =====
-- scripts/runtime_contract/task_evidence.py: the ledger of criteria, evidence and workflow facts.
pub mod Records
pub mod State
pub mod Activity
pub mod Methods
pub mod Calls
pub mod History
pub mod Changes
pub mod Preservation
pub mod Bounds
pub mod Soundness
pub mod Commit
pub mod Obligations
pub mod Limits
pub mod Errors
pub mod Examples
