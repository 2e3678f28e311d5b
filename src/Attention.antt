-- ===== src/Attention.antt =====
-- scripts/runtime_contract/standalone_attention.py: bounded attention over a task's criteria.
pub mod Facts
pub mod Policy
pub mod State
pub mod Snapshot
pub mod Window
pub mod Redirects
pub mod Progress
pub mod RoundTrip
pub mod Examples
