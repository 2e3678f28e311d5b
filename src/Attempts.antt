-- ===== src/Attempts.antt =====
-- scripts/runtime_session/attempts.py: how a session records its attempts in the tracker of causes,
-- the ledger shared with other agents, the task evidence and the standalone attention.
pub mod Session
pub mod Begin
pub mod Record
pub mod Blocking
pub mod Repeats
pub mod Refusals
pub mod Examples
