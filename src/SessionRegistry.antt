-- ===== src/SessionRegistry.antt =====
-- scripts/runtime_host/session_registry.py: the bounded registry of host session handles.
pub mod Owner
pub mod Handles
pub mod Entries
pub mod Eviction
pub mod Bounds
pub mod Release
pub mod ReleaseCalls
pub mod Resolution
pub mod Examples
