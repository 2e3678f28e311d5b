-- ===== src/Actions.antt =====
-- scripts/runtime_contract/actions.py: which action a request names, how risky the host takes it
-- to be, and which grants confirm it.
pub mod Values
pub mod Paths
pub mod Containment
pub mod Targets
pub mod Writes
pub mod Descriptor
pub mod Registry
pub mod Lookup
pub mod Binding
pub mod Request
pub mod Grants
pub mod Classification
pub mod Signing
pub mod Confirmation
pub mod Examples
