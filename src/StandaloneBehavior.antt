-- ===== src/StandaloneBehavior.antt =====
-- scripts/runtime_session/standalone_behavior_policy.py: the policy of a session without a
-- provider.
pub mod Policy
pub mod Decisions
pub mod Examples
