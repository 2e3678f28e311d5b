-- ===== src/Convergence.antt =====
-- scripts/runtime_contract/convergence.py: attempt facts, retry budgets and the retry gate.
pub mod Identity
pub mod State
pub mod Transitions
pub mod Tracker
pub mod Enforcer
pub mod Calls
pub mod Effects
pub mod Histories
pub mod Isolation
pub mod Gate
pub mod Finality
pub mod Budget
pub mod Snapshot
pub mod RoundTrip
pub mod Keys
pub mod Reachability
pub mod Ledger
pub mod LedgerLaws
pub mod LedgerMemory
pub mod Examples
pub mod StoreExamples
