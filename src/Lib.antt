-- ===== src/Lib.antt =====
-- The cognitive framework works runtime: the parts that decide whether an agent may act again.
--
-- The repository is a control runtime around a coding agent. A host (scripts/runtime_host) holds
-- sessions; a session (scripts/runtime_session) resolves a task into protocols and criteria
-- (scripts/resolver), gates each action of the agent, and records what came of it; the contracts
-- that these decisions follow are in scripts/runtime_contract. This library models the contracts
-- and the host's registry, each part as values and functions, with the state that a Python object
-- keeps passed from call to call.
--
-- Prelude
--   Python's built-in types as the other parts use them: tests, lists, texts, dictionaries (which
--   are association lists in insertion order), sorted items and results.
--
-- Convergence (scripts/runtime_contract/convergence.py)
--   Identity is ConvergenceIdentity, its key, and AttemptDescriptor; State is RejectedPath and
--   RetryState with their dictionaries. Transitions is what each recording method of
--   AttemptEvidenceTracker does to one state, Tracker the states by key, the limits and every
--   method. Enforcer is RetryBoundaryEnforcer.evaluate, the gate of a further attempt. Calls,
--   Effects and Histories are sequences of calls, what one call does to any state, and invariants.
--   Gate, Budget, Finality and Isolation are about when an attempt is allowed, how recovery runs
--   out, what a block is, and causes that do not touch each other. Snapshot and RoundTrip export
--   and restore; Keys and Reachability are about the trackers that calls and restores lead to.
--   Ledger, LedgerLaws and LedgerMemory are about SharedBranchLedger, the table that agents share.
--
-- SessionRegistry (scripts/runtime_host/session_registry.py)
--   Owner is _owner_identity, Handles is HostSessionRegistry with every method. Entries, Eviction
--   and Bounds are about which handles are left, the loop that makes room, and the bound; Release
--   and ReleaseCalls about when the resources of a session are closed; Resolution about the session
--   to which a handle resolves.
--
-- Attention (scripts/runtime_contract/standalone_attention.py)
--   Facts is CriterionState, ActivityFact and AttemptSemanticDescriptor of
--   scripts/runtime_contract/behavior_facts.py. Policy and Window are StandaloneAttentionPolicy and
--   what its window shows. State, Redirects and Progress are StandaloneAttentionState, how often it
--   redirects, and what clears that. Snapshot and RoundTrip are its snapshot and restore.
--
-- StandaloneBehavior (scripts/runtime_session/standalone_behavior_policy.py)
--   Policy is the facts, the decisions and decide, by which a session goes that no provider
--   advises, with CompletionReadiness of scripts/runtime_contract/task_evidence.py; Decisions is
--   about when it decides what.
--
-- TaskEvidence (scripts/runtime_contract/task_evidence.py)
--   Records is BlockerFact, CriterionEvidenceBinding, VerificationObligation and
--   WorkflowProgressFact; State is TaskEvidenceState with its views and ensure_criteria. Activity
--   is record_activity and its parts, Methods the other methods that record. Calls, History,
--   Changes and Preservation are sequences of calls, and the steps that an invariant must survive.
--   Bounds, Soundness, Commit, Obligations, Limits and Errors are about what the ledger keeps, when
--   a commit succeeds, what a changed artifact asks for, the budget of verifications, and the
--   errors that leave a trace.
--
-- Actions (scripts/runtime_contract/actions.py)
--   Values is the Python values in a request, Paths ProtectedResourcePolicy. Descriptor and
--   Registry are ActionDescriptor, its classification of a request, and the registries. Binding,
--   Request and Grants are ActionObjectiveBinding, AgentActionRequest, and ConfirmationGrant with
--   the choice of a grant by HostExecutionContext. Containment, Targets and Writes are about paths
--   below a root, what a text names, and which writes pass; Classification about how a request is
--   classified; Lookup about what a registry holds; Signing and Confirmation about what bindings
--   and grants are good for.
--
-- Attempts (scripts/runtime_session/attempts.py)
--   These methods change the tracker and the shared ledger of Convergence, Attention and
--   TaskEvidence. Session is AttemptConvergenceState of
--   scripts/runtime_session/state.py with the other parts of a session that the methods use, and
--   EvidenceRecord. Begin and Record are _begin_attempt, _record_attempt_failure,
--   _record_reinspection, _reject_investigative_path and _shared_branch_exhausted. Blocking,
--   Repeats and Refusals are about what an exhausted branch means for retries, that an attempt
--   counts once, and what an error leaves behind.
--
-- Each part has a module of examples, which runs it at concrete inputs.
--
-- How the code is rendered
--   A method that mutates its object takes the old state and returns the new one; one that
--   raises returns an error of Prelude.Result, and the caller keeps the state before the call,
--   except in resolve of the registry, restore of attention and the methods of the task evidence
--   and of the attempts, which change the state before they raise and so return both. A lock
--   makes a method one step, and an interleaving of threads is a sequence of calls. Integers
--   that the code keeps from being negative are natural numbers. Texts are sequences of code
--   points, compared as Python compares them.
--
-- Parameters
--   Code outside the repository is an argument: SHA-256, HMAC, json.dumps, str.lower, the file
--   system, the instants of datetime, what bool, str and isinstance answer on a value of unknown
--   type, the dictionary literal of an arbitrary Python value, uuid4 (the fresh token) and the
--   clock (each reading is an argument, in ticks). What a session's attributes answer at a call
--   is an argument of that call.
--
-- Bounds and fuel
--   The loop that makes room in the session registry runs on fuel, one turn for each entry, which
--   is enough since each turn drops one; the loops that trim the task evidence do likewise, on the
--   number of entries. Everything else is structural recursion. The limits (64
--   remembered attempts, 32 rejected paths, a window of 3, 16384 sessions) are those of the code.
--
-- Not modelled
--   In convergence.py the text of compact_state_block, branch_key and two sorted views; SQLite
--   itself, whose table is a list of rows; in session_registry.py the closing of a
--   session's exporters that raises; the guidance text of the standalone policy; snapshot
--   and restore of the task evidence; in actions.py ActionStrategy, action_contract_hash and the
--   defaults that are read from the environment; in attempts.py the journal, the telemetry, and
--   the recording of goal progress, verified criteria and recovery epochs. Of the rest of the
--   repository, the session's gate, completion and lifecycle, the component control and the
--   resolver carry logic that this library does not reach; the installers, acceptance scripts,
--   telemetry and the operator's pages are input and output.
pub mod Prelude
pub mod Actions
pub mod Attempts
pub mod Attention
pub mod Convergence
pub mod SessionRegistry
pub mod StandaloneBehavior
pub mod TaskEvidence
