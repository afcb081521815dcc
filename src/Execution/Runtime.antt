-- ===== src/Execution/Runtime.antt =====
-- execution/runtime.py: `SingleActionRuntime`. `execute` is one method in the source; here each part
-- of it is a function that ends in the call of the next, so that a proof can go part by part.
pub mod Defs
pub mod Invocation
pub mod Stages
pub mod Paths
pub mod Calls
pub mod Preparation
pub mod Gates
pub mod Authority
pub mod Admission
pub mod AtMostOnce
pub mod Records
pub mod Replay
pub mod Results
pub mod Interleavings
pub mod Audit
pub mod Triples
pub mod StoredResults
pub mod StoredRuns
pub mod ReplayedResults
pub mod Progress
pub mod Successes
pub mod Example
mod Tests
