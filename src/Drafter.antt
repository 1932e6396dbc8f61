-- ===== src/Drafter.antt =====
-- anedraftimpl/ane_draft_darwin.go: the drafter that speculative decoding asks for tokens.
-- `State` has its fields and what it calls, `Runner` the reference runner, `Feed` the handling of
-- one token, and `Calls` the methods of the decode.Drafter interface; the others are proofs.
pub mod Runner
pub mod State
pub mod Feed
pub mod Calls
pub mod Fresh
pub mod Contract
pub mod Steps
pub mod Taken
pub mod Replay
pub mod Trims
pub mod Rebuild
pub mod Guard
pub mod Snapshots
pub mod Drafts
pub mod Answers
pub mod Greedy
pub mod Rewinds
pub mod Restores
pub mod Shorter
pub mod Session
pub mod Drift
pub mod Tests
pub mod DriftTests
