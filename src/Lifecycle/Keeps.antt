-- ===== src/Lifecycle/Keeps.antt =====
-- What the transitions of internal/lifecycle keep of a document that passes the validation of
-- decode.go, under the conditions of Lifecycle/Step: the proofs, a module for each source file.
pub mod Stored
pub mod Maps
pub mod Sound
pub mod Operations
pub mod Acquisitions
pub mod Processes
pub mod Stamps
pub mod Preparation
pub mod Return
pub mod Leases
pub mod Assignment
pub mod Collection
pub mod Process
pub mod Renewal
pub mod Handoff
pub mod Activity
pub mod Actions
pub mod Heartbeat
pub mod Reachable
