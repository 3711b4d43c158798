-- ===== src/Lifecycle.antt =====
-- internal/lifecycle: the transitions of workspaces and assignments. Each operation of the service
-- is a function from the state that Store.Update hands to its callback; the clock and the
-- identifiers that the service draws from its options are arguments. `Records` holds what the
-- operations share; `Step` joins them.
pub mod Records
pub mod Clock
pub mod Preparation
pub mod Assignment
pub mod Renewal
pub mod Activity
pub mod Return
pub mod Collection
pub mod Process
pub mod Gc
pub mod Keeps
pub mod Step
pub mod Retries
pub mod Reservation
pub mod Lookup
pub mod Frames
pub mod Eligibility
