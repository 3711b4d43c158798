-- ===== src/Examples.antt =====
-- Concrete inputs for the theorems, and small runs of the definitions.
pub mod Host
pub mod Runs
pub mod Actions
pub mod Plans
pub mod Histories
pub mod Sound
pub mod Processes
pub mod Releases
pub mod Addresses
pub mod Tags
