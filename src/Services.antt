-- ===== src/Services.antt =====
-- The services of internal/lifecycle, which compose the transitions with locks, processes and git.
pub mod Failure
pub mod Effects
pub mod Keeps
pub mod Triples
pub mod Gives
pub mod Release
