-- ===== src/Tests.antt =====
-- Examples, each of a theorem at a concrete input.
pub mod Fixtures
pub mod Link
pub mod Parts
pub mod Start
pub mod Client
pub mod Logs
pub mod Ends
pub mod Meeting
pub mod Rendezvous
pub mod Server
pub mod Moves
