-- ===== src/Tests.antt =====
-- One concrete run of each theorem that has hypotheses, on a file with two profiles.
pub mod Machine
pub mod Settings
pub mod Account
pub mod Handlers
pub mod Threads
pub mod Garbage
pub mod Files
pub mod Elastic
pub mod Tunnels
