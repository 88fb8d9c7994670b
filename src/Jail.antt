-- ===== src/Jail.antt =====
-- src/jail/mod.rs: the messages between the processes, and the handle of a jail.
pub mod Messages
pub mod Write
pub mod Frames
pub mod Wait
pub mod Returned
pub mod Meta
pub mod Recorded
pub mod Spawn
pub mod Handle
