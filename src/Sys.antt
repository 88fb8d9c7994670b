-- ===== src/Sys.antt =====
-- src/sys.rs: the wrappers of the system calls.
pub mod Errno
pub mod Capabilities
pub mod Seccomp
pub mod Status
pub mod Waited
pub mod Files
pub mod Serde
