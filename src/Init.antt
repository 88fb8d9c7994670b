-- ===== src/Init.antt =====
-- src/jail/child_init.rs: the sandboxed init process.
pub mod Privileges
pub mod Dropped
pub mod Wait
pub mod WaitChild
pub mod Deadline
pub mod TimeLimit
pub mod Streams
pub mod Descriptors
pub mod Redirected
pub mod Unsandboxed
pub mod Namespaces
pub mod Mounted
pub mod Affinity
pub mod FirstCpu
pub mod Start
pub mod Forked
pub mod BeforeFork
pub mod Confined
pub mod Inherited
pub mod Reported
