-- ===== src/Options.antt =====
-- src/jail/options.rs: the arguments of the command line turned into the options of a jail.
pub mod Types
pub mod Sources
pub mod Streams
pub mod Compile
pub mod Run
pub mod Binds
pub mod New
pub mod Built
pub mod LanguageMounts
pub mod AllMounts
pub mod BindCases
pub mod StreamMounts
pub mod Confined
pub mod SourceLanguages
pub mod Jobs
pub mod Choices
pub mod Limits
pub mod Writable
