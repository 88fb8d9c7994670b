-- ===== src/Lib.antt =====
-- omegajail, the sandbox of omegaUp (src/*.rs and src/jail/*.rs of the repository).
--
-- The program runs one untrusted program. `JailOptions::new` (src/jail/options.rs) turns the
-- command line (src/args.rs) into the options of a jail: the command, the mounts, the filter of
-- system calls and the limits. `Jail::new` (src/jail/mod.rs) starts the sandboxed init process
-- (src/jail/child_init.rs), helps it from outside (src/jail/parent.rs, src/jail/cgroups.rs) and
-- waits for its message. The init process sets up namespaces and mounts, drops its privileges
-- and starts the jailed process (src/jail/child.rs), which sets its limits, installs the filter
-- and executes the program. The init process waits for it, with a deadline, and reports a
-- status. src/sys.rs wraps the system calls.
--
-- How the files correspond to the code:
--   Prelude         tests on numbers, lists, texts (`format!`, `split`, `ends_with`), paths
--                   (`join`, `parent`), durations, `anyhow::Result` (`Outcome`, with contexts and
--                   panics), integers, readers of numbers and of lines, and code that calls the
--                   system (`Traced`: the calls made, and the outcome). Texts are lists of
--                   characters, bytes are numbers.
--   Args            src/args.rs: `Language` and `Args`. clap's parser is outside.
--   Options         src/jail/options.rs. Types has `JailOptions`, `MountArgs`, `Stdio` and the
--                   host; Streams the three streams; Compile and Run one function for each
--                   language; Sources `add_sources`; Binds the binds; New the whole of
--                   `JailOptions::new`. The proofs: Built takes a successful `new` apart,
--                   LanguageMounts, AllMounts and StreamMounts are about every mount, Writable and
--                   Confined say which ask to be writable and where they are put, BindCases is about one
--                   bind, SourceLanguages about `add_sources`; Jobs, Choices and Limits about
--                   commands, filters and limits.
--   Sys             src/sys.rs: Files has `clone3`, `pidfd_open`, `close_range` and the files that
--                   are sent, Serde the serde helpers; Errno has `check_err`, Capabilities
--                   `capset`, `set_all_securebits` and `set_no_new_privs`, Seccomp the two
--                   filters, Status `waitid`. The proofs: Waited.
--   Child           src/jail/child.rs, all of it. The proofs: Limits, Executed, Filtered and
--                   Order.
--   Init            src/jail/child_init.rs: Start has `run` on both sides of the fork, Affinity
--                   `set_cpu_affinity`; Privileges has `drop_privileges`; Wait has
--                   `wait_read_seccomp_notification`, WaitChild `wait_child`; Streams has
--                   `setup_unsandboxed_filesystem` and the streams of `setup_mount_namespace`,
--                   Namespaces the rest of it. The proofs: Dropped, Deadline, TimeLimit, Mounted,
--                   and Descriptors, Redirected and Unsandboxed on the table of descriptors;
--                   FirstCpu; Forked and BeforeFork on what is before the fork, Confined on all
--                   that is mounted by then, Reported on what is after it, and Inherited on the descriptors that are closed.
--   Jail            src/jail/mod.rs: Messages and Write have the messages, Spawn has `Command` and
--                   `Jail::new`, Wait has `Jail::wait` and the meta file. The proofs: Frames,
--                   Handle, Returned and Recorded, which has the reader of Meta.
--   Cgroups         src/jail/cgroups.rs. The proofs: Search.
--   Parent          src/jail/parent.rs; Pid has `get_pid_from_pidfd`. The proofs: Setup, and the
--                   last lemma of Pid.
--   Protocol        the processes together, as a step relation: `setup_child` and `Jail::wait`,
--                   `run` of src/jail/child_init.rs and `run` of src/jail/child.rs, as far as
--                   they wait for one another. Invariant and Kept have the invariant, Safe, Progress, Faultless
--                   and Live what follows from it; Script compares a run of the parent with the
--                   calls of `setup_child`.
--   Program         src/omegajail.rs. The proofs: Clean, from the init process to the end of `main`.
--   JavaCompile     src/java_compile.rs. The proofs: Trimmed and Compiled.
--   Tests           runs at concrete inputs.
--
-- What the system answers is a parameter: the `Host` of the options (files that exist,
-- canonical paths, the contents of filters), the `PrivilegeKernel`, the `ChildKernel`, the
-- `StreamKernel`, the `WaitKernel`, the `JailKernel`, the `CgroupKernel`, the `NamespaceKernel`, the
-- `ParentKernel`, the `InitKernel`, the `SpawnKernel`, the `ProgramKernel` and the `CompileKernel`.
-- nix's `CpuSet` is the interface `CpuSets`, with laws on its operations. The others are values
-- and functions without any hypothesis; a theorem that needs one states it. The same holds for
-- what nix knows: the numbers that have an `Errno` or a `Signal`. The text of `{:?}` is a
-- parameter where only error messages hold it.
--
-- Numbers are unbounded, with the wrap-around or the failed conversion written out where the
-- code has one. A Duration is its number of nanoseconds. The arithmetic is that of a release
-- build. The loops: the sources and the capabilities are recursions on what is left; the wait
-- for the child takes a list of passes, one for each time around the loop with the clock and
-- the reply of epoll_wait, and `none` says that the list was over before the loop ended. So
-- does the loop of `Jail::wait` with the replies of waitpid. The reads that are repeated after
-- an interruption take the number of interruptions, which is finite. The processors are a
-- recursion on how many are left.
--
-- In Protocol, the message with the descriptor of the filter, from the jailed process to the init
-- process, is part of the step in which the init process waits: the jailed process sends it
-- before it waits itself. A process that is killed counts as ended at once.
--
-- Not modelled: clap's parsers, env_logger and println; src/lib.rs, which names modules;
-- src/test_helper.rs and src/attack_bert.rs, programs that tests run in the jail. Logging has no
-- effect on results. Closing a descriptor by dropping its owner is a call of the model only
-- where the streams are redirected and after a fork; what an early return of `run` drops is in
-- Protocol.
mod Prelude
pub mod Args
pub mod Options
pub mod Sys
pub mod Child
pub mod Init
pub mod Jail
pub mod Cgroups
pub mod Parent
pub mod Protocol
pub mod Program
pub mod JavaCompile
mod Tests
