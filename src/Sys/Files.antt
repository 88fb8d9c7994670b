-- ===== src/Sys/Files.antt =====
-- `clone3`, `seccomp_get_notification_size`, `pidfd_open`, `close_range` and the traits for sending
-- files of src/sys.rs.
use eval_python.Prelude.{
  ℕ, ◌-◌, ◌^◌, ltb, Bool, Option, none, some, Outcome, ok, Io, done, failed, with_context, ◌>>=◌, ℤ,
  if◌then◌else◌,
}
use eval_python.Sys.Errno.{check_err}
use eval_python.Sys.Seccomp.{out_of_range}
use eval_python.Sys.Status.{to_u64}

-- the flags are a C `int`, and so is the signal
pub record CloneArgs : Type 0 where
  pub flags : ℤ
  pub exit_signal : ℤ

pub record LinuxCloneArgs : Type 0 where
  pub flags : ℕ
  pub pidfd : ℕ
  pub child_tid : ℕ
  pub parent_tid : ℕ
  pub exit_signal : ℕ
  pub stack : ℕ
  pub stack_size : ℕ
  pub tls : ℕ
  pub set_tid : ℕ
  pub set_tid_size : ℕ
  pub cgroup : ℕ

-- `size_of::<LinuxCloneArgs>()`: eleven fields of eight bytes
abbrev pub clone_args_size : ℕ
clone_args_size = 88

-- `try_into` of a value of a system call, to an `i32`
unfoldable pub to_fd : ℕ → Outcome ℕ
to_fd n = if ltb n (2 ^ 31) then ok n else out_of_range

unfoldable pub linux_clone_args : CloneArgs → Outcome LinuxCloneArgs
linux_clone_args args = do
  flags ← to_u64 args.flags
  exit_signal ← to_u64 args.exit_signal
  ok (record {
    flags = flags;
    pidfd = 0;
    child_tid = 0;
    parent_tid = 0;
    exit_signal = exit_signal;
    stack = 0;
    stack_size = 0;
    tls = 0;
    set_tid = 0;
    set_tid_size = 0;
    cgroup = 0;
  })

-- the sizes that the kernel writes, each of 16 bits
pub record SeccompNotifSizes : Type 0 where
  pub seccomp_notif : ℕ
  pub seccomp_notif_resp : ℕ
  pub seccomp_data : ℕ

-- the number after CLOSE_RANGE's first: the last one, or `~0U`
abbrev pub last_or_all : Option ℕ → ℕ
last_or_all none = 2 ^ 32 - 1
last_or_all (some last) = last

-- `known` is that of `check_err`. A value of `syscall` is that of the system call on its arguments.
module _ (known : ℕ → Bool) where
  unfoldable pub clone3 : (LinuxCloneArgs → ℕ → ℤ) → CloneArgs → Outcome ℕ
  unfolding linux_clone_args to_fd
  clone3 syscall args = do
    linux_args ← linux_clone_args args
    pid ← with_context "clone3" (check_err known (syscall linux_args clone_args_size))
    to_fd pid

  -- the value of the system call, and what it has written
  unfoldable pub seccomp_get_notification_size : ℤ → SeccompNotifSizes → Outcome ℕ
  seccomp_get_notification_size result sizes = do
    value ← with_context "seccomp(SECCOMP_GET_NOTIF_SIZES)" (check_err known result)
    ok sizes.seccomp_notif

  unfoldable pub pidfd_open : (ℕ → ℕ → ℤ) → ℕ → ℕ → Outcome ℕ
  unfolding to_fd
  pidfd_open syscall pid flags = do fd ← check_err known (syscall pid flags); to_fd fd

  unfoldable pub close_range : (ℕ → ℕ → ℕ → ℤ) → ℕ → Option ℕ → ℕ → Outcome (Unit {0})
  close_range syscall first last flags = do
    value ← check_err known (syscall first (last_or_all last) flags)
    ok tt

-- A file is its descriptor; passfd gives the results.
unfoldable pub recv_file : Io ℕ → Io ℕ
recv_file (done fd) = done fd
recv_file (failed why) = failed why

unfoldable pub send_file : (ℕ → Io (Unit {0})) → ℕ → Io (Unit {0})
send_file send_fd file = elim (send_fd file) [ done a ↦ done tt | failed why ↦ failed why ]
