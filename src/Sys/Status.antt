-- ===== src/Sys/Status.antt =====
-- `WaitStatus`, `WaitidStatus` and `waitid` of src/sys.rs.
use eval_python.Prelude.{
  ℕ, zero, suc, ◌+◌, ◌*◌, ◌%◌, ◌^◌, Bool, [], Duration, from_secs, from_micros, Outcome, ok, err,
  bail, errno, with_context, ◌>>=◌, ℤ, pos, negsuc, bits_64, is_negative_64, if◌then◌else◌,
}
use eval_python.Sys.Errno.{check_err}
use eval_python.Sys.Seccomp.{out_of_range}

-- A process is its number, a signal is its number, and an exit code and a system call are `i32`.
pub data WaitStatus : Type 0 where
  exited : ℕ → ℤ → WaitStatus
  syscalled : ℕ → ℤ → WaitStatus
  signaled : ℕ → ℕ → WaitStatus

pub record WaitidStatus : Type 0 where
  pub status : WaitStatus
  pub user_time : Duration
  pub system_time : Duration
  pub wall_time : Duration
  pub max_rss : ℕ

-- What waitid(2) returns and writes: the fields of `KernelSiginfo` and `Rusage` that are read.
pub record WaitidReply : Type 0 where
  pub result : ℤ
  pub si_code : ℤ
  pub si_pid : ℕ
  pub si_status : ℤ
  pub utime_sec : ℤ
  pub utime_usec : ℤ
  pub stime_sec : ℤ
  pub stime_usec : ℤ
  pub maxrss : ℤ

-- `u64::try_from` of an `i64`
unfoldable pub to_u64 : ℤ → Outcome ℕ
to_u64 (pos n) = ok n
to_u64 (negsuc n) = out_of_range

-- `(maxrss * 1024).try_into()`, where the product wraps
unfoldable pub max_rss_bytes : ℤ → Outcome ℕ
max_rss_bytes maxrss =
    let bits = bits_64 maxrss * 1024 % 2 ^ 64 in
    if is_negative_64 bits then out_of_range else ok bits

-- `Signal::try_from`: `signals` tells the numbers that nix has a `Signal` for
unfoldable pub to_signal : (ℕ → Bool) → ℤ → Outcome ℕ
to_signal signals (pos n) =
    if signals n then ok n else err (record { contexts = []; cause = errno 22 })
to_signal signals (negsuc n) = err (record { contexts = []; cause = errno 22 })

-- the `match` on `si_code`: CLD_EXITED, CLD_KILLED and CLD_DUMPED; the text of the error is without
-- the `{:?}` of the structure that follows it
unfoldable pub status_of_code : (ℕ → Bool) → ℤ → ℕ → ℤ → Outcome WaitStatus
unfolding to_signal
status_of_code signals (pos (suc zero)) pid status = ok (exited pid status)
status_of_code signals (pos (suc (suc zero))) pid status = do
  signal ← to_signal signals status
  ok (signaled pid signal)
status_of_code signals (pos (suc (suc (suc zero)))) pid status = do
  signal ← to_signal signals status
  ok (signaled pid signal)
status_of_code signals code pid status = bail "unexpected si_code"

unfoldable pub duration : ℤ → ℤ → Outcome Duration
duration sec usec = do s ← to_u64 sec; us ← to_u64 usec; ok (from_secs s + from_micros us)

unfoldable pub waitid : (ℕ → Bool) → (ℕ → Bool) → WaitidReply → Outcome WaitidStatus
waitid known signals reply = do
  value ← with_context "waitid" (check_err known reply.result)
  status ← status_of_code signals reply.si_code reply.si_pid reply.si_status
  system_time ← duration reply.stime_sec reply.stime_usec
  user_time ← duration reply.utime_sec reply.utime_usec
  max_rss ← max_rss_bytes reply.maxrss
  ok (record {
    status = status;
    user_time = user_time;
    system_time = system_time;
    wall_time = 0;
    max_rss = max_rss;
  })
