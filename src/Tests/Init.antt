-- ===== src/Tests/Init.antt =====
-- Dropping privileges, and waits for a child that end in the ways that a wait can end.
use eval_python.Prelude.{
  ℕ, ◌≡◌, refl, arith, Bool, true, false, List, [], ◌∷◌, ◌++◌, some, none, All, ok, done, pos, ◌⊎◌,
  ltb,
}
use eval_python.Sys.Capabilities.{
  PrivilegeKernel, set_securebits, clear_ambient, set_capabilities, all_securebits,
}
use eval_python.Sys.Status.{signaled, WaitidStatus, WaitidReply, waitid}
use eval_python.Sys.Waited.{IsStatusOf, IsTime, IsRss, waitid-IsReply}
use eval_python.Init.Privileges.{drop_privileges}
use eval_python.Init.Dropped.{drops, no_words, IsGranted, drop_privileges-Made}
use eval_python.Init.Wait.{WaitKernel, Round, sigxcpu, Waited, ready, interrupted, wait_loop}
use eval_python.Init.Deadline.{IsQuiet, timeouts, IsDecided, wait_loop-cases, wait_loop-ends}
use eval_python.Init.TimeLimit.{reported}
use eval_python.Tests.Options.{run_options}

-- `NOROOT` and `NO_SETUID_FIXUP` with their locks, and none of the kernel's bits 4 to 7
securebits_set : all_securebits ≡ 15
unfolding all_securebits
securebits_set = refl

abbrev pub granting : PrivilegeKernel
granting = record { known = λ n. false; syscall = λ c. pos 0; last_cap = ok 2 }

privileges_dropped : (drop_privileges granting).1 ≡ ok tt
unfolding drop_privileges eval_python.Sys.Capabilities.set_all_securebits
    eval_python.Sys.Errno.check_err eval_python.Sys.Capabilities.capset
privileges_dropped = refl

drop_privileges-Made_example :
    ((drop_privileges granting).0
      ≡ set_securebits all_securebits
        ∷ clear_ambient
        ∷ (drops 0 3 ++ set_capabilities no_words no_words ∷ []))
    × All (IsGranted granting) (drop_privileges granting).0
drop_privileges-Made_example = drop_privileges-Made granting 2 refl (omega arith) privileges_dropped

-- a process that an abort has ended, with a core
abbrev aborted : WaitidReply
aborted = record {
  result = pos 0;
  si_code = pos 3;
  si_pid = 2;
  si_status = pos 6;
  utime_sec = pos 1;
  utime_usec = pos 500;
  stime_sec = pos 0;
  stime_usec = pos 20;
  maxrss = pos 2048;
}

abbrev known_signals : ℕ → Bool
known_signals n = ltb 0 n

abbrev pub abort_status : WaitidStatus
abort_status = record {
  status = signaled 2 6;
  user_time = 1000500000;
  system_time = 20000;
  wall_time = 0;
  max_rss = 2097152;
}

abort_waited : waitid known_signals known_signals aborted ≡ ok abort_status
unfolding waitid eval_python.Sys.Errno.check_err eval_python.Sys.Status.status_of_code
    eval_python.Sys.Status.duration eval_python.Sys.Status.to_u64
    eval_python.Sys.Status.max_rss_bytes
abort_waited = refl

waitid-IsReply_example :
    ((value : ℕ) × (pos 0 ≡ pos value))
    × IsStatusOf known_signals aborted (signaled 2 6)
    × IsTime (pos 0) (pos 20) 20000
    × IsTime (pos 1) (pos 500) 1000500000
    × IsRss (pos 2048) 2097152
    × (abort_status.wall_time ≡ 0)
waitid-IsReply_example =
    waitid-IsReply known_signals known_signals aborted abort_status abort_waited

-- Two passes before a deadline in which nothing happens, and one after it.
abbrev pub first_round : Round
first_round = record { now = 0; reply = interrupted }

abbrev pub second_round : Round
second_round = record { now = 4000000; reply = ready [] }

abbrev pub late_round : Round
late_round = record { now = 10000001; reply = ready [] }

abbrev pub sleeping : WaitKernel
sleeping = record {
  fd_available = ok true;
  seccomp_fd = done 4;
  epoll = done 5;
  pidfd = done 6;
  filter_added = done tt;
  child_added = done tt;
  notification_size = ok 80;
  interruptions = 0;
  notification = none;
  killed = done tt;
  rounds = first_round ∷ second_round ∷ late_round ∷ [];
  waited = ok abort_status;
  ended = 10000005;
}

abbrev quiet_rounds : List Round
quiet_rounds = first_round ∷ second_round ∷ []

wait_loop-cases_example :
    (All (IsQuiet 10000000) sleeping.rounds
      × (wait_loop sleeping 2 6 10000000 sleeping.rounds
          ≡ (timeouts 10000000 sleeping.rounds, none)))
    ⊎ ((quiet : List Round) × (round : Round) × (rest : List Round) × (sleeping.rounds
          ≡ quiet ++ round ∷ rest)
        × All (IsQuiet 10000000) quiet
        × (w : Waited) × IsDecided 10000000 sleeping 2 6 round w
        × (wait_loop sleeping 2 6 10000000 sleeping.rounds ≡ (timeouts 10000000 quiet ++ w.0, w.1)))
wait_loop-cases_example = wait_loop-cases 10000000 sleeping 2 6 sleeping.rounds

wait_loop-ends_example : ¬ (wait_loop sleeping 2 6 10000000 sleeping.rounds).1 ≡ none
wait_loop-ends_example =
    wait_loop-ends 10000000 sleeping 2 6 quiet_rounds late_round [] (omega arith)

abbrev pub sleep_status : WaitidStatus
sleep_status = reported sleeping 2 0 10000000 run_options (some (signaled 2 sigxcpu)) abort_status
