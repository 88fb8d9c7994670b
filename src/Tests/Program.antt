-- ===== src/Tests/Program.antt =====
-- A program whose jail exits, from end to end.
use eval_python.Prelude.{
  ℕ, ◌+◌, ◌^◌, ◌≡◌, ◌↔◌, refl, ap, arith, true, false, some, none, List, [], ◌∷◌, length, ok, done,
  pos, Io,
}
use eval_python.Sys.Status.{WaitidStatus, exited, signaled}
use eval_python.Parent.{setup_child}
use eval_python.Init.Start.{InitKernel, in_child, returned, watch}
use eval_python.Init.Reported.{waited_until}
use eval_python.Jail.Write.{write_message}
use eval_python.Jail.Wait.{Jail, interrupted}
use eval_python.Jail.Spawn.{handle, SpawnKernel, jail_of, new_jail}
use eval_python.Program.{ProgramKernel, clean, redirect_log, main}
use eval_python.Program.Clean.{IsCleanExit, main-clean}
use eval_python.Tests.Options.{run_args, run_options, run_new, quoted, quiet_host}
use eval_python.Tests.Init.{sleeping}
use eval_python.Init.Wait.{WaitKernel, ready}
use eval_python.Tests.Parent.{helping, jail_cgroup}
use eval_python.Tests.Start.{eight_cpus, starting}
use eval_python.Tests.Jail.{kernel as receiving, exit_status, one_codec, bytes, all_sent}

abbrev spawning : SpawnKernel eight_cpus
spawning = record {
  known = λ n. false;
  pair = done tt;
  now = 4;
  forked = done in_child;
  cloned = λ args size. pos 42;
  init = starting;
  parent = helping;
  killed = λ child. done tt;
}

abbrev running : Jail
running = jail_of eight_cpus spawning 42 run_options (jail_cgroup ∷ [])

jail_spawned : (new_jail eight_cpus spawning run_options).1 ≡ ok (handle running)
unfolding new_jail setup_child eval_python.Sys.Files.clone3 eval_python.Sys.Status.to_u64
    eval_python.Sys.Errno.check_err eval_python.Parent.Pid.get_pid eval_python.Prelude.split
    eval_python.Cgroups.new_cgroup eval_python.Cgroups.add_pid eval_python.Prelude.join
    eval_python.Prelude.digit eval_python.Prelude.spell
jail_spawned = refl

-- a child that exits at once
abbrev exiting : WaitKernel
exiting = record sleeping {
  rounds = record { now = 0; reply = ready (6 ∷ []) } ∷ [];
  waited = ok (record exit_status { wall_time = 0 });
  ended = 9;
}

abbrev sent : List ℕ → Io (Unit {0})
sent chunk = done tt

abbrev init : InitKernel eight_cpus
init = record starting { waits = exiting; status_sent = λ s. (write_message one_codec sent s).1 }

watched : (watch eight_cpus init 2 run_options).1 ≡ ok returned
unfolding watch write_message eval_python.Sys.Files.pidfd_open eval_python.Sys.Errno.check_err
    eval_python.Sys.Files.send_file eval_python.Init.WaitChild.wait_child
    eval_python.Init.WaitChild.wait_receive_seccomp_fd
    eval_python.Init.Wait.wait_read_seccomp_notification
watched = refl

status_waited :
    (waited_until eight_cpus init 2 run_options (init.now + run_options.wall_time_limit)).1
    ≡ some (ok exit_status)
unfolding eval_python.Init.WaitChild.wait_child eval_python.Init.WaitChild.wait_receive_seccomp_fd
    eval_python.Init.Wait.wait_read_seccomp_notification
status_waited = refl

abbrev program : ProgramKernel eight_cpus
program = record {
  created = done tt;
  appended = done 3;
  duplicated = done tt;
  host = quiet_host;
  debug = quoted;
  debug_status = λ status. "";
  spawning = spawning;
  waiting = receiving;
}

log_kept : (redirect_log eight_cpus one_codec program run_args.stderr).1 ≡ ok tt
unfolding redirect_log
log_kept = refl

main-clean_example :
    ((main eight_cpus one_codec program run_args).1 ≡ ok clean) ↔ IsCleanExit exit_status.status
main-clean_example =
    main-clean eight_cpus one_codec program run_args run_options running init 2 sent exit_status
      bytes (interrupted ∷ []) [] log_kept run_new jail_spawned (λ s. refl) watched status_waited
      refl refl (omega arith) all_sent refl
