-- ===== src/Init/TimeLimit.antt =====
-- The status that `wait_child` of src/jail/child_init.rs returns.
use eval_python.Prelude.{Error, ℕ, ◌-◌, ◌≡◌, Option, ok, err, ◌⊎◌}
use eval_python.Options.Types.{JailOptions}
use eval_python.Sys.Status.{WaitStatus, signaled, WaitidStatus}
use eval_python.Init.Wait.{WaitKernel, sigkill}
use eval_python.Init.WaitChild.{overridden}

module _ (kernel : WaitKernel) (child child_start deadline : ℕ) (opts : JailOptions) where
  -- the status that is reported for one of waitid, and another one that goes before it
  abbrev pub reported : Option WaitStatus → WaitidStatus → WaitidStatus
  reported override_status status = overridden override_status (record status {
    wall_time = kernel.ended - child_start;
    max_rss = status.max_rss - opts.vm_memory_size_in_bytes;
  })

  -- What `reported` is made of: the status of waitid, or `SIGKILL` with no times where waitid fails.
  abbrev pub IsWaited : WaitidStatus → Type 0
  IsWaited status =
      (kernel.waited ≡ ok status)
      ⊎ ((failure : Error) × (kernel.waited ≡ err failure)
          × (status.status ≡ signaled child sigkill)
          × (status.user_time ≡ 0)
          × (status.system_time ≡ 0)
          × (status.max_rss ≡ 0))

  abbrev pub IsReported : WaitidStatus → Type 0
  IsReported s =
      (override_status : Option WaitStatus) × (status : WaitidStatus) × IsWaited status
      × (s ≡ reported override_status status)
