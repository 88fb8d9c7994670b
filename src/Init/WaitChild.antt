-- ===== src/Init/WaitChild.antt =====
-- `wait_child` and `wait_receive_seccomp_fd` of src/jail/child_init.rs.
use eval_python.Prelude.{
  ℕ, ◌-◌, Bool, true, false, Option, none, some, List, [], ◌∷◌, ◌++◌, Outcome, ok, err, panicked,
  attempt, with_context, if◌then◌else◌, not, ◌>>=◌,
}
use eval_python.Options.Types.{JailOptions}
use eval_python.Sys.Status.{WaitStatus, signaled, WaitidStatus}
use eval_python.Init.Wait.{
  WaitCall, kill, WaitKernel, sigkill, Waited, wait_read_seccomp_notification,
}

unfoldable pub received : WaitKernel → Bool → Outcome (Option ℕ)
received kernel true = do
  fd ← with_context "receive seccomp fd" (attempt kernel.seccomp_fd)
  ok (some fd)
received kernel false = ok none

unfoldable pub wait_receive_seccomp_fd : WaitKernel → Outcome (Option ℕ)
unfolding received
wait_receive_seccomp_fd kernel =
    with_context "wait for seccomp fd message" kernel.fd_available >>= received kernel

-- An error is logged, and the child is killed; the result of that is not looked at.
unfoldable pub fd_or_kill : Outcome (Option ℕ) → List WaitCall × Outcome (Option ℕ)
fd_or_kill (ok fd) = ([], ok fd)
fd_or_kill (err e) = (kill sigkill ∷ [], ok none)
fd_or_kill panicked = ([], panicked)

unfoldable pub status_or_kill :
    Outcome (Option WaitStatus) → List WaitCall × Outcome (Option WaitStatus)
status_or_kill (ok status) = ([], ok status)
status_or_kill (err e) = (kill sigkill ∷ [], ok none)
status_or_kill panicked = ([], panicked)

unfoldable pub waited_or_kill :
    ℕ → WaitKernel → ℕ → Outcome WaitidStatus → List WaitCall × Outcome WaitidStatus
waited_or_kill child kernel child_start (ok status) = ([], ok status)
waited_or_kill child kernel child_start (err e) = (
  kill sigkill ∷ [],
  ok (record {
    status = signaled child sigkill;
    user_time = 0;
    system_time = 0;
    wall_time = kernel.ended - child_start;
    max_rss = 0;
  }),
)
waited_or_kill child kernel child_start panicked = ([], panicked)

-- the status of waitid, unless there is another one
abbrev pub overridden : Option WaitStatus → WaitidStatus → WaitidStatus
overridden none status = status
overridden (some s) status = record status { status = s }

module _ (kernel : WaitKernel) (child : ℕ) where
  -- the calls of `wait_child`, and its status once it ends
  abbrev pub ChildWaited : Type 0
  ChildWaited = List WaitCall × Option (Outcome WaitidStatus)

  unfoldable pub finish : ℕ → JailOptions → Option WaitStatus → ChildWaited
  unfolding waited_or_kill
  finish child_start opts override_status =
      let (kills, waited) = waited_or_kill child kernel child_start kernel.waited in
      (
        kills,
        some (
            waited >>= λ status. ok (
              overridden override_status (record status {
                wall_time = kernel.ended - child_start;
                max_rss = status.max_rss - opts.vm_memory_size_in_bytes;
              }))),
      )

  -- the `match` on the result of the wait for a notification
  unfoldable pub after_status :
      ℕ → JailOptions → List WaitCall × Outcome (Option WaitStatus) → ChildWaited
  unfolding finish
  after_status child_start opts (kills, ok status) =
      let (calls, r) = finish child_start opts status in (kills ++ calls, r)
  after_status child_start opts (kills, err e) = (kills, some (err e))
  after_status child_start opts (kills, panicked) = (kills, some panicked)

  unfoldable pub after_loop : ℕ → JailOptions → Waited → ChildWaited
  unfolding after_status status_or_kill
  after_loop child_start opts (calls, none) = (calls, none)
  after_loop child_start opts (calls, some result) =
      let (more, r) = after_status child_start opts (status_or_kill result) in (calls ++ more, r)

  unfoldable pub after_fd : ℕ → ℕ → JailOptions → List WaitCall × Outcome (Option ℕ) → ChildWaited
  unfolding after_loop
  after_fd child_start deadline opts (kills, ok fd) =
      let (calls, r) =
        after_loop child_start opts (wait_read_seccomp_notification kernel child deadline fd) in
      (kills ++ calls, r)
  after_fd child_start deadline opts (kills, err e) = (kills, some (err e))
  after_fd child_start deadline opts (kills, panicked) = (kills, some panicked)

  unfoldable pub wait_child : ℕ → ℕ → JailOptions → ChildWaited
  unfolding after_fd fd_or_kill
  wait_child child_start deadline opts =
      if not opts.disable_sandboxing
      then after_fd child_start deadline opts (fd_or_kill (wait_receive_seccomp_fd kernel))
      else finish child_start opts none
