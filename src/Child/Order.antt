-- ===== src/Child/Order.antt =====
-- The order of everything in `run` of src/jail/child.rs.
use eval_python.Prelude.{
  ℕ, zero, suc, ◌≡◌, refl, ap, ◌∙◌, true, false, List, [], ◌∷◌, ◌++◌, attempt, ok, String, All,
  Bool-cases, with_context-eq-ok, inl, inr,
}
use eval_python.Prelude.Traced.{call, context, >>=-eq-ok}
use eval_python.Options.Types.{JailOptions}
use eval_python.Child.{
  ChildCall, empty_mask, unblock_all, execve, ChildKernel, default_actions, setup_process_limits,
  setup_signal_handlers, setup_seccomp_bpf, confine, wait_pipe, execute, run, reads,
}
use eval_python.Child.Executed.{
  limit_calls, executes, >>-executes, >>-quiet, IsApplied, setup_process_limits-Makes,
  setup_process_limits-quiet,
}
use eval_python.Child.Filtered.{
  listener, IsFiltered, setup_seccomp_bpf-IsFiltered, after_listener-quiet,
}

append_eq : {a a' b b' : List ChildCall} → a ≡ a' → b ≡ b' → a ++ b ≡ a' ++ b'
append_eq h k = cc

module _ (kernel : ChildKernel) where
  default_actions-quiet : (signum rounds : ℕ) → executes (default_actions signum rounds) ≡ false
  unfolding default_actions
  default_actions-quiet signum zero = refl
  default_actions-quiet signum (suc rounds) = default_actions-quiet (suc signum) rounds

  setup_signal_handlers-lem :
      (setup_signal_handlers kernel).1 ≡ ok tt
      → (setup_signal_handlers kernel).0 ≡ empty_mask ∷ unblock_all ∷ default_actions 1 32
  unfolding setup_signal_handlers
  setup_signal_handlers-lem h =
      let (a, _, next, trace) =
        >>=-eq-ok
          (context "sigprocmask(SIG_SETMASK, [], nullptr)"
            (call empty_mask (attempt kernel.mask_set)))
          _ h in
      let (b, _, _, trace') =
        >>=-eq-ok
          (context "sigprocmask(SIG_UNBLOCK, ~[], nullptr)"
            (call unblock_all (attempt kernel.unblocked)))
          _ next in
      trace ∙ ap (◌∷◌ empty_mask) trace'

  setup_signal_handlers-quiet : executes (setup_signal_handlers kernel).0 ≡ false
  unfolding setup_signal_handlers
  setup_signal_handlers-quiet =
      >>-quiet
        (context "sigprocmask(SIG_SETMASK, [], nullptr)"
          (call empty_mask (attempt kernel.mask_set)))
        _ refl
        (>>-quiet
          (context "sigprocmask(SIG_UNBLOCK, ~[], nullptr)"
            (call unblock_all (attempt kernel.unblocked)))
          _ refl refl)

  reads-quiet : (interruptions : ℕ) → executes (reads interruptions) ≡ false
  reads-quiet zero = refl
  reads-quiet (suc interruptions) = reads-quiet interruptions

  execute-lem :
      (args env : List String)
      → executes (execute kernel args env).0 ≡ true
      → (program : String) × (rest : List String) × (args ≡ program ∷ rest)
        × ((execute kernel args env).0 ≡ execve program args env ∷ [])
  unfolding execute
  execute-lem [] env h = cc
  execute-lem (program ∷ rest) env h = (program, rest, refl, refl)

  confine-quiet : (opts : JailOptions) → executes (confine kernel opts).0 ≡ false
  unfolding confine setup_seccomp_bpf
  confine-quiet opts = elim (Bool-cases opts.disable_sandboxing) [
    | inl holds ↦ rw holds
    | inr fails ↦ rw fails (after_listener-quiet kernel opts (listener kernel opts))
  ]

  confine-IsFiltered :
      (opts : JailOptions)
      → opts.disable_sandboxing ≡ false
      → (confine kernel opts).1 ≡ ok tt
      → IsFiltered kernel opts (confine kernel opts).0
  unfolding confine
  confine-IsFiltered opts sandboxed h = rw sandboxed (
      setup_seccomp_bpf-IsFiltered kernel opts
        (with_context-eq-ok "setup_seccomp_bpf" _ (rw sandboxed at h)))

  -- If `run` gets as far as executing the program, with the sandbox on, then its calls were, in this
  -- order: every limit that the options ask for, each of which is set; the signal handlers; a filter
  -- of system calls, which is installed (the one with a listener, whose descriptor was handed over, or
  -- the other one where the kernel has no listeners and the fallback is allowed); the wait for the
  -- parent; and the program with the options' arguments and environment, once and last.
  pub run-IsFiltered :
      (opts : JailOptions)
      → opts.disable_sandboxing ≡ false
      → executes (run kernel opts).0 ≡ true
      → (program : String) × (rest : List String) × (calls : List ChildCall) × (opts.args
          ≡ program ∷ rest)
        × All (IsApplied kernel) (limit_calls opts)
        × IsFiltered kernel opts calls
        × ((run kernel opts).0
            ≡ limit_calls opts
              ++ ((empty_mask ∷ unblock_all ∷ default_actions 1 32)
                  ++ (calls
                      ++ (reads kernel.interruptions ++ execve program opts.args opts.env ∷ []))))
  unfolding run
  run-IsFiltered opts sandboxed h =
      let (limits_ok, h1, trace) =
        >>-executes (context "setup net namespace" (setup_process_limits kernel opts)) _
          (setup_process_limits-quiet kernel opts) h in
      let (signals_ok, h2, trace1) =
        >>-executes (context "setup signal handlers" (setup_signal_handlers kernel)) _
          setup_signal_handlers-quiet h1 in
      let (confine_ok, h3, trace2) = >>-executes (confine kernel opts) _ (confine-quiet opts) h2 in
      let (wait_ok, executed, trace3) =
        >>-executes (wait_pipe kernel) _ (reads-quiet kernel.interruptions) h3 in
      let (program, rest, args_eq, last) = execute-lem opts.args opts.env executed in
      let (limits, set) =
        setup_process_limits-Makes kernel opts
          (with_context-eq-ok "setup net namespace" _ limits_ok) in
      let signals =
        setup_signal_handlers-lem (with_context-eq-ok "setup signal handlers" _ signals_ok) in
      (
        program,
        rest,
        (confine kernel opts).0,
        args_eq,
        set,
        confine-IsFiltered opts sandboxed confine_ok,
        trace
            ∙ append_eq limits (
                trace1
                ∙ append_eq signals (trace2 ∙ append_eq refl (trace3 ∙ append_eq refl last))),
      )
