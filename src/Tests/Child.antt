-- ===== src/Tests/Child.antt =====
-- A jailed process on a kernel that grants everything, and one on a kernel that refuses filters.
use eval_python.Prelude.{
  as_millis, from_millis, ◌*◌, ◌+◌, ◌<◌, ◌≤◌, ◌==◌, ◌≡◌, refl, true, List, [], ◌∷◌, ◌++◌, String,
  All, ok, err, done, pos, negsuc, format, errno,
}
use eval_python.Sys.Seccomp.{fprog_len, seccomp_set_mode_filter_with_listener}
use eval_python.Child.Limits.{soft_limit_lem}
use eval_python.Child.{
  soft_limit, ChildCall, empty_mask, unblock_all, install_listener, execve, ChildKernel,
  default_actions, setup_seccomp_bpf, run, reads,
}
use eval_python.Child.Executed.{limit_calls, executes, IsApplied}
use eval_python.Child.Order.{run-IsFiltered}
use eval_python.Child.Filtered.{IsFiltered, listener_context, setup_seccomp_bpf-refused}
use eval_python.Tests.Options.{run_options}

abbrev pub granting : ChildKernel
granting = record {
  known = λ n. n == 1;
  limit_set = λ resource soft hard. done tt;
  mask_set = done tt;
  unblocked = done tt;
  seccomp = λ flags len filter. pos 5;
  event_sent = λ fd_available. ok tt;
  fd_sent = λ fd. done tt;
  interruptions = 1;
  pipe_read = done tt;
  debug = format;
  executed = λ program args env. done tt;
}

soft_limit_lem_example :
    (as_millis (from_millis 1500) ≤ soft_limit (from_millis 1500) * 1000)
    × (soft_limit (from_millis 1500) * 1000 < as_millis (from_millis 1500) + 1000)
soft_limit_lem_example = soft_limit_lem (from_millis 1500)

granted_executes : executes (run granting run_options).0 ≡ true
unfolding run seccomp_set_mode_filter_with_listener eval_python.Sys.Errno.check_err
granted_executes = refl

run-IsFiltered_example :
    (program : String) × (rest : List String) × (calls : List ChildCall) × (run_options.args
      ≡ program ∷ rest)
    × All (IsApplied granting) (limit_calls run_options)
    × IsFiltered granting run_options calls
    × ((run granting run_options).0
        ≡ limit_calls run_options
          ++ ((empty_mask ∷ unblock_all ∷ default_actions 1 32)
              ++ (calls ++ (reads 1 ++ execve program run_options.args run_options.env ∷ []))))
run-IsFiltered_example = run-IsFiltered granting run_options refl granted_executes

abbrev refusing : ChildKernel
refusing = record granting { seccomp = λ flags len filter. negsuc 0 }

setup_seccomp_bpf-refused_example : setup_seccomp_bpf refusing run_options ≡ (
  install_listener run_options.seccomp_bpf_filter_notify_contents ∷ [],
  err (record {
    contexts = "seccomp_set_mode_filter_with_listener" ∷ listener_context ∷ [];
    cause = errno 1;
  }),
)
setup_seccomp_bpf-refused_example =
    setup_seccomp_bpf-refused refusing run_options 0 (unfold fprog_len in refl) refl refl
