-- ===== src/Tests/Streams.antt =====
-- The streams of one jail, redirected inside and outside a sandbox.
use eval_python.Prelude.{
  ℕ, ◌≤◌, ap, attempt, ok-injective, ◌≡◌, refl, arith, ok, done, some, String,
}
use eval_python.Init.Streams.{
  Mode, StreamKernel, redirect_streams, setup_unsandboxed_filesystem, read, write, append,
}
use eval_python.Init.Descriptors.{opened, inherited, Table, after}
use eval_python.Init.Redirected.{redirect_streams-connected}
use eval_python.Init.Unsandboxed.{unsandboxed-connected}
use eval_python.Tests.Options.{quoted, quiet_host, run_args, run_options, run_new}

abbrev pub opening : StreamKernel
opening = record {
  entered = λ path. done tt;
  opened = λ path mode. done 7;
  duplicated = λ source target. done tt;
  closed = λ fd. done tt;
  debug = quoted;
}

opened_above : (path : String) (mode : Mode) (fd : ℕ) → opening.opened path mode ≡ done fd → 3 ≤ fd
opened_above path mode fd e =
    let seven : 7 ≡ fd = ok-injective (ap attempt e) in omega (arith, seven)

abbrev terminals : Table
terminals fd = some (inherited fd)

redirected : (redirect_streams opening run_options).1 ≡ ok tt
unfolding redirect_streams
redirected = refl

redirect_streams-connected_example :
    (after (redirect_streams opening run_options).0 terminals 0
      ≡ some (opened "/mnt/stdio/stdin" read))
    × (after (redirect_streams opening run_options).0 terminals 1
        ≡ some (opened "/mnt/stdio/stdout" write))
    × (after (redirect_streams opening run_options).0 terminals 2
        ≡ some (opened "/mnt/stdio/stderr" append))
redirect_streams-connected_example =
    redirect_streams-connected opening opened_above quoted quiet_host run_args run_options terminals
      run_new redirected

unsandboxed : (setup_unsandboxed_filesystem opening run_options).1 ≡ ok tt
unfolding setup_unsandboxed_filesystem
unsandboxed = refl

-- The output that should be the null device is as it was, and the input is the null device.
unsandboxed-connected_example :
    (after (setup_unsandboxed_filesystem opening run_options).0 terminals 0
      ≡ some (opened "/dev/null" append))
    × (after (setup_unsandboxed_filesystem opening run_options).0 terminals 1
        ≡ some (opened "/tmp/out" write))
    × (after (setup_unsandboxed_filesystem opening run_options).0 terminals 2 ≡ some (inherited 2))
unsandboxed-connected_example =
    unsandboxed-connected opening opened_above quoted quiet_host run_args run_options terminals
      run_new unsandboxed
