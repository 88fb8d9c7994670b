-- ===== src/Child.antt =====
-- src/jail/child.rs: the jailed process, up to the program that it executes.
pub mod Limits
pub mod Executed
pub mod Filtered
pub mod Order
use eval_python.Prelude.{
  ℕ, zero, suc, ◌+◌, ◌==◌, Bool, true, false, String, Option, none, some, List, [], ◌∷◌, Duration,
  as_secs, subsec_millis, Outcome, ok, err, panicked, Cause, Io, done, failed, attempt, ℤ, format,
  display, if◌then◌else◌, not, with_context, message, errno, io, bail, ◌&&◌,
}
use eval_python.Prelude.Traced.{Traced, ◌>>◌, pure, call, lift, context}
use eval_python.Options.Types.{JailOptions}
use eval_python.Sys.Seccomp.{seccomp_set_mode_filter, seccomp_set_mode_filter_with_listener}

pub data Resource : Type 0 where
  stack core cpu fsize address_space : Resource

-- The calls of the jailed process. A limit that is `none` is infinity.
pub data ChildCall : Type 0 where
  setrlimit : Resource → Option ℕ → Option ℕ → ChildCall
  -- sigprocmask(SIG_SETMASK, []), sigprocmask(SIG_UNBLOCK, all)
  empty_mask unblock_all : ChildCall
  -- sigaction(signal, SIG_DFL)
  default_action : ℕ → ChildCall
  -- the filter with a listener, and the one without
  install_listener install_filter : List ℕ → ChildCall
  -- `SendSeccompFDEvent { fd_available }`, and the descriptor itself
  send_event : Bool → ChildCall
  send_fd : ℕ → ChildCall
  read_pipe : ChildCall
  -- the program, its arguments and its environment
  execve : String → List String → List String → ChildCall

-- What the system answers. The pipe is read again after each interruption.
pub record ChildKernel : Type 0 where
  pub known : ℕ → Bool
  pub limit_set : Resource → Option ℕ → Option ℕ → Io (Unit {0})
  pub mask_set : Io (Unit {0})
  pub unblocked : Io (Unit {0})
  pub seccomp : ℕ → ℕ → List ℕ → ℤ
  pub event_sent : Bool → Outcome (Unit {0})
  pub fd_sent : ℕ → Io (Unit {0})
  pub interruptions : ℕ
  pub pipe_read : Io (Unit {0})
  -- the text of `{:?}` for arguments and for an environment
  pub debug : List String → String
  pub executed : String → List String → List String → Io (Unit {0})

-- `time_limit` in whole seconds, rounded up at milliseconds
abbrev pub soft_limit : Duration → ℕ
soft_limit time_limit = as_secs time_limit + (if subsec_millis time_limit == 0 then 0 else 1)

abbrev both : Outcome (Unit {0}) → Outcome (Unit {0}) → Outcome (Unit {0})
both (ok a) second = second
both (err e) second = err e
both panicked second = panicked

-- `err.downcast_ref::<Errno>()` is `ENOSYS`
abbrev pub is_enosys : Cause → Bool
is_enosys (errno n) = n == 38
is_enosys (message text) = false
is_enosys (io text) = false

-- `for signum in first..(first + rounds)`; the results are not looked at
unfoldable pub default_actions : ℕ → ℕ → List ChildCall
default_actions signum zero = []
default_actions signum (suc rounds) = default_action signum ∷ default_actions (suc signum) rounds

-- a read for each interruption, and the last one
abbrev pub reads : ℕ → List ChildCall
reads zero = read_pipe ∷ []
reads (suc interruptions) = read_pipe ∷ reads interruptions

-- `{:#}` of the error is a text of the system's
abbrev pipe_result : Io (Unit {0}) → Outcome (Unit {0})
pipe_result (done a) = ok tt
pipe_result (failed (io text)) = bail (format ("epoll_wait: " ∷ text ∷ []))
pipe_result (failed (errno n)) = bail (format ("epoll_wait: errno " ∷ display n ∷ []))
pipe_result (failed (message text)) = bail (format ("epoll_wait: " ∷ text ∷ []))

module _ (kernel : ChildKernel) where
  unfoldable pub limit : String → Resource → Option ℕ → Option ℕ → Traced ChildCall (Unit {0})
  limit text resource soft hard =
      context text
        (call (setrlimit resource soft hard) (attempt (kernel.limit_set resource soft hard)))

  unfoldable pub limit_cpu : Option Duration → Traced ChildCall (Unit {0})
  limit_cpu none = pure tt
  limit_cpu (some time_limit) =
      let soft = soft_limit time_limit in
      limit
        (format ("setrlimit(RLIMIT_CPU, " ∷ display soft ∷ ", " ∷ display (soft + 1) ∷ ")" ∷ []))
        cpu (some soft) (some (soft + 1))

  -- a limit whose soft and hard value are one number, if there is one
  unfoldable pub limit_both : String → Resource → Option ℕ → Traced ChildCall (Unit {0})
  limit_both name resource none = pure tt
  limit_both name resource (some n) =
      limit (format ("setrlimit(" ∷ name ∷ ", " ∷ display n ∷ ", " ∷ display n ∷ ")" ∷ [])) resource
        (some n) (some n)

  unfoldable pub limit_address_space : Bool → Option ℕ → Traced ChildCall (Unit {0})
  limit_address_space use_cgroups memory_limit =
      if not use_cgroups then limit_both "RLIMIT_AS" address_space memory_limit else pure tt

  unfoldable pub setup_process_limits : JailOptions → Traced ChildCall (Unit {0})
  unfolding limit limit_cpu limit_both limit_address_space
  setup_process_limits opts = do
    limit "setrlimit(RLIMIT_STACK, RLIM_INFINITY, RLIM_INFINITY)" stack none none
    limit "setrlimit(RLIMIT_CORE, 0, 0)" core (some 0) (some 0)
    limit_cpu opts.time_limit
    limit_both "RLIMIT_FSIZE" fsize opts.output_limit
    limit_address_space opts.use_cgroups_for_memory_limit opts.memory_limit

  unfoldable pub setup_signal_handlers : Traced ChildCall (Unit {0})
  unfolding default_actions
  setup_signal_handlers = do
    context "sigprocmask(SIG_SETMASK, [], nullptr)" (call empty_mask (attempt kernel.mask_set))
    context "sigprocmask(SIG_UNBLOCK, ~[], nullptr)" (call unblock_all (attempt kernel.unblocked))
    (default_actions 1 32, ok tt)

  -- both messages are sent before either result is looked at
  unfoldable pub hand_over : ℕ → Traced ChildCall (Unit {0})
  hand_over fd = (
    send_event true ∷ send_fd fd ∷ [],
    both (with_context "write parent setup done event" (kernel.event_sent true))
        (with_context "send seccomp fd" (attempt (kernel.fd_sent fd))),
  )

  unfoldable pub fall_back : List ℕ → Traced ChildCall (Unit {0})
  fall_back filter = do
    context "seccomp_set_mode_filter"
        (call (install_filter filter) (seccomp_set_mode_filter kernel.known kernel.seccomp filter))
    context "write parent setup done event" (call (send_event false) (kernel.event_sent false))

  -- the `match` on the result of the filter with a listener
  unfoldable pub after_listener : JailOptions → Outcome ℕ → Traced ChildCall (Unit {0})
  unfolding hand_over fall_back
  after_listener opts (ok fd) = hand_over fd
  after_listener opts (err e) =
      if opts.allow_sigsys_fallback && is_enosys e.cause
      then fall_back opts.seccomp_bpf_filter_sigsys_contents
      else lift (with_context "seccomp_set_mode_filter_with_listener" (err e))
  after_listener opts panicked = lift panicked

  unfoldable pub setup_seccomp_bpf : JailOptions → Traced ChildCall (Unit {0})
  unfolding after_listener
  setup_seccomp_bpf opts =
      let filter = opts.seccomp_bpf_filter_notify_contents in
      let result = seccomp_set_mode_filter_with_listener kernel.known kernel.seccomp filter in
      let (calls, r) = after_listener opts result in (install_listener filter ∷ calls, r)

  -- `setup_seccomp_bpf`, unless the sandbox is disabled
  unfoldable pub confine : JailOptions → Traced ChildCall (Unit {0})
  unfolding setup_seccomp_bpf
  confine opts =
      if not opts.disable_sandboxing
      then context "setup_seccomp_bpf" (setup_seccomp_bpf opts)
      else pure tt

  -- one byte, or the end, of the pipe
  unfoldable pub wait_pipe : Traced ChildCall (Unit {0})
  wait_pipe = (reads kernel.interruptions, pipe_result kernel.pipe_read)

  unfoldable pub execute : List String → List String → Traced ChildCall (Unit {0})
  execute [] env = lift panicked
  execute (program ∷ rest) env =
      context
        (format ("execve(" ∷ kernel.debug (program ∷ rest) ∷ ", " ∷ kernel.debug env ∷ ")" ∷ []))
        (call (execve program (program ∷ rest) env)
          (attempt (kernel.executed program (program ∷ rest) env)))

  unfoldable pub run : JailOptions → Traced ChildCall (Unit {0})
  unfolding setup_process_limits setup_signal_handlers confine wait_pipe execute
  run opts = do
    context "setup net namespace" (setup_process_limits opts)
    context "setup signal handlers" setup_signal_handlers
    confine opts
    wait_pipe
    execute opts.args opts.env
