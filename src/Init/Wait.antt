-- ===== src/Init/Wait.antt =====
-- `wait_child`, `wait_receive_seccomp_fd` and `wait_read_seccomp_notification` of
-- src/jail/child_init.rs, and `seccomp_read_notification` of src/sys.rs.
use eval_python.Prelude.{
  ℕ, zero, suc, ◌-◌, ◌^◌, ◌==◌, ltb, Bool, String, Option, none, some, List, [], ◌∷◌, ◌++◌,
  as_millis, Outcome, ok, err, panicked, Io, attempt, bail, with_context, ℤ, pos, format, display,
  if◌then◌else◌, ◌>>=◌,
}
use eval_python.Sys.Seccomp.{out_of_range}
use eval_python.Sys.Status.{WaitStatus, signaled, syscalled, WaitidStatus}

-- the calls of the init process while it waits
pub data WaitCall : Type 0 where
  -- epoll_wait with a timeout in milliseconds
  epoll_wait : ℕ → WaitCall
  -- ioctl(SECCOMP_IOCTL_NOTIF_RECV)
  read_notification : WaitCall
  -- kill of the child, with a signal
  kill : ℕ → WaitCall

-- what epoll_wait returns: the data of the events, `EINTR`, or another error with its text
pub data EpollReply : Type 0 where
  ready : List ℕ → EpollReply
  interrupted : EpollReply
  refused : String → EpollReply

-- one pass through the loop: the clock, and the reply of epoll_wait if it is called
pub record Round : Type 0 where
  pub now : ℕ
  pub reply : EpollReply

pub record WaitKernel : Type 0 where
  -- the event that tells whether there is a listener, and its descriptor
  pub fd_available : Outcome Bool
  pub seccomp_fd : Io ℕ
  pub epoll : Io ℕ
  pub pidfd : Io ℕ
  pub filter_added : Io (Unit {0})
  pub child_added : Io (Unit {0})
  pub notification_size : Outcome ℕ
  -- `EINTR` of the ioctl, then the number of the system call, or another error
  pub interruptions : ℕ
  pub notification : Option ℤ
  pub killed : Io (Unit {0})
  pub rounds : List Round
  pub waited : Outcome WaitidStatus
  -- the clock after waitid
  pub ended : ℕ

abbrev pub sigkill : ℕ
sigkill = 9

abbrev pub sigxcpu : ℕ
sigxcpu = 24

-- The calls, and the end of a loop: `none` where the rounds are over before it ends.
abbrev pub Waited : Type 0
Waited = List WaitCall × Option (Outcome (Option WaitStatus))

-- After an error the buffer is as it was, with zeros.
abbrev pub notified : Option ℤ → ℤ
notified none = pos 0
notified (some nr) = nr

abbrev pub notification_reads : ℕ → List WaitCall
notification_reads zero = read_notification ∷ []
notification_reads (suc interruptions) = read_notification ∷ notification_reads interruptions

module _ (kernel : WaitKernel) (child : ℕ) where
  unfoldable pub seccomp_read_notification : List WaitCall × ℤ
  seccomp_read_notification =
      (notification_reads kernel.interruptions, notified kernel.notification)

  -- `kill(child, Signal::SIGKILL).context("kill child")?`, and the status
  unfoldable pub kill_child : WaitStatus → Waited
  kill_child status = (
    kill sigkill ∷ [],
    some (with_context "kill child" (attempt kernel.killed) >>= λ _. ok (some status)),
  )

  -- the first of the events decides
  unfoldable pub on_events : ℕ → Waited → List ℕ → Waited
  unfolding seccomp_read_notification kill_child
  on_events child_pidfd more [] = more
  on_events child_pidfd more (event ∷ events) =
      if event == child_pidfd
      then ([], some (ok none))
      else (let (reads, nr) = seccomp_read_notification in
          let (kills, r) = kill_child (syscalled child nr) in (reads ++ kills, r))

  unfoldable pub on_reply : ℕ → Waited → EpollReply → Waited
  unfolding on_events
  on_reply child_pidfd more (ready events) = on_events child_pidfd more events
  on_reply child_pidfd more interrupted = more
  on_reply child_pidfd more (refused text) = ([], some (bail (format ("epoll_wait: " ∷ text ∷ []))))

  -- the loop; the timeout is an `isize`
  unfoldable pub wait_loop : ℕ → ℕ → List Round → Waited
  unfolding on_reply kill_child
  wait_loop child_pidfd deadline [] = ([], none)
  wait_loop child_pidfd deadline (round ∷ rest) =
      let more = wait_loop child_pidfd deadline rest in
      let timeout = deadline - round.now in
      if timeout == 0
      then kill_child (signaled child sigxcpu)
      else if ltb (as_millis timeout) (2 ^ 63)
      then (let (calls, r) = on_reply child_pidfd more round.reply in
          (epoll_wait (as_millis timeout) ∷ calls, r))
      else ([], some out_of_range)

  unfoldable pub add_filter : Option ℕ → Outcome (Unit {0})
  add_filter none = ok tt
  add_filter (some fd) =
      with_context "epoll_ctl(EPOLL_CTL_ADD, seccomp_fd" (attempt kernel.filter_added)

  -- what comes before the loop, with the descriptor of the child
  unfoldable pub prepare : Option ℕ → Outcome ℕ
  unfolding add_filter
  prepare seccomp_file = do
    epoll_file ← with_context "epoll_create1" (attempt kernel.epoll)
    child_pidfd ←
        with_context (format ("pidfd_open(" ∷ display child ∷ ")" ∷ [])) (attempt kernel.pidfd)
    added ← add_filter seccomp_file
    child_added ← with_context "epoll_ctl(EPOLL_CTL_ADD, child_pidfd" (attempt kernel.child_added)
    size ← with_context "seccomp_get_notification_size" kernel.notification_size
    ok child_pidfd

  unfoldable pub loop_after : ℕ → Outcome ℕ → Waited
  unfolding wait_loop
  loop_after deadline (ok child_pidfd) = wait_loop child_pidfd deadline kernel.rounds
  loop_after deadline (err e) = ([], some (err e))
  loop_after deadline panicked = ([], some panicked)

  unfoldable pub wait_read_seccomp_notification : ℕ → Option ℕ → Waited
  unfolding prepare loop_after
  wait_read_seccomp_notification deadline seccomp_file = loop_after deadline (prepare seccomp_file)
