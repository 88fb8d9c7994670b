-- ===== src/Protocol.antt =====
-- The three processes of a jail together, as far as they wait for one another: `Jail::new` and
-- `Jail::wait` of src/jail/mod.rs with src/jail/parent.rs, src/jail/child_init.rs and
-- src/jail/child.rs. A step is what one process does up to its next message or wait.
pub mod Invariant
pub mod Kept
pub mod Safe
pub mod Progress
pub mod Script
pub mod Faultless
pub mod Live
use eval_python.Prelude.{ℕ, suc, ◌≡◌, Bool, true, false, ◌||◌, List, [], ◌∷◌, ◌++◌, if◌then◌else◌}

-- `pidfd` is a descriptor, the other ones are messages; `status` is a `JailResult`.
pub data Message : Type 0 where
  setup_done request pidfd response status : Message

-- How far the parent has come with the child: before its mapping is done and said, before the request
-- and the pidfd, before the cgroup is set and the response sent, before the status, and after it.
pub data ParentAt : Type 0 where
  mapping awaiting_request awaiting_pidfd grouping awaiting_status got_status : ParentAt

-- `working` on this; in `wait` after the setup has failed; after the message of `wait`, until the child
-- is reaped; returned; or killed from outside.
pub data Mode : Type 0 where
  working giving_up reaping returned crashed : Mode

-- How far the init process has come: before the parent is done, before the fork, before the request,
-- the pidfd and the response, before the child is waited for, before the status is sent, and after it.
pub data InitAt : Type 0 where
  starting setting_up requesting handing awaiting_response watching reporting reported : InitAt

-- The jailed process: before the fork; with its copies of the other's descriptors; without them;
-- at the pipe; as the program; and ended.
pub data JailedAt : Type 0 where
  unborn born confining holding executing gone : JailedAt

-- `running` is false once the init process has ended. The two lists are what is sent and not yet read.
pub record State : Type 0 where
  pub parent : ParentAt
  pub mode : Mode
  pub init : InitAt
  pub running : Bool
  pub jailed : JailedAt
  pub to_init : List Message
  pub to_parent : List Message

abbrev pub is_born : JailedAt → Bool
is_born born = true
is_born other = false

-- the jailed process is there
abbrev pub is_alive : JailedAt → Bool
is_alive unborn = false
is_alive gone = false
is_alive other = true

-- An end of the socket to the parent is open in the init process, or in the jailed one.
abbrev pub listening : State → Bool
listening s = s.running || is_born s.jailed

abbrev pub is_attached : Mode → Bool
is_attached returned = false
is_attached crashed = false
is_attached other = true

-- The init process has dropped its end of the pipe that holds the jailed process back.
abbrev pub is_released : InitAt → Bool
is_released watching = true
is_released reporting = true
is_released reported = true
is_released other = false

-- the phases of `setup_child`: those that send, and those that read
abbrev pub sends : ParentAt → Bool
sends mapping = true
sends grouping = true
sends other = false

abbrev pub reads : ParentAt → Bool
reads awaiting_request = true
reads awaiting_pidfd = true
reads other = false

abbrev pub init_sends : InitAt → Bool
init_sends requesting = true
init_sends handing = true
init_sends reporting = true
init_sends other = false

abbrev pub init_reads : InitAt → Bool
init_reads starting = true
init_reads awaiting_response = true
init_reads other = false

-- With a sandbox, a pidfd follows the request.
module _ (sandboxed : Bool) where
  abbrev pub after_request : ParentAt
  after_request = if sandboxed then awaiting_pidfd else grouping

  abbrev pub after_sent_request : InitAt
  after_sent_request = if sandboxed then handing else awaiting_response

  -- Where the setup fails, the init process is killed.
  pub data ParentMove (s : State) : State → Type 0 where
    send_done :
        s.mode ≡ working
        → s.parent ≡ mapping
        → listening s ≡ true
        → ParentMove s
            (record s { parent = awaiting_request; to_init = s.to_init ++ setup_done ∷ [] })
    take_request :
        {rest : List Message}
        → s.mode ≡ working
        → s.parent ≡ awaiting_request
        → s.to_parent ≡ request ∷ rest
        → ParentMove s (record s { parent = after_request; to_parent = rest })
    take_pidfd :
        {rest : List Message}
        → s.mode ≡ working
        → s.parent ≡ awaiting_pidfd
        → s.to_parent ≡ pidfd ∷ rest
        → ParentMove s (record s { parent = grouping; to_parent = rest })
    send_response :
        s.mode ≡ working
        → s.parent ≡ grouping
        → listening s ≡ true
        → ParentMove s (record s { parent = awaiting_status; to_init = s.to_init ++ response ∷ [] })
    fail_send :
        s.mode ≡ working
        → sends s.parent ≡ true
        → listening s ≡ false
        → ParentMove s (record s { mode = giving_up; running = false })
    fail_read :
        s.mode ≡ working
        → reads s.parent ≡ true
        → s.to_parent ≡ []
        → listening s ≡ false
        → ParentMove s (record s { mode = giving_up; running = false })
    take_status :
        {rest : List Message}
        → s.mode ≡ working
        → s.parent ≡ awaiting_status
        → s.to_parent ≡ status ∷ rest
        → ParentMove s (record s { parent = got_status; mode = reaping; to_parent = rest })
    -- the end of the stream instead of the status; the init process is killed
    miss_status :
        s.mode ≡ working
        → s.parent ≡ awaiting_status
        → s.to_parent ≡ []
        → listening s ≡ false
        → ParentMove s (record s { mode = reaping; running = false })
    -- another message, or the end, is read instead of the status
    misread :
        {m : Message} {rest : List Message}
        → s.mode ≡ giving_up
        → s.to_parent ≡ m ∷ rest
        → ParentMove s (record s { mode = reaping; running = false })
    read_end :
        s.mode ≡ giving_up
        → s.to_parent ≡ []
        → listening s ≡ false
        → ParentMove s (record s { mode = reaping; running = false })
    reap : s.mode ≡ reaping → s.running ≡ false → ParentMove s (record s { mode = returned })

  pub data InitMove (s : State) : State → Type 0 where
    take_done :
        {rest : List Message}
        → s.running ≡ true
        → s.init ≡ starting
        → s.to_init ≡ setup_done ∷ rest
        → InitMove s (record s { init = setting_up; to_init = rest })
    fork :
        s.running ≡ true
        → s.init ≡ setting_up
        → InitMove s (record s { init = requesting; jailed = born })
    send_request :
        s.running ≡ true
        → s.init ≡ requesting
        → is_attached s.mode ≡ true
        → InitMove s
            (record s { init = after_sent_request; to_parent = s.to_parent ++ request ∷ [] })
    send_pidfd :
        s.running ≡ true
        → s.init ≡ handing
        → is_attached s.mode ≡ true
        → InitMove s (record s { init = awaiting_response; to_parent = s.to_parent ++ pidfd ∷ [] })
    -- the response, and the drop of the pipe
    take_response :
        {rest : List Message}
        → s.running ≡ true
        → s.init ≡ awaiting_response
        → s.to_init ≡ response ∷ rest
        → InitMove s (record s { init = watching; to_init = rest })
    -- at the deadline, or for a system call; without a sandbox, the init process only waits
    kill_jailed :
        sandboxed ≡ true
        → s.running ≡ true
        → s.init ≡ watching
        → is_alive s.jailed ≡ true
        → InitMove s (record s { jailed = gone })
    finish_wait :
        s.running ≡ true
        → s.init ≡ watching
        → s.jailed ≡ gone
        → InitMove s (record s { init = reporting })
    send_status :
        s.running ≡ true
        → s.init ≡ reporting
        → is_attached s.mode ≡ true
        → InitMove s (record s { init = reported; to_parent = s.to_parent ++ status ∷ [] })
    exit : s.running ≡ true → s.init ≡ reported → InitMove s (record s { running = false })
    fail_to_send :
        s.running ≡ true
        → init_sends s.init ≡ true
        → is_attached s.mode ≡ false
        → InitMove s (record s { running = false })
    fail_to_read :
        s.running ≡ true
        → init_reads s.init ≡ true
        → s.to_init ≡ []
        → is_attached s.mode ≡ false
        → InitMove s (record s { running = false })

  -- The pipe is at its end once no other process holds it open. With a sandbox, the kernel kills the
  -- processes of a namespace whose first process has ended.
  pub data JailedMove (s : State) : State → Type 0 where
    drop_copies : s.jailed ≡ born → JailedMove s (record s { jailed = confining })
    reach_pipe : s.jailed ≡ confining → JailedMove s (record s { jailed = holding })
    execute_released :
        s.jailed ≡ holding
        → is_released s.init ≡ true
        → JailedMove s (record s { jailed = executing })
    execute_orphaned :
        s.jailed ≡ holding → s.running ≡ false → JailedMove s (record s { jailed = executing })
    die_with_init :
        sandboxed ≡ true
        → s.running ≡ false
        → is_alive s.jailed ≡ true
        → JailedMove s (record s { jailed = gone })

  -- The program ends, by itself or by its limits.
  pub data ProgramEnd (s : State) : State → Type 0 where
    end_program : s.jailed ≡ executing → ProgramEnd s (record s { jailed = gone })

  pub data Step (s t : State) : Type 0 where
    parent_move : ParentMove s t → Step s t
    init_move : InitMove s t → Step s t
    jailed_move : JailedMove s t → Step s t
    program_ends : ProgramEnd s t → Step s t

  -- What may happen besides: an error of the system, and a process that is killed from outside, as the
  -- jailed process also is where the init process cannot wait for it.
  pub data Fault (s : State) : State → Type 0 where
    parent_fails :
        s.mode ≡ working
        → (sends s.parent || reads s.parent) ≡ true
        → Fault s (record s { mode = giving_up; running = false })
    parent_crashes : is_attached s.mode ≡ true → Fault s (record s { mode = crashed })
    init_fails : s.running ≡ true → Fault s (record s { running = false })
    jailed_ends : is_alive s.jailed ≡ true → Fault s (record s { jailed = gone })

  -- `Jail::new` has started the init process.
  abbrev pub started : State
  started = record {
    parent = mapping;
    mode = working;
    init = starting;
    running = true;
    jailed = unborn;
    to_init = [];
    to_parent = [];
  }

  -- after a number of steps and faults
  pub data Reach : ℕ → State → Type 0 where
    start : Reach 0 started
    step : {n : ℕ} {s t : State} → Reach n s → Step s t → Reach (suc n) t
    fault : {n : ℕ} {s t : State} → Reach n s → Fault s t → Reach (suc n) t

  -- a fault is among the steps
  abbrev pub has_fault : {n : ℕ} {s : State} → Reach n s → Bool
  has_fault start = false
  has_fault (step r m) = has_fault r
  has_fault (fault r f) = true
