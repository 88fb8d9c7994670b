-- ===== src/Protocol/Invariant.antt =====
-- What holds in every state that the three processes reach.
use eval_python.Prelude.{
  ℕ, zero, suc, ◌-◌, ◌≤◌, ◌≡◌, Bool, true, false, ◌⊎◌, List, [], ◌∷◌, if◌then◌else◌,
}
use eval_python.Protocol.{
  Message, setup_done, request, pidfd, response, status, ParentAt, mapping, awaiting_request,
  awaiting_pidfd, grouping, awaiting_status, got_status, working, giving_up, reaping, returned,
  InitAt, starting, setting_up, requesting, handing, awaiting_response, watching, reporting,
  reported, unborn, executing, gone, State, is_released,
}

-- how many messages are sent to the init process, and read by it
abbrev pub sent : ParentAt → ℕ
sent mapping = 0
sent awaiting_request = 1
sent awaiting_pidfd = 1
sent grouping = 1
sent awaiting_status = 2
sent got_status = 2

abbrev pub received : InitAt → ℕ
received starting = 0
received setting_up = 1
received requesting = 1
received handing = 1
received awaiting_response = 1
received watching = 2
received reporting = 2
received reported = 2

abbrev pub message_to_init : ℕ → Message
message_to_init zero = setup_done
message_to_init (suc i) = response

abbrev is_got : ParentAt → Bool
is_got got_status = true
is_got other = false

-- before the fork
abbrev pub is_early : InitAt → Bool
is_early starting = true
is_early setting_up = true
is_early other = false

-- after the end of the wait
abbrev pub is_late : InitAt → Bool
is_late reporting = true
is_late reported = true
is_late other = false

-- so many messages, from one on
abbrev pub span : (ℕ → Message) → ℕ → ℕ → List Message
span message i zero = []
span message i (suc n) = message i ∷ span message (suc i) n

module _ (sandboxed : Bool) where
  -- the number of the status among the messages to the parent
  abbrev pub last : ℕ
  last = if sandboxed then 2 else 1

  abbrev pub taken : ParentAt → ℕ
  taken mapping = 0
  taken awaiting_request = 0
  taken awaiting_pidfd = 1
  taken grouping = last
  taken awaiting_status = last
  taken got_status = suc last

  abbrev pub given : InitAt → ℕ
  given starting = 0
  given setting_up = 0
  given requesting = 0
  given handing = 1
  given awaiting_response = last
  given watching = last
  given reporting = last
  given reported = suc last

  abbrev pub message_to_parent : ℕ → Message
  message_to_parent zero = request
  message_to_parent (suc zero) = if sandboxed then pidfd else status
  message_to_parent (suc (suc i)) = status

  pub record Inv (s : State) : Type 0 where
    -- what is sent and not yet read, in each direction
    pub to_init_eq :
        s.to_init ≡ span message_to_init (received s.init) (sent s.parent - received s.init)
    pub to_init_le : received s.init ≤ sent s.parent
    pub to_parent_eq :
        s.to_parent ≡ span message_to_parent (taken s.parent) (given s.init - taken s.parent)
    pub to_parent_le : taken s.parent ≤ given s.init
    -- a pidfd is passed only with a sandbox
    pub pidfd_sent : s.init ≡ handing → sandboxed ≡ true
    pub pidfd_taken : s.parent ≡ awaiting_pidfd → sandboxed ≡ true
    pub given_up : s.mode ≡ giving_up → s.running ≡ false
    pub reaped : s.mode ≡ reaping → (s.running ≡ false) ⊎ (s.init ≡ reported)
    pub ended : s.mode ≡ returned → s.running ≡ false
    pub not_got : s.mode ≡ working → is_got s.parent ≡ false
    pub forked : s.jailed ≡ unborn → is_early s.init ≡ true
    pub waited : is_late s.init ≡ true → s.jailed ≡ gone
    pub held : s.jailed ≡ executing → (is_released s.init ≡ true) ⊎ (s.running ≡ false)
