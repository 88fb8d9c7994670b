-- ===== src/Protocol/Live.antt =====
-- The three processes always come to their end.
use eval_python.Prelude.{ℕ, ◌+◌, ◌≤◌, ◌<◌, ◌≡◌, arith, Bool, true, ◌⊎◌, inl, inr, if◌then◌else◌}
use eval_python.Protocol.{
  program_ends, end_program, ParentAt, mapping, awaiting_request, awaiting_pidfd, grouping,
  awaiting_status, got_status, Mode, working, giving_up, reaping, returned, crashed, InitAt,
  starting, setting_up, requesting, handing, awaiting_response, watching, reporting, reported,
  JailedAt, unborn, born, confining, holding, executing, gone, State, ParentMove, InitMove,
  JailedMove, Fault, Step, Reach, start, step, fault, parent_move, init_move, jailed_move,
  has_fault,
}
use eval_python.Protocol.Kept.{Reach-Inv}
use eval_python.Protocol.Invariant.{Inv}
use eval_python.Protocol.Faultless.{IsSound, Reach-IsSound}
use eval_python.Protocol.Progress.{IsFinal, CanStep, RunsProgram, Inv-CanStep}

-- What is left of each process; before the fork, that of the jailed one is counted to the init process.
abbrev parent_left : ParentAt → ℕ
parent_left mapping = 5
parent_left awaiting_request = 4
parent_left awaiting_pidfd = 3
parent_left grouping = 2
parent_left awaiting_status = 1
parent_left got_status = 0

abbrev mode_left : Mode → ℕ
mode_left working = 3
mode_left giving_up = 2
mode_left reaping = 1
mode_left returned = 0
mode_left crashed = 0

abbrev init_left : InitAt → ℕ
init_left starting = 11
init_left setting_up = 10
init_left requesting = 5
init_left handing = 4
init_left awaiting_response = 3
init_left watching = 2
init_left reporting = 1
init_left reported = 0

abbrev jailed_left : JailedAt → ℕ
jailed_left unborn = 0
jailed_left born = 4
jailed_left confining = 3
jailed_left holding = 2
jailed_left executing = 1
jailed_left gone = 0

abbrev left : State → ℕ
left s =
    parent_left s.parent
    + mode_left s.mode
    + init_left s.init
    + (if s.running then 1 else 0)
    + jailed_left s.jailed

module _ (sandboxed : Bool) where
  ParentMove-left-lt : {s t : State} → ParentMove sandboxed s t → left t < left s
  ParentMove-left-lt (ParentMove.send_done w p l) = ground arith
  ParentMove-left-lt (ParentMove.take_request w p q) = ground arith
  ParentMove-left-lt (ParentMove.take_pidfd w p q) = ground arith
  ParentMove-left-lt (ParentMove.send_response w p l) = ground arith
  ParentMove-left-lt (ParentMove.fail_send w p l) = ground arith
  ParentMove-left-lt (ParentMove.fail_read w p q l) = ground arith
  ParentMove-left-lt (ParentMove.take_status w p q) = ground arith
  ParentMove-left-lt (ParentMove.miss_status w p q l) = ground arith
  ParentMove-left-lt (ParentMove.misread g q) = ground arith
  ParentMove-left-lt (ParentMove.read_end g q l) = ground arith
  ParentMove-left-lt (ParentMove.reap g r) = ground arith

  InitMove-left-lt : {s t : State} → InitMove sandboxed s t → left t < left s
  InitMove-left-lt (InitMove.take_done r i q) = ground arith
  InitMove-left-lt (InitMove.fork r i) = ground arith
  InitMove-left-lt (InitMove.send_request r i a) = ground arith
  InitMove-left-lt (InitMove.send_pidfd r i a) = ground arith
  InitMove-left-lt (InitMove.take_response r i q) = ground arith
  InitMove-left-lt (InitMove.kill_jailed b r i a) = ground arith
  InitMove-left-lt (InitMove.finish_wait r i g) = ground arith
  InitMove-left-lt (InitMove.send_status r i a) = ground arith
  InitMove-left-lt (InitMove.exit r i) = ground arith
  InitMove-left-lt (InitMove.fail_to_send r i a) = ground arith
  InitMove-left-lt (InitMove.fail_to_read r i q a) = ground arith

  JailedMove-left-lt : {s t : State} → JailedMove sandboxed s t → left t < left s
  JailedMove-left-lt (JailedMove.drop_copies e) = ground arith
  JailedMove-left-lt (JailedMove.reach_pipe e) = ground arith
  JailedMove-left-lt (JailedMove.execute_released e r) = ground arith
  JailedMove-left-lt (JailedMove.execute_orphaned e r) = ground arith
  JailedMove-left-lt (JailedMove.die_with_init b r a) = ground arith

  Fault-left-lt : {s t : State} → Fault sandboxed s t → left t < left s
  Fault-left-lt (Fault.parent_fails w a) = ground arith
  Fault-left-lt (Fault.parent_crashes a) = ground arith
  Fault-left-lt (Fault.init_fails r) = ground arith
  Fault-left-lt (Fault.jailed_ends a) = ground arith

  Step-left-lt : {s t : State} → Step sandboxed s t → left t < left s
  Step-left-lt (parent_move m) = ParentMove-left-lt m
  Step-left-lt (init_move m) = InitMove-left-lt m
  Step-left-lt (jailed_move m) = JailedMove-left-lt m
  Step-left-lt (program_ends (end_program e)) = ground arith

  Reach-left-le : {n : ℕ} {s : State} → Reach sandboxed n s → n + left s ≤ 20
  Reach-left-le start = omega arith
  Reach-left-le (step r m) = omega (arith, Reach-left-le r, Step-left-lt m)
  Reach-left-le (fault r f) = omega (arith, Reach-left-le r, Fault-left-lt f)

  -- All is done: the status has reached the parent, and nothing of the jail is left.
  abbrev pub IsReported : State → Type 0
  IsReported s =
      (s.mode ≡ returned) × (s.parent ≡ got_status) × (s.init ≡ reported) × (s.jailed ≡ gone)

  final-IsReported :
      {s : State} → Inv sandboxed s → IsSound sandboxed s → IsFinal sandboxed s → IsReported s
  final-IsReported v o f = ground arith

  -- Whatever the order of the steps, and whichever processes fail or are killed on the way, no run has
  -- more than 20 steps. In every state one of the processes has a step, other than the end of the
  -- program; or there is no sandbox, and the init process waits for the program; or all are at their end: the parent has returned from `wait` or was
  -- killed, the init process has ended, and with a sandbox there is no jailed process any more. In this
  -- last case, where nothing has failed on the way, the parent has returned with the status of the init
  -- process, and the jailed process has ended, also without a sandbox. That the program ends is a step,
  -- and no failure.
  pub Reach-IsFinal :
      {n : ℕ} {s : State} (r : Reach sandboxed n s)
      → (n ≤ 20)
        × (CanStep sandboxed s
            ⊎ (RunsProgram sandboxed s
                ⊎ (IsFinal sandboxed s × ((has_fault sandboxed r ≡ true) ⊎ IsReported s))))
  Reach-IsFinal {s} r = (
    omega (arith, Reach-left-le r),
    elim (Inv-CanStep sandboxed s v) [
      | inr (inl next) ↦ inl next
      | inr (inr runs) ↦ inr (inl runs)
      | inl final ↦ inr (
          inr (
            final,
            elim (Reach-IsSound sandboxed r) [
              | inl faulty ↦ inl faulty
              | inr sound ↦ inr (final-IsReported v sound final)
            ],
          ))
    ],
  )
    where
      v : Inv sandboxed s
      v = Reach-Inv sandboxed r
