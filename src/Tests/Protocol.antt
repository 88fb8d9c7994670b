-- ===== src/Tests/Protocol.antt =====
-- Runs of the three processes.
use eval_python.Prelude.{◌≤◌, ◌≡◌, refl, Bool, true, false, ◌⊎◌, inr}
use eval_python.Protocol.{
  State, executing, awaiting_request, is_released, Reach, start, step, fault, parent_move,
  init_move, jailed_move, ParentMove, InitMove, JailedMove, Fault, has_fault,
}
use eval_python.Protocol.Safe.{HasResponded, executing-HasResponded}
use eval_python.Protocol.Progress.{IsFinal, CanStep, RunsProgram}
use eval_python.Protocol.Live.{IsReported, Reach-IsFinal}

-- a run up to the fork
abbrev forked : (sandboxed : Bool) → (s : State) × Reach sandboxed 3 s
forked sandboxed = (
  _,
  step
      (step (step start (parent_move (ParentMove.send_done refl refl refl)))
        (init_move (InitMove.take_done refl refl refl)))
      (init_move (InitMove.fork refl refl)),
)

-- the request, the pidfd and the response, with a sandbox
abbrev responded : (s : State) × Reach true 9 s
responded = (
  _,
  step
      (step
        (step
          (step
            (step (step (forked true).1 (init_move (InitMove.send_request refl refl refl)))
              (init_move (InitMove.send_pidfd refl refl refl)))
            (parent_move (ParentMove.take_request refl refl refl)))
          (parent_move (ParentMove.take_pidfd refl refl refl)))
        (parent_move (ParentMove.send_response refl refl refl)))
      (init_move (InitMove.take_response refl refl refl)),
)

abbrev executed : (s : State) × Reach true 12 s
executed = (
  _,
  step
      (step (step responded.1 (jailed_move (JailedMove.drop_copies refl)))
        (jailed_move (JailedMove.reach_pipe refl)))
      (jailed_move (JailedMove.execute_released refl refl)),
)

executing-HasResponded_example :
    (HasResponded executed.0.parent × (is_released executed.0.init ≡ true))
    ⊎ (executed.0.running ≡ false)
executing-HasResponded_example = executing-HasResponded true executed.1 refl

Reach-IsFinal_example :
    (12 ≤ 20)
    × (CanStep true executed.0
        ⊎ (RunsProgram true executed.0
            ⊎ (IsFinal true executed.0
                × ((has_fault true executed.1 ≡ true) ⊎ IsReported true executed.0))))
Reach-IsFinal_example = Reach-IsFinal true executed.1

-- Without a sandbox: the init process fails right after the fork, and the program is executed all the
-- same, before the parent has read any request, and goes on without anybody who waits for it.
orphan_executes :
    (s : State) × Reach false 10 s
    × (s.jailed ≡ executing)
    × (s.parent ≡ awaiting_request)
    × IsFinal false s
orphan_executes = (
  _,
  step
      (step
        (step
          (step
            (step
              (step (fault (forked false).1 (Fault.init_fails refl))
                (jailed_move (JailedMove.drop_copies refl)))
              (jailed_move (JailedMove.reach_pipe refl)))
            (jailed_move (JailedMove.execute_orphaned refl refl)))
          (parent_move (ParentMove.fail_read refl refl refl refl)))
        (parent_move (ParentMove.read_end refl refl refl)))
      (parent_move (ParentMove.reap refl refl)),
  refl,
  refl,
  (refl, refl, inr (refl, refl)),
)
