-- ===== src/Protocol/Kept.antt =====
-- Every step and every fault keeps the invariant.
use eval_python.Prelude.{ℕ, arith, Bool}
use eval_python.Protocol.{
  program_ends, end_program, State, ParentMove, InitMove, JailedMove, Fault, Step, Reach, started,
  start, step, fault, parent_move, init_move, jailed_move,
}
use eval_python.Protocol.Invariant.{Inv}

module _ (sandboxed : Bool) where
  JailedMove-Inv : {s t : State} → Inv sandboxed s → JailedMove sandboxed s t → Inv sandboxed t
  JailedMove-Inv v (JailedMove.drop_copies e) = ground arith
  JailedMove-Inv v (JailedMove.reach_pipe e) = ground arith
  JailedMove-Inv v (JailedMove.execute_released e r) = ground arith
  JailedMove-Inv v (JailedMove.execute_orphaned e r) = ground arith
  JailedMove-Inv v (JailedMove.die_with_init b r a) = ground arith

  Fault-Inv : {s t : State} → Inv sandboxed s → Fault sandboxed s t → Inv sandboxed t
  Fault-Inv v (Fault.parent_fails w a) = ground arith
  Fault-Inv v (Fault.parent_crashes a) = ground arith
  Fault-Inv v (Fault.init_fails r) = ground arith
  Fault-Inv v (Fault.jailed_ends a) = ground arith

  ParentMove-Inv : {s t : State} → Inv sandboxed s → ParentMove sandboxed s t → Inv sandboxed t
  ParentMove-Inv v (ParentMove.send_done w p l) = ground arith
  ParentMove-Inv v (ParentMove.take_request w p q) = ground arith
  ParentMove-Inv v (ParentMove.take_pidfd w p q) = ground arith
  ParentMove-Inv v (ParentMove.send_response w p l) = ground arith
  ParentMove-Inv v (ParentMove.fail_send w p l) = ground arith
  ParentMove-Inv v (ParentMove.fail_read w p q l) = ground arith
  ParentMove-Inv v (ParentMove.take_status w p q) = ground arith
  ParentMove-Inv v (ParentMove.miss_status w p q l) = ground arith
  ParentMove-Inv v (ParentMove.misread g q) = ground arith
  ParentMove-Inv v (ParentMove.read_end g q l) = ground arith
  ParentMove-Inv v (ParentMove.reap g r) = ground arith

  InitMove-Inv : {s t : State} → Inv sandboxed s → InitMove sandboxed s t → Inv sandboxed t
  InitMove-Inv v (InitMove.take_done r i q) = ground arith
  InitMove-Inv v (InitMove.fork r i) = ground arith
  InitMove-Inv v (InitMove.send_request r i a) = ground arith
  InitMove-Inv v (InitMove.send_pidfd r i a) = ground arith
  InitMove-Inv v (InitMove.take_response r i q) = ground arith
  InitMove-Inv v (InitMove.kill_jailed b r i a) = ground arith
  InitMove-Inv v (InitMove.finish_wait r i g) = ground arith
  InitMove-Inv v (InitMove.send_status r i a) = ground arith
  InitMove-Inv v (InitMove.exit r i) = ground arith
  InitMove-Inv v (InitMove.fail_to_send r i a) = ground arith
  InitMove-Inv v (InitMove.fail_to_read r i q a) = ground arith

  pub Step-Inv : {s t : State} → Inv sandboxed s → Step sandboxed s t → Inv sandboxed t
  Step-Inv v (parent_move m) = ParentMove-Inv v m
  Step-Inv v (init_move m) = InitMove-Inv v m
  Step-Inv v (jailed_move m) = JailedMove-Inv v m
  Step-Inv v (program_ends (end_program e)) = ground arith

  started-Inv : Inv sandboxed (started sandboxed)
  started-Inv = ground arith

  pub Reach-Inv : {n : ℕ} {s : State} → Reach sandboxed n s → Inv sandboxed s
  Reach-Inv start = started-Inv
  Reach-Inv (step r m) = Step-Inv (Reach-Inv r) m
  Reach-Inv (fault r f) = Fault-Inv (Reach-Inv r) f
