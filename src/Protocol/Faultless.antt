-- ===== src/Protocol/Faultless.antt =====
-- Without a fault, nothing fails: the status reaches the parent.
use eval_python.Prelude.{ℕ, ◌≡◌, refl, arith, Bool, true, false, ◌⊎◌, inl, inr}
use eval_python.Protocol.{
  program_ends, end_program, got_status, Mode, working, reaping, returned, reported, State,
  ParentMove, InitMove, JailedMove, Step, Reach, start, step, fault, parent_move, init_move,
  jailed_move, has_fault,
}
use eval_python.Protocol.Invariant.{Inv}
use eval_python.Protocol.Kept.{Reach-Inv}

abbrev pub is_working : Mode → Bool
is_working working = true
is_working other = false

module _ (sandboxed : Bool) where
  -- The parent does not give up, and the init process ends only after its report.
  pub record IsSound (s : State) : Type 0 where
    pub good : (s.mode ≡ working) ⊎ ((s.mode ≡ reaping) ⊎ (s.mode ≡ returned))
    pub late : s.running ≡ false → s.init ≡ reported
    pub got : is_working s.mode ≡ false → s.parent ≡ got_status

  ParentMove-IsSound :
      {s t : State} → Inv sandboxed s → IsSound s → ParentMove sandboxed s t → IsSound t
  ParentMove-IsSound v o (ParentMove.send_done w p l) = ground arith
  ParentMove-IsSound v o (ParentMove.take_request w p q) = ground arith
  ParentMove-IsSound v o (ParentMove.take_pidfd w p q) = ground arith
  ParentMove-IsSound v o (ParentMove.send_response w p l) = ground arith
  ParentMove-IsSound v o (ParentMove.fail_send w p l) = absurd (ground arith)
  ParentMove-IsSound v o (ParentMove.fail_read w p q l) = absurd (ground arith)
  ParentMove-IsSound v o (ParentMove.take_status w p q) = ground arith
  ParentMove-IsSound v o (ParentMove.miss_status w p q l) = absurd (ground arith)
  ParentMove-IsSound v o (ParentMove.misread g q) = absurd (ground arith)
  ParentMove-IsSound v o (ParentMove.read_end g q l) = absurd (ground arith)
  ParentMove-IsSound v o (ParentMove.reap g r) = ground arith

  InitMove-IsSound :
      {s t : State} → Inv sandboxed s → IsSound s → InitMove sandboxed s t → IsSound t
  InitMove-IsSound v o (InitMove.take_done r i q) = ground arith
  InitMove-IsSound v o (InitMove.fork r i) = ground arith
  InitMove-IsSound v o (InitMove.send_request r i a) = ground arith
  InitMove-IsSound v o (InitMove.send_pidfd r i a) = ground arith
  InitMove-IsSound v o (InitMove.take_response r i q) = ground arith
  InitMove-IsSound v o (InitMove.kill_jailed b r i a) = ground arith
  InitMove-IsSound v o (InitMove.finish_wait r i g) = ground arith
  InitMove-IsSound v o (InitMove.send_status r i a) = ground arith
  InitMove-IsSound v o (InitMove.exit r i) = ground arith
  InitMove-IsSound v o (InitMove.fail_to_send r i a) = absurd (ground arith)
  InitMove-IsSound v o (InitMove.fail_to_read r i q a) = absurd (ground arith)

  Step-IsSound : {s t : State} → Inv sandboxed s → IsSound s → Step sandboxed s t → IsSound t
  Step-IsSound v o (parent_move m) = ParentMove-IsSound v o m
  Step-IsSound v o (init_move m) = InitMove-IsSound v o m
  Step-IsSound v o (jailed_move (JailedMove.drop_copies e)) = ground arith
  Step-IsSound v o (jailed_move (JailedMove.reach_pipe e)) = ground arith
  Step-IsSound v o (jailed_move (JailedMove.execute_released e r)) = ground arith
  Step-IsSound v o (jailed_move (JailedMove.execute_orphaned e r)) = ground arith
  Step-IsSound v o (jailed_move (JailedMove.die_with_init b r a)) = ground arith
  Step-IsSound v o (program_ends (end_program e)) = ground arith

  pub Reach-IsSound :
      {n : ℕ} {s : State} (r : Reach sandboxed n s) → (has_fault sandboxed r ≡ true) ⊎ IsSound s
  Reach-IsSound start = inr (ground arith)
  Reach-IsSound (step r m) = elim (Reach-IsSound r) [
    | inl faulty ↦ inl faulty
    | inr sound ↦ inr (Step-IsSound (Reach-Inv sandboxed r) sound m)
  ]
  Reach-IsSound (fault r f) = inl refl
