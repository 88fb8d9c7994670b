-- ===== src/Protocol/Progress.antt =====
-- No state is stuck: one of the processes has a step, until all are at their end.
use eval_python.Prelude.{
  ◌≡◌, refl, arith, Bool, true, false, Bool-cases, ◌⊎◌, inl, inr, List, [], ◌∷◌,
}
use eval_python.Protocol.{
  Message, setup_done, request, pidfd, response, status, ParentAt, mapping, awaiting_request,
  awaiting_pidfd, grouping, awaiting_status, got_status, Mode, working, giving_up, reaping,
  returned, crashed, InitAt, starting, setting_up, requesting, handing, awaiting_response, watching,
  reporting, reported, JailedAt, unborn, born, confining, holding, executing, gone, State, is_alive,
  is_attached, ParentMove, InitMove, JailedMove,
}
use eval_python.Protocol.Invariant.{Inv}

module _ (sandboxed : Bool) where
  -- The parent has returned from `wait`, unless it was killed; the init process has ended; and there is
  -- no jailed process, unless there is no sandbox: then the program may go on.
  abbrev pub IsFinal : State → Type 0
  IsFinal s =
      (is_attached s.mode ≡ false)
      × (s.running ≡ false)
      × ((is_alive s.jailed ≡ false) ⊎ ((sandboxed ≡ false) × (s.jailed ≡ executing)))

  -- One of the processes can go on, whatever the program does.
  abbrev pub CanStep : State → Type 0
  CanStep s =
      (t : State) × (ParentMove sandboxed s t ⊎ (InitMove sandboxed s t ⊎ JailedMove sandboxed s t))

  -- There is no sandbox, and the init process waits for the program, which is executed.
  abbrev pub RunsProgram : State → Type 0
  RunsProgram s =
      (sandboxed ≡ false) × (s.running ≡ true) × (s.init ≡ watching) × (s.jailed ≡ executing)

  -- The first message in a queue, or its end.
  abbrev Front : List Message → Type 0
  Front queue = (queue ≡ []) ⊎ ((m : Message) × (rest : List Message) × (queue ≡ m ∷ rest))

  front : (queue : List Message) → Front queue
  front [] = inl refl
  front (m ∷ rest) = inr (m, rest, refl)

  module _ (s : State) (v : Inv sandboxed s) where
    -- with the jailed process at a place where it does not go on by itself
    abbrev IsSettled : Type 0
    IsSettled = (s.jailed ≡ born → ⊥) × (s.jailed ≡ confining → ⊥)

    -- The parent is read or is at its end, where the init process has ended.
    parent_alone :
        s.running ≡ false
        → IsSettled
        → (m : Mode) (p : ParentAt) → s.mode ≡ m
        → s.parent ≡ p
        → (is_attached s.mode ≡ false) ⊎ CanStep s
    parent_alone r j working mapping e f =
        inr (_, inl (ParentMove.fail_send e (ground arith) (ground arith)))
    parent_alone r j working grouping e f =
        inr (_, inl (ParentMove.fail_send e (ground arith) (ground arith)))
    parent_alone r j working awaiting_request e f = elim (front s.to_parent) [
      | inl empty ↦ inr (_, inl (ParentMove.fail_read e (ground arith) empty (ground arith)))
      | inr (m, rest, q) ↦
          let q' : s.to_parent ≡ request ∷ rest = ground arith in
          inr (_, inl (ParentMove.take_request e f q'))
    ]
    parent_alone r j working awaiting_pidfd e f = elim (front s.to_parent) [
      | inl empty ↦ inr (_, inl (ParentMove.fail_read e (ground arith) empty (ground arith)))
      | inr (m, rest, q) ↦
          let q' : s.to_parent ≡ pidfd ∷ rest = ground arith in
          inr (_, inl (ParentMove.take_pidfd e f q'))
    ]
    parent_alone r j working awaiting_status e f = elim (front s.to_parent) [
      | inl empty ↦ inr (_, inl (ParentMove.miss_status e f empty (ground arith)))
      | inr (m, rest, q) ↦
          let q' : s.to_parent ≡ status ∷ rest = ground arith in
          inr (_, inl (ParentMove.take_status e f q'))
    ]
    parent_alone r j working got_status e f = absurd (ground arith)
    parent_alone r j giving_up p e f = elim (front s.to_parent) [
      | inl empty ↦ inr (_, inl (ParentMove.read_end e empty (ground arith)))
      | inr (m, rest, q) ↦ inr (_, inl (ParentMove.misread e q))
    ]
    parent_alone r j reaping p e f = inr (_, inl (ParentMove.reap e r))
    parent_alone r j returned p e f = inl (ground arith)
    parent_alone r j crashed p e f = inl (ground arith)

    -- The jailed process is at its end, where the init process has ended.
    jailed_alone :
        s.running ≡ false
        → (j : JailedAt) → s.jailed ≡ j
        → ((is_alive s.jailed ≡ false) ⊎ ((sandboxed ≡ false) × (s.jailed ≡ executing))) ⊎ CanStep s
    jailed_alone r unborn e = inl (inl (ground arith))
    jailed_alone r born e = inr (_, inr (inr (JailedMove.drop_copies e)))
    jailed_alone r confining e = inr (_, inr (inr (JailedMove.reach_pipe e)))
    jailed_alone r holding e = inr (_, inr (inr (JailedMove.execute_orphaned e r)))
    jailed_alone r executing e = elim (Bool-cases sandboxed) [
      | inl on ↦ inr (_, inr (inr (JailedMove.die_with_init on r (ground arith))))
      | inr off ↦ inl (inr (off, e))
    ]
    jailed_alone r gone e = inl (inl (ground arith))

    -- The init process waits for a message: it is there, or the parent can go on to send it.
    parent_feeds :
        s.running ≡ true
        → s.to_init ≡ []
        → is_attached s.mode ≡ true
        → (s.init ≡ starting) ⊎ (s.init ≡ awaiting_response)
        → (m : Mode) (p : ParentAt) → s.mode ≡ m
        → s.parent ≡ p
        → CanStep s
    parent_feeds r q a i working mapping e f = (_, inl (ParentMove.send_done e f (ground arith)))
    parent_feeds r q a i working awaiting_request e f = elim (front s.to_parent) [
      | inl empty ↦ absurd (ground arith)
      | inr (m, rest, o) ↦
          let o' : s.to_parent ≡ request ∷ rest = ground arith in
          (_, inl (ParentMove.take_request e f o'))
    ]
    parent_feeds r q a i working awaiting_pidfd e f = elim (front s.to_parent) [
      | inl empty ↦ absurd (ground arith)
      | inr (m, rest, o) ↦
          let o' : s.to_parent ≡ pidfd ∷ rest = ground arith in
          (_, inl (ParentMove.take_pidfd e f o'))
    ]
    parent_feeds r q a i working grouping e f =
        (_, inl (ParentMove.send_response e f (ground arith)))
    parent_feeds r q a i working awaiting_status e f = absurd (ground arith)
    parent_feeds r q a i working got_status e f = absurd (ground arith)
    parent_feeds r q a i giving_up p e f = absurd (ground arith)
    parent_feeds r q a i reaping p e f = absurd (ground arith)
    parent_feeds r q a i returned p e f = absurd (ground arith)
    parent_feeds r q a i crashed p e f = absurd (ground arith)

    init_goes_on :
        s.running ≡ true
        → IsSettled
        → (i : InitAt) (j : JailedAt) → s.init ≡ i
        → s.jailed ≡ j
        → CanStep s ⊎ RunsProgram s
    init_goes_on r settled starting j e g = elim (front s.to_init) [
      | inr (m, rest, q) ↦
          let q' : s.to_init ≡ setup_done ∷ rest = ground arith in
          inl (_, inr (inl (InitMove.take_done r e q')))
      | inl empty ↦ elim (Bool-cases (is_attached s.mode)) [
        | inl there ↦ inl (parent_feeds r empty there (inl e) s.mode s.parent refl refl)
        | inr lost ↦ inl (_, inr (inl (InitMove.fail_to_read r (ground arith) empty lost)))
      ]
    ]
    init_goes_on r settled setting_up j e g = inl (_, inr (inl (InitMove.fork r e)))
    init_goes_on r settled requesting j e g = elim (Bool-cases (is_attached s.mode)) [
      | inl there ↦ inl (_, inr (inl (InitMove.send_request r e there)))
      | inr lost ↦ inl (_, inr (inl (InitMove.fail_to_send r (ground arith) lost)))
    ]
    init_goes_on r settled handing j e g = elim (Bool-cases (is_attached s.mode)) [
      | inl there ↦ inl (_, inr (inl (InitMove.send_pidfd r e there)))
      | inr lost ↦ inl (_, inr (inl (InitMove.fail_to_send r (ground arith) lost)))
    ]
    init_goes_on r settled awaiting_response j e g = elim (front s.to_init) [
      | inr (m, rest, q) ↦
          let q' : s.to_init ≡ response ∷ rest = ground arith in
          inl (_, inr (inl (InitMove.take_response r e q')))
      | inl empty ↦ elim (Bool-cases (is_attached s.mode)) [
        | inl there ↦ inl (parent_feeds r empty there (inr e) s.mode s.parent refl refl)
        | inr lost ↦ inl (_, inr (inl (InitMove.fail_to_read r (ground arith) empty lost)))
      ]
    ]
    init_goes_on r settled watching unborn e g = absurd (ground arith)
    init_goes_on r settled watching born e g = inl (_, inr (inr (JailedMove.drop_copies g)))
    init_goes_on r settled watching confining e g = inl (_, inr (inr (JailedMove.reach_pipe g)))
    init_goes_on r settled watching holding e g =
        inl (_, inr (inr (JailedMove.execute_released g (ground arith))))
    init_goes_on r settled watching executing e g = elim (Bool-cases sandboxed) [
      | inl on ↦ inl (_, inr (inl (InitMove.kill_jailed on r e (ground arith))))
      | inr off ↦ inr (off, r, e, g)
    ]
    init_goes_on r settled watching gone e g = inl (_, inr (inl (InitMove.finish_wait r e g)))
    init_goes_on r settled reporting j e g = elim (Bool-cases (is_attached s.mode)) [
      | inl there ↦ inl (_, inr (inl (InitMove.send_status r e there)))
      | inr lost ↦ inl (_, inr (inl (InitMove.fail_to_send r (ground arith) lost)))
    ]
    init_goes_on r settled reported j e g = inl (_, inr (inl (InitMove.exit r e)))

    settled_goes_on : IsSettled → IsFinal s ⊎ (CanStep s ⊎ RunsProgram s)
    settled_goes_on settled = elim (Bool-cases s.running) [
      | inl r ↦ inr (init_goes_on r settled s.init s.jailed refl refl)
      | inr r ↦ elim (parent_alone r settled s.mode s.parent refl refl) [
        | inr next ↦ inr (inl next)
        | inl lost ↦ elim (jailed_alone r s.jailed refl) [
          | inr next ↦ inr (inl next)
          | inl over ↦ inl (lost, r, over)
        ]
      ]
    ]

    goes_on : (j : JailedAt) → s.jailed ≡ j → IsFinal s ⊎ (CanStep s ⊎ RunsProgram s)
    goes_on unborn e = settled_goes_on (λ b. ground arith, λ c. ground arith)
    goes_on born e = inr (inl (_, inr (inr (JailedMove.drop_copies e))))
    goes_on confining e = inr (inl (_, inr (inr (JailedMove.reach_pipe e))))
    goes_on holding e = settled_goes_on (λ b. ground arith, λ c. ground arith)
    goes_on executing e = settled_goes_on (λ b. ground arith, λ c. ground arith)
    goes_on gone e = settled_goes_on (λ b. ground arith, λ c. ground arith)

  pub Inv-CanStep : (s : State) → Inv sandboxed s → IsFinal s ⊎ (CanStep s ⊎ RunsProgram s)
  Inv-CanStep s v = goes_on s v s.jailed refl
