-- ===== src/Init/Deadline.antt =====
-- How the wait for the child in src/jail/child_init.rs ends.
use eval_python.Prelude.{
  ℕ, ◌-◌, ◌^◌, ◌<◌, ◌≤◌, ◌==◌, ◌≡◌, refl, sym, ap, ◌∙◌, arith, ltb, true, false, Bool-cases, String,
  none, some, List, [], ◌∷◌, ◌++◌, All, as_millis, ok, bail, format, ◌⊎◌, inl, inr, ==_iff,
}
use eval_python.Sys.Seccomp.{out_of_range}
use eval_python.Sys.Status.{signaled, syscalled}
use eval_python.Init.Wait.{
  WaitCall, epoll_wait, kill, EpollReply, ready, interrupted, refused, Round, WaitKernel, sigkill,
  sigxcpu, Waited, notified, notification_reads, seccomp_read_notification, kill_child, on_events,
  on_reply, wait_loop,
}

module _ (deadline : ℕ) where
  -- A pass before the deadline in which nothing happens.
  abbrev pub IsQuiet : Round → Type 0
  IsQuiet round =
      (round.now < deadline)
      × (as_millis (deadline - round.now) < 2 ^ 63)
      × ((round.reply ≡ interrupted) ⊎ (round.reply ≡ ready []))

  -- the timeouts of the passes
  abbrev pub timeouts : List Round → List WaitCall
  timeouts [] = []
  timeouts (round ∷ rest) = epoll_wait (as_millis (deadline - round.now)) ∷ timeouts rest

  module _ (kernel : WaitKernel) (child child_pidfd : ℕ) where
    -- At the deadline or later, the child is killed, and the status is that of the time limit.
    abbrev pub IsLate : Round → Waited → Type 0
    IsLate round w = (deadline ≤ round.now) × (w ≡ kill_child kernel child (signaled child sigxcpu))

    -- Before it, the child has ended.
    abbrev pub IsOver : Round → Waited → Type 0
    IsOver round w =
        (round.now < deadline)
        × (more : List ℕ) × (round.reply ≡ ready (child_pidfd ∷ more))
        × (w ≡ (epoll_wait (as_millis (deadline - round.now)) ∷ [], some (ok none)))

    -- Before it, the filter has stopped the child, which is killed; the status is the system call.
    abbrev pub IsStopped : Round → Waited → Type 0
    IsStopped round w =
        (round.now < deadline)
        × (event : ℕ) × (more : List ℕ) × (¬ event ≡ child_pidfd)
        × (round.reply ≡ ready (event ∷ more))
        × (w ≡ (
          epoll_wait (as_millis (deadline - round.now))
              ∷ (notification_reads kernel.interruptions ++ kill sigkill ∷ []),
          (kill_child kernel child (syscalled child (notified kernel.notification))).1,
        ))

    -- Before it, epoll_wait fails, or the timeout is too large for it.
    abbrev pub IsBroken : Round → Waited → Type 0
    IsBroken round w =
        (round.now < deadline)
        × (((text : String) × (round.reply ≡ refused text)
              × (w ≡ (
                epoll_wait (as_millis (deadline - round.now)) ∷ [],
                some (bail (format ("epoll_wait: " ∷ text ∷ []))),
              )))
            ⊎ ((2 ^ 63 ≤ as_millis (deadline - round.now)) × (w ≡ ([], some out_of_range))))

    abbrev pub IsDecided : Round → Waited → Type 0
    IsDecided round w = IsLate round w ⊎ (IsOver round w ⊎ (IsStopped round w ⊎ IsBroken round w))

    abbrev loop : List Round → Waited
    loop = wait_loop kernel child child_pidfd deadline

    abbrev replied : Round → List Round → Waited
    replied round rest = on_reply kernel child child_pidfd (loop rest) round.reply

    pub late_lem :
        (round : Round) (rest : List Round)
        → deadline ≤ round.now
        → IsLate round (loop (round ∷ rest))
    unfolding wait_loop
    late_lem round rest late =
        let over : ((deadline - round.now) == 0) ≡ true = ground arith in (late, rw over)

    wide_lem :
        (round : Round) (rest : List Round)
        → round.now < deadline
        → 2 ^ 63 ≤ as_millis (deadline - round.now)
        → loop (round ∷ rest) ≡ ([], some out_of_range)
    unfolding wait_loop
    wide_lem round rest early wide =
        let time : ((deadline - round.now) == 0) ≡ false = ground arith in
        let size : ltb (as_millis (deadline - round.now)) (2 ^ 63) ≡ false = ground arith in
        rw (time, size)

    early_lem :
        (round : Round) (rest : List Round)
        → round.now < deadline
        → as_millis (deadline - round.now) < 2 ^ 63
        → loop (round ∷ rest) ≡ (
          epoll_wait (as_millis (deadline - round.now)) ∷ (replied round rest).0,
          (replied round rest).1,
        )
    unfolding wait_loop
    early_lem round rest early fits =
        let time : ((deadline - round.now) == 0) ≡ false = ground arith in
        let size : ltb (as_millis (deadline - round.now)) (2 ^ 63) ≡ true = ground arith in
        rw (time, size)

    quiet_lem :
        (round : Round) (rest : List Round)
        → IsQuiet round
        → loop (round ∷ rest)
          ≡ (epoll_wait (as_millis (deadline - round.now)) ∷ (loop rest).0, (loop rest).1)
    unfolding on_reply on_events
    quiet_lem round rest (early, fits, inl e) = early_lem round rest early fits ∙ rw e
    quiet_lem round rest (early, fits, inr e) = early_lem round rest early fits ∙ rw e

    pub quiet_append :
        (quiet rest : List Round)
        → All IsQuiet quiet
        → wait_loop kernel child child_pidfd deadline (quiet ++ rest) ≡ (
          timeouts quiet ++ (wait_loop kernel child child_pidfd deadline rest).0,
          (wait_loop kernel child child_pidfd deadline rest).1,
        )
    quiet_append [] rest all_quiet = refl
    quiet_append (round ∷ quiet) rest (first, others) =
        quiet_lem round (quiet ++ rest) first
        ∙ ap (λ w. (epoll_wait (as_millis (deadline - round.now)) ∷ w.0, w.1))
            (quiet_append quiet rest others)

    replied_lem :
        (round : Round) (rest : List Round)
        → round.now < deadline
        → as_millis (deadline - round.now) < 2 ^ 63
        → (reply : EpollReply) → round.reply ≡ reply
        → IsQuiet round ⊎ IsDecided round (loop (round ∷ rest))
    unfolding on_reply on_events kill_child seccomp_read_notification
    replied_lem round rest early fits interrupted e = inl (early, fits, inl e)
    replied_lem round rest early fits (ready []) e = inl (early, fits, inr e)
    replied_lem round rest early fits (ready (event ∷ more)) e =
        let unrolled = early_lem round rest early fits in
        inr (
          inr (elim (Bool-cases (event == child_pidfd)) [
            | inl child_event ↦
                let same : event ≡ child_pidfd = (==_iff event child_pidfd).0 child_event in
                inl
                  (early, more, e ∙ ap (λ n. ready (n ∷ more)) same, unrolled ∙ rw (e, child_event))
            | inr other ↦ inr (
                inl (
                  early,
                  event,
                  more,
                  (λ same. cc ((==_iff event child_pidfd).1 same)),
                  e,
                  unrolled ∙ rw (e, other),
                ))
          ]))
    replied_lem round rest early fits (refused text) e =
        inr (inr (inr (inr (early, inl (text, e, early_lem round rest early fits ∙ rw e)))))

    round_lem :
        (round : Round) (rest : List Round) → IsQuiet round ⊎ IsDecided round (loop (round ∷ rest))
    round_lem round rest = elim (Bool-cases (ltb round.now deadline)) [
      | inr late ↦ inr (inl (late_lem round rest (ground arith)))
      | inl early ↦ elim (Bool-cases (ltb (as_millis (deadline - round.now)) (2 ^ 63))) [
        | inl fits ↦ replied_lem round rest (ground arith) (ground arith) round.reply refl
        | inr wide ↦
            let early' : round.now < deadline = ground arith in
            let wide' : 2 ^ 63 ≤ as_millis (deadline - round.now) = ground arith in
            inr (inr (inr (inr (early', inr (wide', wide_lem round rest early' wide')))))
      ]
    ]

    -- The wait, whatever the clock and the kernel do: either nothing happens in any of the passes, all
    -- before the deadline, and it goes on; or it ends in the first pass in which something happens,
    -- by one of the ways to end in a pass, after a call of epoll_wait for each pass before.
    pub wait_loop-cases :
        (rounds : List Round)
        → (All IsQuiet rounds
            × (wait_loop kernel child child_pidfd deadline rounds ≡ (timeouts rounds, none)))
          ⊎ ((quiet : List Round) × (round : Round) × (rest : List Round) × (rounds
                ≡ quiet ++ round ∷ rest)
              × All IsQuiet quiet
              × (w : Waited) × IsDecided round w
              × (wait_loop kernel child child_pidfd deadline rounds ≡ (timeouts quiet ++ w.0, w.1)))
    unfolding wait_loop
    wait_loop-cases [] = inl (tt, refl)
    wait_loop-cases (round ∷ rest) = elim (round_lem round rest) [
      | inr decided ↦ inr ([], round, rest, refl, tt, loop (round ∷ rest), decided, refl)
      | inl quiet ↦
          let step = quiet_lem round rest quiet in
          elim (wait_loop-cases rest) [
            | inl (all_quiet, ends) ↦ inl (
              (quiet, all_quiet),
              step ∙ ap (λ w. (epoll_wait (as_millis (deadline - round.now)) ∷ w.0, w.1)) ends,
            )
            | inr (before, decisive, after, split, quiet_before, w, decided, ends) ↦ inr (
              round ∷ before,
              decisive,
              after,
              ap (◌∷◌ round) split,
              (quiet, quiet_before),
              w,
              decided,
              step ∙ ap (λ w. (epoll_wait (as_millis (deadline - round.now)) ∷ w.0, w.1)) ends,
            )
          ]
    ]

    not-IsQuiet :
        (before : List Round) (late : Round) (after : List Round)
        → deadline ≤ late.now
        → ¬ All IsQuiet (before ++ late ∷ after)
    not-IsQuiet [] late after h (quiet, _) = omega (arith, quiet.0)
    not-IsQuiet (round ∷ before) late after h (_, rest) = not-IsQuiet before late after h rest

    decided_ends : (round : Round) (w : Waited) → IsDecided round w → ¬ w.1 ≡ none
    unfolding kill_child
    decided_ends round w (inl (_, e)) h = cc (sym (ap (λ p. p.1) e) ∙ h)
    decided_ends round w (inr (inl (_, _, _, e))) h = cc (sym (ap (λ p. p.1) e) ∙ h)
    decided_ends round w (inr (inr (inl (_, _, _, _, _, e)))) h = cc (sym (ap (λ p. p.1) e) ∙ h)
    decided_ends round w (inr (inr (inr (_, inl (_, _, e))))) h = cc (sym (ap (λ p. p.1) e) ∙ h)
    decided_ends round w (inr (inr (inr (_, inr (_, e))))) h = cc (sym (ap (λ p. p.1) e) ∙ h)

    -- The wait ends once there is a pass at or after the deadline, whatever the other passes are.
    pub wait_loop-ends :
        (before : List Round) (late : Round) (after : List Round)
        → deadline ≤ late.now
        → ¬ (wait_loop kernel child child_pidfd deadline (before ++ late ∷ after)).1 ≡ none
    wait_loop-ends before late after h unended = elim (wait_loop-cases (before ++ late ∷ after)) [
      | inl (quiet, _) ↦ not-IsQuiet before late after h quiet
      | inr (_, round, _, _, _, w, decided, ends) ↦
          decided_ends round w decided (sym (ap (λ p. p.1) ends) ∙ unended)
    ]
