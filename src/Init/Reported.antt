-- ===== src/Init/Reported.antt =====
-- What `run` of src/jail/child_init.rs does after the fork.
use eval_python.Prelude.{
  ℕ, ◌+◌, ◌≡◌, refl, sym, ap, ◌∙◌, Bool, true, false, List, [], ◌∷◌, ◌++◌, map, Option, none, some,
  Outcome, ok, err, panicked, attempt, with_context-eq-ok, format, display, arith,
}
use eval_python.Prelude.Traced.{Traced, ◌>>=◌, ◌>>◌, context, call, lift, pure, >>=-eq-ok}
use eval_python.Options.Types.{JailOptions}
use eval_python.Sys.Status.{WaitidStatus}
use eval_python.Sys.Files.{pidfd_open, send_file}
use eval_python.Init.Affinity.{CpuSets}
use eval_python.Init.Wait.{WaitCall}
use eval_python.Init.WaitChild.{wait_child}
use eval_python.Init.Start.{
  InitCall, wait_call, write_request, send_pidfd, open_pidfd, read_response, write_status, dropped,
  close, child_sock, read_pipe, write_pipe, InitEnd, returned, InitKernel, hand_pidfd,
  request_cgroup, deadline_of, report, watch,
}

module _ (cpus : CpuSets) (kernel : InitKernel cpus) (child : ℕ) (opts : JailOptions) where
  -- the calls that hand over the pidfd, with a sandbox
  abbrev pub pidfd_calls : Bool → List (InitCall cpus)
  pidfd_calls true = []
  pidfd_calls false = open_pidfd child ∷ send_pidfd ∷ []

  abbrev pub request_calls : List (InitCall cpus)
  request_calls = write_request ∷ (pidfd_calls opts.disable_sandboxing ++ read_response ∷ [])

  append_eq : {a a' b b' : List (InitCall cpus)} → a ≡ a' → b ≡ b' → a ++ b ≡ a' ++ b'
  append_eq h k = cc

  hand_pidfd-lem :
      (disable_sandboxing : Bool)
      → (hand_pidfd cpus kernel child disable_sandboxing).1 ≡ ok tt
      → (hand_pidfd cpus kernel child disable_sandboxing).0 ≡ pidfd_calls disable_sandboxing
  unfolding hand_pidfd
  hand_pidfd-lem true h = refl
  hand_pidfd-lem false h =
      let (_, _, _, trace) =
        >>=-eq-ok
          (context (format ("pidfd_open(" ∷ display child ∷ ")" ∷ [])) (
            call {C = InitCall cpus} (open_pidfd child)
              (pidfd_open kernel.known kernel.pidfd child 0)))
          (λ fd.
            context "send child pidfd" (call send_pidfd (attempt (send_file kernel.pidfd_sent fd))))
          h in
      trace

  request_cgroup-lem :
      (request_cgroup cpus kernel child opts.disable_sandboxing).1 ≡ ok tt
      → (kernel.request_sent ≡ ok tt)
        × (kernel.response ≡ ok tt)
        × ((request_cgroup cpus kernel child opts.disable_sandboxing).0 ≡ request_calls)
  unfolding request_cgroup
  request_cgroup-lem h =
      let (_, sent, h1, trace) =
        >>=-eq-ok (context "write setup cgroup request" (call write_request kernel.request_sent)) _
          h in
      let (_, handed, answered, trace1) =
        >>=-eq-ok (hand_pidfd cpus kernel child opts.disable_sandboxing) _ h1 in
      (
        with_context-eq-ok "write setup cgroup request" _ sent,
        with_context-eq-ok "read setup cgroup response" _ answered,
        trace
            ∙ ap (◌∷◌ write_request)
                (trace1 ∙ append_eq (hand_pidfd-lem opts.disable_sandboxing handed) refl),
      )

  deadline_of-eq-ok :
      (start limit : ℕ) {deadline : ℕ}
      → deadline_of start limit ≡ ok deadline
      → start + limit ≡ deadline
  unfolding deadline_of
  deadline_of-eq-ok start limit h = ground arith

  report-returned :
      (w : List WaitCall × Option (Outcome WaitidStatus))
      → (report cpus kernel w).1 ≡ ok returned
      → (status : WaitidStatus) × (w.1 ≡ some (ok status))
        × (kernel.status_sent status ≡ ok tt)
        × ((report cpus kernel w).0 ≡ map wait_call w.0 ++ write_status status ∷ [])
  unfolding report
  report-returned (calls, none) h = cc
  report-returned (calls, some (err e)) h = cc
  report-returned (calls, some panicked) h = cc
  report-returned (calls, some (ok status)) h =
      let (_, sent, _, trace) =
        >>=-eq-ok
          (context "write status"
            (call {C = InitCall cpus} (write_status status) (kernel.status_sent status)))
          (λ _. pure returned) h in
      (status, refl, with_context-eq-ok "write status" _ sent, append_eq refl trace)

  -- the wait for the child, with a deadline
  abbrev pub waited_until : ℕ → List WaitCall × Option (Outcome WaitidStatus)
  waited_until deadline = wait_child kernel.waits child kernel.now deadline opts

  released : ℕ → Traced (InitCall cpus) InitEnd
  released deadline =
      let first : Traced (InitCall cpus) (Unit {0}) = (dropped write_pipe ∷ [], ok tt) in
      first >> report cpus kernel (waited_until deadline)

  -- If the init process returns with the jailed process forked, then the parent has been asked for the
  -- cgroup, with the pidfd if there is a sandbox, and has answered; only then the pipe is dropped that
  -- holds the jailed process back, and the child is waited for, with a deadline that is the wall time
  -- limit after that; and the status of this wait, and no other, is written to the parent, last.
  pub watch-returned :
      (watch cpus kernel child opts).1 ≡ ok returned
      → (status : WaitidStatus) × ((waited_until (kernel.now + opts.wall_time_limit)).1
          ≡ some (ok status))
        × (kernel.request_sent ≡ ok tt)
        × (kernel.response ≡ ok tt)
        × (kernel.status_sent status ≡ ok tt)
        × ((watch cpus kernel child opts).0
            ≡ dropped child_sock
              ∷ dropped read_pipe
              ∷ close 0
              ∷ close 1
              ∷ (request_calls
                  ++ dropped write_pipe
                    ∷ (map wait_call (waited_until (kernel.now + opts.wall_time_limit)).0
                        ++ write_status status ∷ [])))
  unfolding watch released
  watch-returned h =
      let (_, requested, h1, trace) =
        >>=-eq-ok (request_cgroup cpus kernel child opts.disable_sandboxing)
          (λ _. lift (deadline_of kernel.now opts.wall_time_limit) >>= released) h in
      let (deadline, timed, h2, trace1) =
        >>=-eq-ok (lift (deadline_of kernel.now opts.wall_time_limit)) released h1 in
      let (status, waited, sent, calls) = report-returned (waited_until deadline) h2 in
      let (asked, answered, requests) = request_cgroup-lem requested in
      let exact = deadline_of-eq-ok kernel.now opts.wall_time_limit timed in
      (
        status,
        ap (λ d. (waited_until d).1) exact ∙ waited,
        asked,
        answered,
        sent,
        ap (λ more. dropped child_sock ∷ dropped read_pipe ∷ close 0 ∷ close 1 ∷ more)
            (trace
              ∙ append_eq requests (
                  trace1
                  ∙ ap (◌∷◌ (dropped write_pipe)) (
                      calls
                      ∙ ap (λ d. map wait_call (waited_until d).0 ++ write_status status ∷ [])
                          (sym exact)))),
      )
