-- ===== src/Program/Clean.antt =====
-- When src/omegajail.rs ends well: from the wait of the init process to the end of the program.
use eval_python.Prelude.{
  ℕ, zero, suc, ◌+◌, ◌<◌, ◌^◌, ◌≡◌, ◌↔◌, refl, sym, ap, ◌∙◌, subst, some, List, ◌∷◌, ◌++◌, map,
  length, ok, ok-injective, Io, with_context, pos, negsuc,
}
use eval_python.Prelude.Traced.{◌>>=◌, lift, >>=-of_ok}
use mathlib.Core.Option.{some-injective}
use eval_python.Args.{Args}
use eval_python.Options.Types.{JailOptions}
use eval_python.Options.New
use eval_python.Sys.Status.{WaitStatus, exited, syscalled, signaled, WaitidStatus}
use eval_python.Init.Affinity.{CpuSets}
use eval_python.Init.Start.{InitKernel, returned, watch}
use eval_python.Init.Reported.{waited_until, watch-returned}
use eval_python.Jail.Messages.{Codec}
use eval_python.Jail.Write.{write_message}
use eval_python.Jail.Frames.{concat}
use eval_python.Jail.Wait.{WaitpidReply, reaped, Jail, wait}
use eval_python.Jail.Returned.{wait-write_message}
use eval_python.Jail.Spawn.{handle, spawn, new_jail}
use eval_python.Program.{
  clean, ProgramKernel, spawn_call, is_clean, redirect_log, verdict, conclude, after_spawn, main,
}

-- The program exited with the code 0.
abbrev pub IsCleanExit : WaitStatus → Type 0
IsCleanExit status = (pid : ℕ) × (status ≡ exited pid (pos 0))

module _ (cpus : CpuSets) (codec : Codec WaitidStatus) (kernel : ProgramKernel cpus) where
  conclude_lem :
      (result : WaitidStatus) (status : WaitStatus)
      → (verdict cpus codec kernel result (is_clean status) ≡ ok clean) ↔ IsCleanExit status
  unfolding verdict is_clean
  conclude_lem result (exited pid (pos zero)) = (λ h. (pid, refl), λ h. refl)
  conclude_lem result (exited pid (pos (suc code))) = (λ h. cc, λ (n, e). cc)
  conclude_lem result (exited pid (negsuc code)) = (λ h. cc, λ (n, e). cc)
  conclude_lem result (syscalled pid syscall) = (λ h. cc, λ (n, e). cc)
  conclude_lem result (signaled pid signal) = (λ h. cc, λ (n, e). cc)

  main-of_wait :
      (args : Args) (opts : JailOptions) (jail : Jail)
      → (redirect_log cpus codec kernel args.stderr).1 ≡ ok tt
      → New.new kernel.debug kernel.host args ≡ ok opts
      → (new_jail cpus kernel.spawning opts).1 ≡ ok (handle jail)
      → (main cpus codec kernel args).1
        ≡ conclude cpus codec kernel (wait codec kernel.waiting jail).1
  unfolding main spawn after_spawn
  main-of_wait args opts jail redirected made spawned =
      let started =
        >>=-of_ok
          (lift (with_context "create jail options" (New.new kernel.debug kernel.host args)))
          (new_jail cpus kernel.spawning) (ap (with_context "create jail options") made)
        ∙ spawned in
      let m = spawn cpus kernel.spawning kernel.debug kernel.host args in
      >>=-of_ok (redirect_log cpus codec kernel args.stderr)
        (λ _. (map spawn_call m.0, m.1) >>= after_spawn cpus codec kernel) redirected
      ∙ >>=-of_ok (map spawn_call m.0, m.1) (after_spawn cpus codec kernel) started

  -- From end to end: if the init process returns, having waited for its child with a status, and what
  -- it has written is what reaches the program, which reaps it, then the program ends well exactly if
  -- that status is an exit with the code 0. The hypothesis on the codec is that flexbuffers decodes
  -- what it has encoded; the program has redirected its log, has made the options and has a handle.
  pub main-clean :
      (args : Args) (opts : JailOptions) (jail : Jail) (init : InitKernel cpus) (child : ℕ)
      (sent : List ℕ → Io (Unit {0})) (status : WaitidStatus) (bytes : List ℕ)
      (before after : List WaitpidReply)
      → (redirect_log cpus codec kernel args.stderr).1 ≡ ok tt
      → New.new kernel.debug kernel.host args ≡ ok opts
      → (new_jail cpus kernel.spawning opts).1 ≡ ok (handle jail)
      → ((s : WaitidStatus) → init.status_sent s ≡ (write_message codec sent s).1)
      → (watch cpus init child opts).1 ≡ ok returned
      → (waited_until cpus init child opts (init.now + opts.wall_time_limit)).1 ≡ some (ok status)
      → codec.serialize status ≡ ok bytes
      → codec.decode bytes ≡ ok status
      → length bytes < 2 ^ 63
      → kernel.waiting.stream ≡ concat (write_message codec sent status).0
      → kernel.waiting.replies ≡ before ++ reaped ∷ after
      → ((main cpus codec kernel args).1 ≡ ok clean) ↔ IsCleanExit status.status
  unfolding conclude
  main-clean args opts jail init child sent status bytes before after redirected made spawned socket
        watched waited encoded decoded small received replies =
      let (reported, same, _, _, written, _) = watch-returned cpus init child opts watched in
      let equal : reported ≡ status = ok-injective (some-injective _ _ (sym same ∙ waited)) in
      let status_written =
        sym (socket status) ∙ subst (λ s. init.status_sent s ≡ ok tt) equal written in
      let returns =
        wait-write_message codec kernel.waiting jail sent status bytes before after encoded decoded
          small status_written received replies in
      let whole =
        main-of_wait args opts jail redirected made spawned
        ∙ ap (conclude cpus codec kernel) returns in
      let (to, from) = conclude_lem status status.status in
      (λ h. to (sym whole ∙ h), λ h. whole ∙ from h)
