-- ===== src/Program.antt =====
-- src/omegajail.rs: the command line program.
pub mod Clean
use eval_python.Prelude.{
  ℕ, zero, suc, String, Option, none, some, [], ◌∷◌, map, Outcome, ok, err, panicked, bail, Io,
  attempt, pos, negsuc, format,
}
use eval_python.Prelude.Traced.{Traced, ◌>>=◌, ◌>>◌, pure, call, context}
use eval_python.Args.{Args}
use eval_python.Options.Types.{Host}
use eval_python.Sys.Status.{WaitStatus, exited, syscalled, signaled, WaitidStatus}
use eval_python.Init.Affinity.{CpuSets}
use eval_python.Jail.Messages.{Codec}
use eval_python.Jail.Wait.{JailCall, JailKernel, wait}
use eval_python.Jail.Spawn.{Spawned, handle, ended, unfinished, SpawnCall, SpawnKernel, spawn}

-- How the program goes on: it returns, it ends in one of the other processes, or a loop has not ended
-- with the passes or replies that are given.
pub data ProgramEnd : Type 0 where
  clean : ProgramEnd
  elsewhere : ℕ → ProgramEnd
  undecided : ProgramEnd

-- `WaitStatus::Exited(_, 0)`
unfoldable pub is_clean : WaitStatus → Option ℕ
is_clean (exited pid (pos zero)) = some pid
is_clean (exited pid (pos (suc code))) = none
is_clean (exited pid (negsuc code)) = none
is_clean (syscalled pid syscall) = none
is_clean (signaled pid signal) = none

module _ (cpus : CpuSets) where
  pub data ProgramCall : Type 0 where
    create_stderr append_stderr : String → ProgramCall
    -- dup2 of the file onto STDERR_FILENO, and the drop of the file
    dup_stderr : ℕ → ProgramCall
    spawn_call : SpawnCall cpus → ProgramCall
    jail_call : JailCall → ProgramCall

  -- `debug` is `{:?}` of a text and `debug_status` that of a status.
  pub record ProgramKernel : Type 0 where
    pub created : Io (Unit {0})
    pub appended : Io ℕ
    pub duplicated : Io (Unit {0})
    pub host : Host
    pub debug : String → String
    pub debug_status : WaitidStatus → String
    pub spawning : SpawnKernel cpus
    pub waiting : JailKernel

  module _ (codec : Codec WaitidStatus) (kernel : ProgramKernel) where
    unfoldable pub redirect_log : Option String → Traced ProgramCall (Unit {0})
    redirect_log none = pure tt
    redirect_log (some path) =
        context (format ("create stderr " ∷ path ∷ []))
          (call (create_stderr path) (attempt kernel.created))
        >> (context (format ("open stderr for appending " ∷ path ∷ []))
              (call (append_stderr path) (attempt kernel.appended))
            >>= λ fd. call (dup_stderr fd) (attempt kernel.duplicated))

    unfoldable pub verdict : WaitidStatus → Option ℕ → Outcome ProgramEnd
    verdict result (some pid) = ok clean
    verdict result none =
        bail (format ("jail did not exit cleanly: " ∷ kernel.debug_status result ∷ []))

    -- what is made of the result of `wait`
    unfoldable pub conclude : Option (Outcome WaitidStatus) → Outcome ProgramEnd
    unfolding verdict is_clean
    conclude none = ok undecided
    conclude (some (ok result)) = verdict result (is_clean result.status)
    conclude (some (err e)) = err e
    conclude (some panicked) = panicked

    unfoldable pub after_spawn : Spawned → Traced ProgramCall ProgramEnd
    unfolding conclude
    after_spawn (handle jail) =
        let (calls, r) = wait codec kernel.waiting jail in (map jail_call calls, conclude r)
    after_spawn (ended code) = pure (elsewhere code)
    after_spawn unfinished = pure undecided

    unfoldable pub main : Args → Traced ProgramCall ProgramEnd
    unfolding redirect_log after_spawn
    main args =
        let spawned = spawn cpus kernel.spawning kernel.debug kernel.host args in
        let m : Traced ProgramCall Spawned = (map spawn_call spawned.0, spawned.1) in
        redirect_log args.stderr >> (m >>= after_spawn)
