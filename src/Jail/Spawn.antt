-- ===== src/Jail/Spawn.antt =====
-- `Command` and `Jail::new` of src/jail/mod.rs.
use eval_python.Prelude.{
  ℕ, zero, suc, ◌+◌, Bool, String, List, [], ◌∷◌, ◌++◌, map, Outcome, ok, err, panicked, Io,
  attempt, with_context, ℤ, pos, if◌then◌else◌,
}
use eval_python.Prelude.Traced.{Traced, ◌>>=◌, ◌>>◌, pure, call, lift, context}
use eval_python.Args.{Args}
use eval_python.Options.Types.{JailOptions, Host}
use eval_python.Options.New
use eval_python.Sys.Files.{CloneArgs, LinuxCloneArgs, clone3}
use eval_python.Cgroups.{CGroup}
use eval_python.Parent.{ParentCall, ParentKernel, setup_child}
use eval_python.Init.Affinity.{CpuSets}
use eval_python.Init.Start.{
  InitCall, InitEnd, InitKernel, ForkResult, parent_of, in_child, returned, waiting, exited,
}
use eval_python.Init.Start
use eval_python.Jail.Wait.{Jail, sigkill}

-- CLONE_NEWUSER, CLONE_NEWPID, CLONE_NEWIPC, CLONE_NEWUTS and CLONE_NEWCGROUP
abbrev pub clone_flags : ℕ
clone_flags = 0x10000000 + 0x20000000 + 0x08000000 + 0x04000000 + 0x02000000

-- SIGCHLD
abbrev pub clone_args : CloneArgs
clone_args = record { flags = pos clone_flags; exit_signal = pos 17 }

-- Each of the processes that `Jail::new` returns or ends in: a handle in the parent, and in the init
-- process and in the jailed one a code, or the wait for the child after the last pass that is given.
pub data Spawned : Type 0 where
  handle : Jail → Spawned
  ended : ℕ → Spawned
  unfinished : Spawned

unfoldable pub init_end : Outcome InitEnd → Outcome Spawned
init_end (ok returned) = ok (ended 0)
init_end (ok waiting) = ok unfinished
init_end (ok (exited code)) = ok (ended code)
init_end (err e) = ok (ended 1)
init_end panicked = panicked

module _ (cpus : CpuSets) where
  pub data SpawnCall : Type 0 where
    make_sockets fork : SpawnCall
    clone : CloneArgs → SpawnCall
    drop_parent_sock drop_parent_jail_sock : SpawnCall
    init_call : InitCall cpus → SpawnCall
    parent_call : ParentCall → SpawnCall
    kill_child : ℕ → ℕ → SpawnCall

  pub record SpawnKernel : Type 0 where
    pub known : ℕ → Bool
    pub pair : Io (Unit {0})
    pub now : ℕ
    pub forked : Io ForkResult
    pub cloned : LinuxCloneArgs → ℕ → ℤ
    pub init : InitKernel cpus
    pub parent : ParentKernel
    pub killed : ℕ → Io (Unit {0})

  -- the number of the child, and 0 in the child
  abbrev pub number_of : ForkResult → ℕ
  number_of (parent_of child) = child
  number_of in_child = 0

  module _ (kernel : SpawnKernel) where
    unfoldable pub start_child : Bool → Traced SpawnCall ℕ
    start_child disable_sandboxing =
        if disable_sandboxing
        then (context "fork" (call fork (attempt kernel.forked)) >>= λ r. pure (number_of r))
        else context "clone"
            (call (clone clone_args) (clone3 kernel.known kernel.cloned clone_args))

    unfoldable pub become_init : JailOptions → Traced SpawnCall Spawned
    unfolding init_end
    become_init opts =
        let m = Start.run cpus kernel.init opts in
        (drop_parent_sock ∷ map init_call m.0, init_end m.1)

    abbrev pub jail_of : ℕ → JailOptions → List CGroup → Jail
    jail_of child opts cgroups = record {
      child = child;
      child_start = kernel.now;
      meta = opts.meta;
      cgroups = map (λ cgroup. cgroup.path) cgroups;
    }

    -- the `match` on the setup
    unfoldable pub after_setup : ℕ → JailOptions → Outcome (List CGroup) → Traced SpawnCall Spawned
    after_setup child opts (ok cgroups) = pure (handle (jail_of child opts cgroups))
    after_setup child opts (err e) =
        context "kill child" (call (kill_child child sigkill) (attempt (kernel.killed child)))
        >> pure (handle (jail_of child opts []))
    after_setup child opts panicked = lift panicked

    unfoldable pub help_child : ℕ → JailOptions → Traced SpawnCall Spawned
    unfolding after_setup
    help_child child opts =
        let m = setup_child kernel.parent child opts in
        let (calls, r) = after_setup child opts m.1 in
        (drop_parent_jail_sock ∷ (map parent_call m.0 ++ calls), r)

    unfoldable pub after_start : JailOptions → ℕ → Traced SpawnCall Spawned
    unfolding become_init help_child
    after_start opts zero = become_init opts
    after_start opts (suc n) = help_child (suc n) opts

    unfoldable pub new_jail : JailOptions → Traced SpawnCall Spawned
    unfolding start_child after_start
    new_jail opts =
        context "create socket pair" (call make_sockets (attempt kernel.pair))
        >> (start_child opts.disable_sandboxing >>= after_start opts)

    -- `Command::new(args).spawn()`
    unfoldable pub spawn : (String → String) → Host → Args → Traced SpawnCall Spawned
    unfolding new_jail
    spawn debug host args =
        lift (with_context "create jail options" (New.new debug host args)) >>= new_jail
