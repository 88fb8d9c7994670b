-- ===== src/Jail/Handle.antt =====
-- The handle that `Jail::new` of src/jail/mod.rs returns.
use eval_python.Prelude.{ℕ, ◌≡◌, Bool, true, false, List, [], ◌∷◌, ok, err, Error, done, ◌⊎◌}
use eval_python.Options.Types.{JailOptions}
use eval_python.Cgroups.{CGroup}
use eval_python.Parent.{setup_child}
use eval_python.Init.Affinity.{CpuSets}
use eval_python.Init.Start
use eval_python.Jail.Wait.{Jail, sigkill}
use eval_python.Jail.Spawn.{
  Spawned, handle, ended, unfinished, SpawnCall, fork, clone, kill_child, clone_args, SpawnKernel,
  jail_of,
}

module _ (cpus : CpuSets) (kernel : SpawnKernel cpus) (opts : JailOptions) where
  -- how the child is started
  abbrev pub start_call : Bool → SpawnCall cpus
  start_call true = fork
  start_call false = clone clone_args

  -- The child is set up, or the setup has failed and the child is killed; with the calls for it.
  abbrev pub IsHelped : ℕ → Jail → List (SpawnCall cpus) → Type 0
  IsHelped child jail kills =
      ((cgroups : List CGroup) × (jail ≡ jail_of cpus kernel child opts cgroups)
        × ((setup_child kernel.parent child opts).1 ≡ ok cgroups)
        × (kills ≡ []))
      ⊎ ((e : Error) × (jail ≡ jail_of cpus kernel child opts [])
          × ((setup_child kernel.parent child opts).1 ≡ err e)
          × (kernel.killed child ≡ done tt)
          × (kills ≡ kill_child child sigkill ∷ []))

  spawned_jail : Jail → Spawned → Jail
  spawned_jail d (handle jail) = jail
  spawned_jail d (ended code) = d
  spawned_jail d unfinished = d
