-- ===== src/Init/Confined.antt =====
-- Everything that `run` of src/jail/child_init.rs mounts before the fork, with the options that
-- `JailOptions::new` of src/jail/options.rs has made.
use eval_python.Prelude.{
  ◌≡◌, refl, ap, ◌∙◌, true, false, String, Option, none, List, [], ◌∷◌, ◌++◌, map, ok, All,
  filter_map, filter_map-append, filter_map-map, ltb, ◌-◌, Bool-cases, inl, inr, append-nil,
}
use eval_python.Args.{Args}
use eval_python.Options.Types.{MountArgs, JailOptions, Host}
use eval_python.Options.New.{new}
use eval_python.Options.BindCases.{IsInside}
use eval_python.Options.Confined.{IsWithin, new-IsWithin}
use eval_python.Options.Writable.{IsRequested, new-IsRequested}
use eval_python.Prelude.Traced.{Traced, ◌>>◌, continue-filter_map}
use eval_python.Init.Affinity.{CpuSets, set_cpu_affinity}
use eval_python.Init.Streams.{redirect_streams}
use eval_python.Init.Privileges.{drop_privileges}
use eval_python.Sys.Capabilities.{PrivilegeCall, set_no_new_privs}
use eval_python.Init.Namespaces.{
  NamespaceCall, unshare_net, set_hostname, NamespaceKernel, umount, stream_call, private_mount,
  rootfs_mount, readonly_root, tmp_mount, setup_net_namespace, setup_mount_namespace,
}
use eval_python.Init.Mounted.{mount_of, mounts_of, acts-lem, setup_mount_namespace-order}
use eval_python.Init.Start.{
  InitCall, namespace_call, affinity_call, privilege_call, InitKernel, close_one_range,
  close_ranges, run,
}
use eval_python.Init.Forked.{forks}
use eval_python.Init.BeforeFork.{sandbox_calls, calls_until_fork, IsSandboxed, run-IsSandboxed}

filter_map-none_of_map {ℓ κ μ} :
    {A : Type ℓ} {B : Type κ} {C : Type μ} (into : A → B) (f : B → Option C) (xs : List A)
    → ((a : A) → f (into a) ≡ none)
    → filter_map f (map into xs) ≡ []
unfolding filter_map
filter_map-none_of_map into f [] quiet = refl
filter_map-none_of_map into f (x ∷ xs) quiet = rw (quiet x, filter_map-none_of_map into f xs quiet)

All-both {ℓ κ μ} :
    {A : Type ℓ} (P : A → Type κ) (Q : A → Type μ) (xs : List A)
    → All P xs
    → All Q xs
    → All (λ x. P x × Q x) xs
All-both P Q [] hp hq = tt
All-both P Q (x ∷ xs) hp hq = ((hp.0, hq.0), All-both P Q xs hp.1 hq.1)

-- the mounts of the new root itself, once the mounts of the options are there
abbrev pub root_mounts : String → List MountArgs
root_mounts rootfs = rootfs_mount rootfs ∷ private_mount "." ∷ readonly_root ∷ tmp_mount ∷ []

abbrev pub all_mounts : JailOptions → List MountArgs
all_mounts opts = private_mount "/" ∷ opts.mounts ++ root_mounts opts.rootfs

module _ (kernel : NamespaceKernel) (opts : JailOptions) where
  setup_net_namespace-mounts :
      (setup_net_namespace kernel).1 ≡ ok tt → mounts_of (setup_net_namespace kernel).0 ≡ []
  unfolding setup_net_namespace filter_map
  setup_net_namespace-mounts h = ap mounts_of (
      acts-lem kernel
        (("unshare(CLONE_NEWNET)", unshare_net)
          ∷ ("sethostname(omegajail)", set_hostname "omegajail")
          ∷ [])
        h)

  setup_mount_namespace-mounts :
      (setup_mount_namespace kernel opts).1 ≡ ok tt
      → mounts_of (setup_mount_namespace kernel opts).0 ≡ all_mounts opts
  unfolding filter_map
  setup_mount_namespace-mounts h =
      let (prepared, same, trace) = setup_mount_namespace-order kernel opts h in
      let streams = map stream_call (redirect_streams kernel.streams opts).0 in
      rw (
        trace,
        filter_map-append mount_of prepared,
        same,
        filter_map-append mount_of streams (umount "/mnt/stdio" ∷ []),
        filter_map-none_of_map stream_call mount_of (redirect_streams kernel.streams opts).0
            (λ c. refl),
      )

-- the mounts among the calls of the init process
abbrev pub mount_made : {cpus : CpuSets} → InitCall cpus → Option MountArgs
mount_made (namespace_call c) = mount_of c
mount_made other = none

abbrev pub mounts_made : {cpus : CpuSets} → List (InitCall cpus) → List MountArgs
mounts_made calls = filter_map mount_made calls

module _ (cpus : CpuSets) (kernel : InitKernel cpus) (opts : JailOptions) where
  >>-mounts :
      (m k : Traced (InitCall cpus) (Unit {0}))
      → mounts_made m.0 ≡ []
      → mounts_made k.0 ≡ []
      → mounts_made (m >> k).0 ≡ []
  >>-mounts m k first second = continue-filter_map mount_made m.0 m.1 (λ _. k) first λ _. second

  close_ranges-mounts : mounts_made (close_ranges cpus kernel).0 ≡ []
  unfolding close_ranges close_one_range filter_map
  close_ranges-mounts = elim (Bool-cases (ltb 3 (kernel.socket - 1))) [
    | inl gap ↦ rw gap (
        >>-mounts (close_one_range cpus kernel _ 3 _) (close_one_range cpus kernel _ _ _) refl refl)
    | inr none_between ↦ rw none_between refl
  ]

  namespace_calls-mounts :
      (calls : List NamespaceCall)
      → mounts_made {cpus = cpus} (map namespace_call calls) ≡ mounts_of calls
  namespace_calls-mounts calls = filter_map-map namespace_call mount_made calls

  privilege_calls-mounts :
      (calls : List PrivilegeCall) → mounts_made {cpus = cpus} (map privilege_call calls) ≡ []
  privilege_calls-mounts calls = filter_map-none_of_map privilege_call mount_made calls λ c. refl

  sandbox_calls-mounts :
      IsSandboxed cpus kernel opts → mounts_made (sandbox_calls cpus kernel opts) ≡ all_mounts opts
  sandbox_calls-mounts sandboxed =
      let net = (setup_net_namespace kernel.namespaces).0 in
      let mounts = (setup_mount_namespace kernel.namespaces opts).0 in
      let drops = (drop_privileges kernel.privileges).0 in
      rw
        (
          filter_map-append mount_made (map namespace_call net),
          filter_map-append mount_made (map namespace_call mounts),
          filter_map-append mount_made (map privilege_call drops),
          namespace_calls-mounts net,
          namespace_calls-mounts mounts,
          privilege_calls-mounts drops,
          privilege_calls-mounts (set_no_new_privs kernel.privileges).0,
          setup_net_namespace-mounts kernel.namespaces opts sandboxed.net,
          setup_mount_namespace-mounts kernel.namespaces opts sandboxed.mounts,
        )
        (append-nil (all_mounts opts))

  calls_until_fork-mounts :
      IsSandboxed cpus kernel opts
      → mounts_made (calls_until_fork cpus kernel opts) ≡ all_mounts opts
  unfolding filter_map
  calls_until_fork-mounts sandboxed =
      rw
        (
          filter_map-append mount_made
              (map affinity_call (set_cpu_affinity cpus kernel.affinity).0),
          filter_map-none_of_map affinity_call mount_made (set_cpu_affinity cpus kernel.affinity).0
              (λ c. refl),
          filter_map-append mount_made (sandbox_calls cpus kernel opts),
          filter_map-append mount_made (close_ranges cpus kernel).0,
          close_ranges-mounts,
        )
        (append-nil (mounts_made (sandbox_calls cpus kernel opts)) ∙ sandbox_calls-mounts sandboxed)

  -- For an init process with a sandbox that gets as far as the fork, with the options of a successful
  -- `new`: what it has mounted by then is, in this order, `/` as private, the mounts of the options, and
  -- the new root with its read-only remount and its /tmp, and nothing else. The target of every mount of
  -- the options is the root of the jail joined with a relative path that has no component `..`; and a
  -- bind that is not asked to be read-only is that of the home directory, which was asked to be
  -- writable, or of the file that takes an output. Every `--bind` has the form `SOURCE:/RELATIVE`, with
  -- a relative path that has no component `..`.
  pub run-confined :
      (debug : String → String) (host : Host) (args : Args)
      → new debug host args ≡ ok opts
      → All IsInside args.bind
      → opts.disable_sandboxing ≡ false
      → forks cpus (run cpus kernel opts).0 ≡ true
      → (after : List (InitCall cpus)) × ((run cpus kernel opts).0
          ≡ calls_until_fork cpus kernel opts ++ after)
        × (mounts_made (calls_until_fork cpus kernel opts)
            ≡ private_mount "/" ∷ opts.mounts
              ++ rootfs_mount opts.rootfs ∷ private_mount "." ∷ readonly_root ∷ tmp_mount ∷ [])
        × All (λ m. IsWithin opts.rootfs m × IsRequested host args opts.rootfs m) opts.mounts
  run-confined debug host args made inside sandboxed h =
      let (confined, after, trace) = run-IsSandboxed cpus kernel opts sandboxed h in
      (
        after,
        trace,
        calls_until_fork-mounts confined,
        All-both (IsWithin opts.rootfs) (IsRequested host args opts.rootfs) opts.mounts
            (new-IsWithin debug host args opts made inside)
            (new-IsRequested debug host args opts made),
      )
