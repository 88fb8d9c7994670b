-- ===== src/Init/BeforeFork.antt =====
-- The order of everything in `run` of src/jail/child_init.rs before the jailed process is there.
use eval_python.Prelude.{
  ◌≡◌, refl, sym, ap, ◌∙◌, true, false, List, [], ◌∷◌, ◌++◌, map, ok, done, attempt, attempt-eq-ok,
  with_context-eq-ok,
}
use eval_python.Prelude.Traced.{context, call, >>=-eq-ok}
use eval_python.Options.Types.{JailOptions}
use eval_python.Sys.Capabilities.{set_no_new_privs}
use eval_python.Init.Affinity.{CpuSets, set_cpu_affinity}
use eval_python.Init.Privileges.{drop_privileges}
use eval_python.Init.Namespaces.{setup_net_namespace, setup_mount_namespace}
use eval_python.Init.Start.{
  InitCall, affinity_call, namespace_call, privilege_call, setresuid, setresgid, read_done,
  make_sockets, make_pipe, fork, InitKernel, part, take_ids, sandbox, set_up, close_ranges,
  close_inherited, until_fork, after_fork, run,
}
use eval_python.Init.Forked.{
  forks, part-quiet, >>=-forks, Forks, >>-Forks, Forks-first, take_ids-quiet, set_up-quiet,
  close_inherited-quiet, set_up-sandboxed, close_inherited-sandboxed,
}

module _ (cpus : CpuSets) (kernel : InitKernel cpus) (opts : JailOptions) where
  -- Every part of the sandbox ended well.
  pub record IsSandboxed : Type 0 where
    pub one_cpu : (set_cpu_affinity cpus kernel.affinity).1 ≡ ok tt
    pub parent_done : kernel.setup_done ≡ ok tt
    pub uids : kernel.uids_set ≡ done tt
    pub gids : kernel.gids_set ≡ done tt
    pub net : (setup_net_namespace kernel.namespaces).1 ≡ ok tt
    pub mounts : (setup_mount_namespace kernel.namespaces opts).1 ≡ ok tt
    pub privileges : (drop_privileges kernel.privileges).1 ≡ ok tt
    pub no_new_privs : (set_no_new_privs kernel.privileges).1 ≡ ok tt
    pub closed : (close_ranges cpus kernel).1 ≡ ok tt

  append_eq : {a a' b b' : List (InitCall cpus)} → a ≡ a' → b ≡ b' → a ++ b ≡ a' ++ b'
  append_eq h k = cc

  abbrev pub ids_calls : List (InitCall cpus)
  ids_calls =
      setresuid kernel.uid kernel.uid kernel.uid ∷ setresgid kernel.gid kernel.gid kernel.gid ∷ []

  take_ids-lem :
      (take_ids cpus kernel).1 ≡ ok tt
      → (kernel.uids_set ≡ done tt)
        × (kernel.gids_set ≡ done tt)
        × ((take_ids cpus kernel).0 ≡ ids_calls)
  unfolding take_ids
  take_ids-lem h =
      let (_, uids_ok, gids_ok, trace) =
        >>=-eq-ok
          (context "setresuid"
            (call (setresuid kernel.uid kernel.uid kernel.uid) (attempt kernel.uids_set)))
          _ h in
      (
        attempt-eq-ok kernel.uids_set (with_context-eq-ok "setresuid" _ uids_ok),
        attempt-eq-ok kernel.gids_set (with_context-eq-ok "setresgid" _ gids_ok),
        trace,
      )

  abbrev pub sandbox_calls : List (InitCall cpus)
  sandbox_calls =
      map namespace_call (setup_net_namespace kernel.namespaces).0
      ++ (map namespace_call (setup_mount_namespace kernel.namespaces opts).0
          ++ (map privilege_call (drop_privileges kernel.privileges).0
              ++ map privilege_call (set_no_new_privs kernel.privileges).0))

  sandbox-lem :
      (sandbox cpus kernel opts).1 ≡ ok tt
      → ((setup_net_namespace kernel.namespaces).1 ≡ ok tt)
        × ((setup_mount_namespace kernel.namespaces opts).1 ≡ ok tt)
        × ((drop_privileges kernel.privileges).1 ≡ ok tt)
        × ((set_no_new_privs kernel.privileges).1 ≡ ok tt)
        × ((sandbox cpus kernel opts).0 ≡ sandbox_calls)
  unfolding sandbox
  sandbox-lem h =
      let (_, net_ok, h1, trace) =
        >>=-eq-ok
          (context "setup net namespace"
            (part cpus namespace_call (setup_net_namespace kernel.namespaces)))
          _ h in
      let (_, mounts_ok, h2, trace1) =
        >>=-eq-ok
          (context "setup mount namespace"
            (part cpus namespace_call (setup_mount_namespace kernel.namespaces opts)))
          _ h1 in
      let (_, drop_ok, last_ok, trace2) =
        >>=-eq-ok
          (context "drop privileges" (part cpus privilege_call (drop_privileges kernel.privileges)))
          _ h2 in
      (
        with_context-eq-ok "setup net namespace" _ net_ok,
        with_context-eq-ok "setup mount namespace" _ mounts_ok,
        with_context-eq-ok "drop privileges" _ drop_ok,
        with_context-eq-ok "set_no_new_privs" _ last_ok,
        trace ∙ append_eq refl (trace1 ∙ append_eq refl trace2),
      )

  until_fork-Forks : Forks cpus (until_fork cpus kernel opts)
  unfolding until_fork
  until_fork-Forks =
      >>-Forks cpus
        (context "set cpu affinity"
          (part cpus affinity_call (set_cpu_affinity cpus kernel.affinity)))
        _
        (>>-Forks cpus (context "wait for parent setup done" (call read_done kernel.setup_done)) _ (
          >>-Forks cpus (take_ids cpus kernel) _ (
            >>-Forks cpus (set_up cpus kernel opts) _ (
              >>-Forks cpus (close_inherited cpus kernel opts.disable_sandboxing) _ (
                >>-Forks cpus
                  (context "create socket pair" (call make_sockets (attempt kernel.pair))) _
                  (>>-Forks cpus (context "create pipe" (call make_pipe (attempt kernel.pipe)))
                    (context "fork" (call fork (attempt kernel.forked))) λ a h. refl))))))

  -- the calls of `run` with a sandbox, up to the fork
  abbrev pub calls_until_fork : List (InitCall cpus)
  calls_until_fork =
      map affinity_call (set_cpu_affinity cpus kernel.affinity).0
      ++ (read_done
          ∷ (ids_calls
              ++ (sandbox_calls
                  ++ ((close_ranges cpus kernel).0 ++ make_sockets ∷ make_pipe ∷ fork ∷ []))))

  until_fork-lem :
      opts.disable_sandboxing ≡ false
      → forks cpus (until_fork cpus kernel opts).0 ≡ true
      → IsSandboxed × ((until_fork cpus kernel opts).0 ≡ calls_until_fork)
  unfolding until_fork
  until_fork-lem sandboxed h =
      let (_, cpu_ok, h1, trace) =
        >>=-forks cpus
          (context "set cpu affinity"
            (part cpus affinity_call (set_cpu_affinity cpus kernel.affinity)))
          _ (part-quiet cpus "" affinity_call (set_cpu_affinity cpus kernel.affinity) (λ c. refl))
          h in
      let (_, done_ok, h2, trace1) =
        >>=-forks cpus (context "wait for parent setup done" (call read_done kernel.setup_done)) _
          refl h1 in
      let (_, ids_ok, h3, trace2) =
        >>=-forks cpus (take_ids cpus kernel) _ (take_ids-quiet cpus kernel opts) h2 in
      let (_, set_ok, h4, trace3) =
        >>=-forks cpus (set_up cpus kernel opts) _ (set_up-quiet cpus kernel opts sandboxed) h3 in
      let (_, close_ok, h5, trace4) =
        >>=-forks cpus (close_inherited cpus kernel opts.disable_sandboxing) _
          (close_inherited-quiet cpus kernel opts sandboxed) h4 in
      let (_, _, h6, trace5) =
        >>=-forks cpus (context "create socket pair" (call make_sockets (attempt kernel.pair))) _
          refl h5 in
      let (_, _, _, trace6) =
        >>=-forks cpus (context "create pipe" (call make_pipe (attempt kernel.pipe))) _ refl h6 in
      let (uids, gids, ids) = take_ids-lem ids_ok in
      let (net, mounts, privileges, no_new_privs, parts) =
        sandbox-lem (ap (λ m. m.1) (sym (set_up-sandboxed cpus kernel opts sandboxed)) ∙ set_ok) in
      let closes = close_inherited-sandboxed cpus kernel opts sandboxed in
      (
        record {
          one_cpu = with_context-eq-ok "set cpu affinity" _ cpu_ok;
          parent_done = with_context-eq-ok "wait for parent setup done" _ done_ok;
          uids = uids;
          gids = gids;
          net = net;
          mounts = mounts;
          privileges = privileges;
          no_new_privs = no_new_privs;
          closed = ap (λ m. m.1) (sym closes) ∙ close_ok;
        },
        trace
            ∙ append_eq refl (
                trace1
                ∙ ap (◌∷◌ read_done) (
                    trace2
                    ∙ append_eq ids (
                        trace3
                        ∙ append_eq
                            (ap (λ m. m.0) (set_up-sandboxed cpus kernel opts sandboxed) ∙ parts)
                            (trace4
                              ∙ append_eq (ap (λ m. m.0) closes)
                                  (trace5 ∙ ap (◌∷◌ make_sockets) trace6))))),
      )

  -- If the init process of a jail with a sandbox gets as far as the fork, then before it, in this order
  -- and each of them well: the processor was chosen; the parent said that the mappings are done; the
  -- user and the group were taken; the network, the hostname and the mounts were set up; the
  -- privileges were dropped, and no new ones are possible; the ranges of descriptors were closed; and
  -- the sockets and the pipe were made. No other call was made before the fork.
  pub run-IsSandboxed :
      opts.disable_sandboxing ≡ false
      → forks cpus (run cpus kernel opts).0 ≡ true
      → IsSandboxed
        × (rest : List (InitCall cpus)) × ((run cpus kernel opts).0 ≡ calls_until_fork ++ rest)
  unfolding run
  run-IsSandboxed sandboxed h =
      let (forked, rest, trace) =
        Forks-first cpus (until_fork cpus kernel opts) (after_fork cpus kernel opts)
          until_fork-Forks h in
      let (confined, calls) = until_fork-lem sandboxed forked in
      (confined, rest, trace ∙ append_eq calls refl)
