-- ===== src/Init/Start.antt =====
-- `run` of src/jail/child_init.rs, up to the fork and on both sides of it.
use eval_python.Prelude.{
  ℕ, ◌+◌, ◌-◌, ◌*◌, ◌^◌, ltb, Bool, not, String, Option, none, some, List, [], ◌∷◌, ◌++◌, map,
  Outcome, ok, err, panicked, Io, attempt, ℤ, format, display, if◌then◌else◌,
}
use eval_python.Prelude.Traced.{Traced, ◌>>=◌, ◌>>◌, pure, call, lift, context}
use eval_python.Options.Types.{JailOptions}
use eval_python.Sys.Capabilities.{PrivilegeCall, PrivilegeKernel, set_no_new_privs}
use eval_python.Sys.Status.{WaitidStatus}
use eval_python.Sys.Files.{close_range, pidfd_open, send_file}
use eval_python.Child.{ChildCall, ChildKernel}
use eval_python.Child
use eval_python.Init.Affinity.{CpuSets, AffinityCall, AffinityKernel, set_cpu_affinity}
use eval_python.Init.Privileges.{drop_privileges}
use eval_python.Init.Streams.{StreamCall, StreamKernel, setup_unsandboxed_filesystem}
use eval_python.Init.Namespaces.{
  NamespaceCall, NamespaceKernel, setup_net_namespace, setup_mount_namespace,
}
use eval_python.Init.Wait.{WaitCall, WaitKernel}
use eval_python.Init.WaitChild.{wait_child}

-- What is dropped on one side of the fork.
pub data Owned : Type 0 where
  parent_jail_sock jail_sock child_sock read_pipe write_pipe : Owned

pub data ForkResult : Type 0 where
  parent_of : ℕ → ForkResult
  in_child : ForkResult

-- How `run` ends well: it returns, it exits with a code, or it still waits after the last pass that
-- is given.
pub data InitEnd : Type 0 where
  returned waiting : InitEnd
  exited : ℕ → InitEnd

-- the end of the jailed process, where it is not replaced by the program
unfoldable pub exit_code : Outcome (Unit {0}) → Outcome InitEnd
exit_code (ok a) = ok (exited 0)
exit_code (err e) = ok (exited 1)
exit_code panicked = panicked

-- `child_start.add(limit)` panics beyond the range of an `Instant`, which has signed seconds.
unfoldable pub deadline_of : ℕ → ℕ → Outcome ℕ
deadline_of start limit =
    if ltb (start + limit) (2 ^ 63 * 1000000000) then ok (start + limit) else panicked

module _ (cpus : CpuSets) where
  pub data InitCall : Type 0 where
    affinity_call : AffinityCall cpus → InitCall
    namespace_call : NamespaceCall → InitCall
    privilege_call : PrivilegeCall → InitCall
    stream_call : StreamCall → InitCall
    wait_call : WaitCall → InitCall
    child_call : ChildCall → InitCall
    -- `ParentSetupDoneEvent`, `SetupCgroupRequest`, a descriptor, `SetupCgroupResponse`, the status
    read_done write_request send_pidfd read_response : InitCall
    write_status : WaitidStatus → InitCall
    setresuid setresgid : ℕ → ℕ → ℕ → InitCall
    range_closed : ℕ → Option ℕ → InitCall
    make_sockets make_pipe fork : InitCall
    dropped : Owned → InitCall
    close : ℕ → InitCall
    open_pidfd : ℕ → InitCall

  -- The answers of the system and of the sockets, `socket` for the descriptor of the socket to the
  -- parent, and `now` for the clock after the parent's response.
  pub record InitKernel : Type 0 where
    pub known : ℕ → Bool
    pub affinity : AffinityKernel cpus
    pub namespaces : NamespaceKernel
    pub privileges : PrivilegeKernel
    pub streams : StreamKernel
    pub waits : WaitKernel
    pub child : ChildKernel
    pub setup_done : Outcome (Unit {0})
    pub uid : ℕ
    pub gid : ℕ
    pub uids_set : Io (Unit {0})
    pub gids_set : Io (Unit {0})
    pub socket : ℕ
    pub ranges : ℕ → ℕ → ℕ → ℤ
    pub pair : Io (Unit {0})
    pub pipe : Io (Unit {0})
    pub forked : Io ForkResult
    pub request_sent : Outcome (Unit {0})
    pub pidfd : ℕ → ℕ → ℤ
    pub pidfd_sent : ℕ → Io (Unit {0})
    pub response : Outcome (Unit {0})
    pub now : ℕ
    pub status_sent : WaitidStatus → Outcome (Unit {0})

  abbrev pub Init {ℓ} : Type ℓ → Type ℓ
  Init A = Traced InitCall A

  -- the calls of a part
  abbrev pub part {ℓ} : {C : Type 0} {A : Type ℓ} → (C → InitCall) → Traced C A → Init A
  part into m = (map into m.0, m.1)

  module _ (kernel : InitKernel) where
    -- `uid` and `gid` three times each
    unfoldable pub take_ids : Init (Unit {0})
    take_ids =
        context "setresuid"
          (call (setresuid kernel.uid kernel.uid kernel.uid) (attempt kernel.uids_set))
        >> context "setresgid"
            (call (setresgid kernel.gid kernel.gid kernel.gid) (attempt kernel.gids_set))

    unfoldable pub sandbox : JailOptions → Init (Unit {0})
    sandbox opts =
        context "setup net namespace" (part namespace_call (setup_net_namespace kernel.namespaces))
        >> (context "setup mount namespace"
              (part namespace_call (setup_mount_namespace kernel.namespaces opts))
            >> (context "drop privileges" (part privilege_call (drop_privileges kernel.privileges))
                >> context "set_no_new_privs"
                    (part privilege_call (set_no_new_privs kernel.privileges))))

    unfoldable pub set_up : JailOptions → Init (Unit {0})
    unfolding sandbox
    set_up opts =
        if not opts.disable_sandboxing
        then sandbox opts
        else context "setup filesystem"
            (part stream_call (setup_unsandboxed_filesystem kernel.streams opts))

    unfoldable pub close_one_range : String → ℕ → Option ℕ → Init (Unit {0})
    close_one_range text first last =
        context text
          (call (range_closed first last) (close_range kernel.known kernel.ranges first last 0))

    -- everything above the standard streams but the socket
    unfoldable pub close_ranges : Init (Unit {0})
    unfolding close_one_range
    close_ranges =
        let before = kernel.socket - 1 in
        let behind = kernel.socket + 1 in
        (if ltb 3 before
          then close_one_range (format ("close_range(3, " ∷ display before ∷ ")" ∷ [])) 3
              (some before)
          else pure tt)
        >> close_one_range (format ("close_range(" ∷ display behind ∷ ", ~0U)" ∷ [])) behind none

    unfoldable pub close_inherited : Bool → Init (Unit {0})
    unfolding close_ranges
    close_inherited disable_sandboxing = if not disable_sandboxing then close_ranges else pure tt

    unfoldable pub until_fork : JailOptions → Init ForkResult
    unfolding take_ids set_up close_inherited
    until_fork opts =
        context "set cpu affinity" (part affinity_call (set_cpu_affinity cpus kernel.affinity))
        >> (context "wait for parent setup done" (call read_done kernel.setup_done)
            >> (take_ids
                >> (set_up opts
                    >> (close_inherited opts.disable_sandboxing
                        >> (context "create socket pair" (call make_sockets (attempt kernel.pair))
                            >> (context "create pipe" (call make_pipe (attempt kernel.pipe))
                                >> context "fork" (call fork (attempt kernel.forked))))))))

    unfoldable pub hand_pidfd : ℕ → Bool → Init (Unit {0})
    hand_pidfd child disable_sandboxing =
        if not disable_sandboxing
        then (context (format ("pidfd_open(" ∷ display child ∷ ")" ∷ []))
              (call (open_pidfd child) (pidfd_open kernel.known kernel.pidfd child 0))
            >>= λ fd.
                context "send child pidfd"
                  (call send_pidfd (attempt (send_file kernel.pidfd_sent fd))))
        else pure tt

    -- the request for a cgroup, up to the response
    unfoldable pub request_cgroup : ℕ → Bool → Init (Unit {0})
    unfolding hand_pidfd
    request_cgroup child disable_sandboxing =
        context "write setup cgroup request" (call write_request kernel.request_sent)
        >> (hand_pidfd child disable_sandboxing
            >> context "read setup cgroup response" (call read_response kernel.response))

    unfoldable pub report : List WaitCall × Option (Outcome WaitidStatus) → Init InitEnd
    report (calls, none) = (map wait_call calls, ok waiting)
    report (calls, some r) = (map wait_call calls, r) >>= λ status.
        context "write status" (call (write_status status) (kernel.status_sent status))
        >> pure returned

    unfoldable pub watch : ℕ → JailOptions → Init InitEnd
    unfolding request_cgroup deadline_of report
    watch child opts =
        (dropped child_sock ∷ dropped read_pipe ∷ close 0 ∷ close 1 ∷ [], ok tt)
        >> (request_cgroup child opts.disable_sandboxing
            >> (lift (deadline_of kernel.now opts.wall_time_limit) >>= λ deadline.
                (dropped write_pipe ∷ [], ok tt)
                >> report (wait_child kernel.waits child kernel.now deadline opts)))

    unfoldable pub become_child : JailOptions → Init InitEnd
    unfolding exit_code
    become_child opts =
        let m = Child.run kernel.child opts in
        (
          (dropped parent_jail_sock ∷ dropped jail_sock ∷ dropped write_pipe ∷ [])
              ++ map child_call m.0,
          exit_code m.1,
        )

    unfoldable pub after_fork : JailOptions → ForkResult → Init InitEnd
    unfolding watch become_child
    after_fork opts (parent_of child) = watch child opts
    after_fork opts in_child = become_child opts

    unfoldable pub run : JailOptions → Init InitEnd
    unfolding until_fork after_fork
    run opts = until_fork opts >>= after_fork opts
