-- ===== src/Parent/Setup.antt =====
-- The order of what src/jail/parent.rs does.
use eval_python.Prelude.{
  ℕ, ◌≡◌, refl, sym, ap, ◌∙◌, false, String, List, [], ◌∷◌, ◌++◌, ok, err, panicked, attempt,
  with_context-eq-ok, ok-injective, format, display, join,
}
use eval_python.Prelude.Traced.{Traced, ◌>>◌, pure, call, context, >>=-eq-ok}
use eval_python.Options.Types.{JailOptions}
use eval_python.Cgroups.{CGroup}
use eval_python.Parent.{
  ParentCall, open_file, send_done, read_request, receive_pidfd, send_response, ParentKernel,
  or_drop, write_proc, mapping, setup_ugid_mapping, setup_cgroup, setup_cgroups, map_if_sandboxed,
  respond, setup_child,
}

-- Where what is guarded ends well, nothing is dropped.
or_drop-eq-ok :
    {A : Type 0} (cgroups : List CGroup) (m : Traced ParentCall A) {a : A}
    → (or_drop cgroups m).1 ≡ ok a
    → or_drop cgroups m ≡ m
unfolding or_drop
or_drop-eq-ok [] m h = refl
or_drop-eq-ok (cgroup ∷ cgroups) (calls, ok a) h = refl
or_drop-eq-ok (cgroup ∷ cgroups) (calls, err e) h = cc
or_drop-eq-ok (cgroup ∷ cgroups) (calls, panicked) h = cc

module _ (kernel : ParentKernel) where
  abbrev pub proc_calls : String → String → List ParentCall
  proc_calls path contents = open_file path ∷ ParentCall.write_file path contents ∷ []

  write_proc-lem :
      (path contents : String)
      → (write_proc kernel path contents).1 ≡ ok tt
      → (write_proc kernel path contents).0 ≡ proc_calls path contents
  unfolding write_proc
  write_proc-lem path contents h =
      let (_, _, _, trace) =
        >>=-eq-ok
          (context (format ("open " ∷ kernel.debug path ∷ []))
            (call (open_file path) (attempt (kernel.opened path))))
          _ h in
      trace

  -- The groups are denied between the mapping of the user and that of the group.
  abbrev pub mapping_calls : ℕ → List ParentCall
  mapping_calls child =
      let proc_dir = format ("/proc/" ∷ display child ∷ []) in
      proc_calls (join proc_dir "uid_map") (mapping kernel kernel.uid)
      ++ (proc_calls (join proc_dir "setgroups") "deny"
          ++ proc_calls (join proc_dir "gid_map") (mapping kernel kernel.gid))

  append_eq : {a a' b b' : List ParentCall} → a ≡ a' → b ≡ b' → a ++ b ≡ a' ++ b'
  append_eq h k = cc

  setup_ugid_mapping-lem :
      (child : ℕ)
      → (setup_ugid_mapping kernel child).1 ≡ ok tt
      → (setup_ugid_mapping kernel child).0 ≡ mapping_calls child
  unfolding setup_ugid_mapping
  setup_ugid_mapping-lem child h =
      let proc_dir = format ("/proc/" ∷ display child ∷ []) in
      let (_, uid_ok, h1, trace) =
        >>=-eq-ok (write_proc kernel (join proc_dir "uid_map") (mapping kernel kernel.uid)) _ h in
      let (_, deny_ok, h2, trace1) =
        >>=-eq-ok (write_proc kernel (join proc_dir "setgroups") "deny") _ h1 in
      trace
      ∙ append_eq (write_proc-lem _ _ uid_ok)
          (trace1 ∙ append_eq (write_proc-lem _ _ deny_ok) (write_proc-lem _ _ h2))

  map_if_sandboxed-lem :
      (child : ℕ)
      → (map_if_sandboxed kernel child false).1 ≡ ok tt
      → (map_if_sandboxed kernel child false).0 ≡ mapping_calls child
  unfolding map_if_sandboxed
  map_if_sandboxed-lem child h =
      setup_ugid_mapping-lem child
        (with_context-eq-ok "setup child ugid mapping" (setup_ugid_mapping kernel child).1 h)

  setup_cgroups-lem :
      (opts : JailOptions) (cgroups : List CGroup)
      → opts.disable_sandboxing ≡ false
      → (setup_cgroups kernel opts).1 ≡ ok cgroups
      → ((setup_cgroup kernel opts opts.cgroup_path).1 ≡ ok cgroups)
        × ((setup_cgroups kernel opts).0
            ≡ receive_pidfd ∷ (setup_cgroup kernel opts opts.cgroup_path).0)
  unfolding setup_cgroups
  setup_cgroups-lem opts cgroups sandboxed h =
      let (_, _, rest, trace) =
        >>=-eq-ok (context "receive seccomp pidfd" (call receive_pidfd (attempt kernel.pidfd)))
          (λ _. setup_cgroup kernel opts opts.cgroup_path) (rw sandboxed at h) in
      (rest, rw sandboxed trace)

  respond-lem :
      (cgroups : List CGroup) {a : List CGroup}
      → (respond kernel cgroups).1 ≡ ok a
      → (cgroups ≡ a) × ((respond kernel cgroups).0 ≡ send_response ∷ [])
  unfolding respond
  respond-lem cgroups h =
      let m =
        context "write setup cgroup response" (call send_response kernel.response_sent)
        >> pure cgroups in
      let same = or_drop-eq-ok cgroups m h in
      let (_, _, last, trace) =
        >>=-eq-ok (context "write setup cgroup response" (call send_response kernel.response_sent))
          (λ _. pure cgroups) (ap (λ r. r.1) (sym same) ∙ h) in
      (ok-injective last, ap (λ r. r.0) same ∙ trace)

  -- If the parent's setup of a sandboxed child ends well, its calls were, in this order: the mappings
  -- of the user and of the group, with `setgroups` denied between them; the message that they are done;
  -- the child's request and its descriptor; the cgroup; and the response, last.
  pub setup_child-order :
      (child : ℕ) (opts : JailOptions) (cgroups : List CGroup)
      → opts.disable_sandboxing ≡ false
      → (setup_child kernel child opts).1 ≡ ok cgroups
      → ((setup_cgroup kernel opts opts.cgroup_path).1 ≡ ok cgroups)
        × ((setup_child kernel child opts).0
            ≡ mapping_calls child
              ++ (send_done
                  ∷ read_request
                  ∷ receive_pidfd
                  ∷ ((setup_cgroup kernel opts opts.cgroup_path).0 ++ send_response ∷ [])))
  unfolding setup_child
  setup_child-order child opts cgroups sandboxed h =
      let (_, mapped, h1, trace) =
        >>=-eq-ok (map_if_sandboxed kernel child opts.disable_sandboxing) _ h in
      let (_, _, h2, trace1) =
        >>=-eq-ok (context "write parent setup done event" (call send_done kernel.done_sent)) _
          h1 in
      let (_, _, h3, trace2) =
        >>=-eq-ok (context "wait for setup cgroup request" (call read_request kernel.request)) _
          h2 in
      let (made, cgroups_ok, responded, trace3) =
        >>=-eq-ok (setup_cgroups kernel opts) (respond kernel) h3 in
      let (returned, last) = respond-lem made responded in
      let (used, calls) = setup_cgroups-lem opts made sandboxed cgroups_ok in
      let first : (map_if_sandboxed kernel child opts.disable_sandboxing).0 ≡ mapping_calls child =
        rw sandboxed (map_if_sandboxed-lem child (rw sandboxed at mapped)) in
      (
        used ∙ ap ok returned,
        trace
            ∙ append_eq first (
                trace1
                ∙ ap (◌∷◌ send_done)
                    (trace2 ∙ ap (◌∷◌ read_request) (trace3 ∙ append_eq calls last))),
      )
