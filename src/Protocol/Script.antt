-- ===== src/Protocol/Script.antt =====
-- The runs of the three processes, against the calls of `setup_child` of src/jail/parent.rs and of
-- `run` of src/jail/child_init.rs.
use eval_python.Prelude.{
  ℕ, ◌≡◌, refl, sym, ap, ◌∙◌, arith, Bool, true, false, List, [], ◌∷◌, ◌++◌, append-nil,
  append_assoc, map, Option, none, some, ok, err, panicked, if◌then◌else◌, ℤ, String, format,
  display_int, join,
}
use eval_python.Prelude.Traced.{Traced, ◌>>=◌, ◌>>◌, context, lift, pure}
use eval_python.Options.Types.{JailOptions}
use eval_python.Cgroups.{CGroup, CgroupCall, add_pid, set_memory_limit, new_cgroup, drop}
use eval_python.Parent.{
  ParentCall, open_file, write_file, send_done, read_request, receive_pidfd, send_response,
  cgroup_call, ParentKernel, on_cgroups, or_drop, limit_memory, use_cgroup, setup_cgroup,
  setup_child,
}
use eval_python.Parent.Pid.{get_pid}
use eval_python.Parent.Setup.{mapping_calls, setup_child-order}
use eval_python.Protocol.{
  program_ends, end_program, Message, setup_done, request, pidfd, response, status, ParentAt,
  mapping, awaiting_request, awaiting_pidfd, grouping, awaiting_status, got_status, State,
  ParentMove, InitMove, JailedMove, Reach, start, step, fault, parent_move, init_move, jailed_move,
  Fault,
}
use eval_python.Protocol.Invariant.{Inv}
use eval_python.Protocol.Kept.{Reach-Inv}

-- what the parent sends and reads
pub data Event : Type 0 where
  sends reads : Message → Event

abbrev event_of : ParentCall → List Event
event_of (open_file path) = []
event_of (write_file path contents) = []
event_of send_done = sends setup_done ∷ []
event_of read_request = reads request ∷ []
event_of receive_pidfd = reads pidfd ∷ []
event_of send_response = sends response ∷ []
event_of (cgroup_call c) = []

abbrev pub events : List ParentCall → List Event
events [] = []
events (c ∷ calls) = event_of c ++ events calls

events-append : (xs ys : List ParentCall) → events (xs ++ ys) ≡ events xs ++ events ys
events-append [] ys = refl
events-append (c ∷ xs) ys =
    ap (◌++◌ (event_of c)) (events-append xs ys)
    ∙ sym (append_assoc (event_of c) (events xs) (events ys))

events-map : (calls : List CgroupCall) → events (map cgroup_call calls) ≡ []
events-map [] = refl
events-map (c ∷ calls) = events-map calls

-- Steps that neither send nor read.
abbrev IsSilent : {A : Type 0} → Traced ParentCall A → Type 0
IsSilent m = events m.0 ≡ []

>>=-IsSilent :
    {A B : Type 0} (m : Traced ParentCall A) (f : A → Traced ParentCall B)
    → IsSilent m
    → ((a : A) → IsSilent (f a))
    → IsSilent (m >>= f)
>>=-IsSilent (calls, ok a) f first next = rw (events-append calls (f a).0, first, next a)
>>=-IsSilent (calls, err e) f first next = first
>>=-IsSilent (calls, panicked) f first next = first

or_drop-IsSilent :
    {A : Type 0} (cgroups : List CGroup) (m : Traced ParentCall A)
    → IsSilent m
    → IsSilent (or_drop cgroups m)
unfolding or_drop
or_drop-IsSilent [] m h = h
or_drop-IsSilent (cgroup ∷ cgroups) (calls, ok a) h = h
or_drop-IsSilent (cgroup ∷ cgroups) (calls, err e) h =
    rw (events-append calls (map cgroup_call (drop cgroup)), h) (events-map (drop cgroup))
or_drop-IsSilent (cgroup ∷ cgroups) (calls, panicked) h =
    rw (events-append calls (map cgroup_call (drop cgroup)), h) (events-map (drop cgroup))

module _ (kernel : ParentKernel) where
  limit_memory-IsSilent :
      (cgroup : CGroup) (pid : ℤ) (use_cgroups : Bool) (limit : Option ℕ)
      → IsSilent (limit_memory kernel cgroup pid use_cgroups limit)
  unfolding limit_memory
  limit_memory-IsSilent cgroup pid true (some limit) =
      events-map (set_memory_limit kernel.cgroups cgroup limit).0
  limit_memory-IsSilent cgroup pid true none = refl
  limit_memory-IsSilent cgroup pid false limit = refl

  use_cgroup-IsSilent :
      (opts : JailOptions) (pid : ℤ) (cgroup : CGroup)
      → IsSilent (use_cgroup kernel opts pid cgroup)
  unfolding use_cgroup
  use_cgroup-IsSilent opts pid cgroup =
      let text = format ("add " ∷ display_int pid ∷ " to cgroup" ∷ []) in
      let added : Traced ParentCall (Unit {0}) =
        context text (on_cgroups (add_pid kernel.cgroups cgroup pid)) in
      let limited : Traced ParentCall (Unit {0}) =
        limit_memory kernel cgroup pid opts.use_cgroups_for_memory_limit opts.memory_limit in
      let last : Traced ParentCall (List CGroup) = pure (cgroup ∷ []) in
      or_drop-IsSilent (cgroup ∷ []) (added >> (limited >> last)) (
        >>=-IsSilent added (λ _. limited >> last) (events-map (add_pid kernel.cgroups cgroup pid).0)
          λ _.
            >>=-IsSilent limited (λ _. last)
              (limit_memory-IsSilent cgroup pid opts.use_cgroups_for_memory_limit opts.memory_limit)
              λ _. refl)

  setup_cgroup-IsSilent :
      (opts : JailOptions) (root : Option String) → IsSilent (setup_cgroup kernel opts root)
  unfolding setup_cgroup
  setup_cgroup-IsSilent opts none = refl
  setup_cgroup-IsSilent opts (some root) =
      let path = join root opts.seccomp_profile_name in
      let text = format ("create cgroup " ∷ kernel.debug path ∷ []) in
      let found : Traced ParentCall ℤ = context "get jailed pid" (lift (get_pid kernel.fdinfo)) in
      let made : Traced ParentCall CGroup = context text (
        on_cgroups
          (new_cgroup kernel.cgroups (if kernel.is_cgroup_v2 then "" else "memory") path)) in
      >>=-IsSilent found (λ pid. made >>= use_cgroup kernel opts pid) refl
        λ pid.
          >>=-IsSilent made (use_cgroup kernel opts pid)
            (events-map
              (new_cgroup kernel.cgroups (if kernel.is_cgroup_v2 then "" else "memory") path).0)
            (use_cgroup-IsSilent opts pid)

  mapping_calls-silent : (child : ℕ) → events (mapping_calls kernel child) ≡ []
  mapping_calls-silent child = refl

-- what the parent has sent and read when it has come so far
module _ (sandboxed : Bool) where
  abbrev pub pidfd_events : List Event
  pidfd_events = if sandboxed then reads pidfd ∷ [] else []

  abbrev pub script : ParentAt → List Event
  script mapping = []
  script awaiting_request = sends setup_done ∷ []
  script awaiting_pidfd = sends setup_done ∷ reads request ∷ []
  script grouping = sends setup_done ∷ reads request ∷ pidfd_events
  script awaiting_status = sends setup_done ∷ reads request ∷ (pidfd_events ++ sends response ∷ [])
  script got_status =
      sends setup_done ∷ reads request ∷ (pidfd_events ++ sends response ∷ reads status ∷ [])

  abbrev spoken_in : {s t : State} → ParentMove sandboxed s t → List Event
  spoken_in (ParentMove.send_done w p l) = sends setup_done ∷ []
  spoken_in (ParentMove.take_request w p q) = reads request ∷ []
  spoken_in (ParentMove.take_pidfd w p q) = reads pidfd ∷ []
  spoken_in (ParentMove.send_response w p l) = sends response ∷ []
  spoken_in (ParentMove.take_status w p q) = reads status ∷ []
  spoken_in other = []

  -- what the parent sends and reads in a run
  abbrev pub spoken : {n : ℕ} {s : State} → Reach sandboxed n s → List Event
  spoken start = []
  spoken (step r (parent_move m)) = spoken r ++ spoken_in m
  spoken (step r (init_move m)) = spoken r
  spoken (step r (jailed_move m)) = spoken r
  spoken (step r (program_ends m)) = spoken r
  spoken (fault r f) = spoken r

  spoken_in-script :
      {s t : State}
      → Inv sandboxed s
      → (m : ParentMove sandboxed s t) → script s.parent ++ spoken_in m ≡ script t.parent
  spoken_in-script v (ParentMove.send_done w p l) = rw p
  spoken_in-script v (ParentMove.take_request w p q) = ground arith
  spoken_in-script v (ParentMove.take_pidfd w p q) = ground arith
  spoken_in-script v (ParentMove.send_response w p l) = ground arith
  spoken_in-script v (ParentMove.fail_send w p l) = append-nil _
  spoken_in-script v (ParentMove.fail_read w p q l) = append-nil _
  spoken_in-script v (ParentMove.take_status w p q) = ground arith
  spoken_in-script v (ParentMove.miss_status w p q l) = append-nil _
  spoken_in-script v (ParentMove.misread g q) = append-nil _
  spoken_in-script v (ParentMove.read_end g q l) = append-nil _
  spoken_in-script v (ParentMove.reap g r) = append-nil _

  InitMove-parent : {s t : State} → InitMove sandboxed s t → s.parent ≡ t.parent
  InitMove-parent (InitMove.take_done r i q) = refl
  InitMove-parent (InitMove.fork r i) = refl
  InitMove-parent (InitMove.send_request r i a) = refl
  InitMove-parent (InitMove.send_pidfd r i a) = refl
  InitMove-parent (InitMove.take_response r i q) = refl
  InitMove-parent (InitMove.kill_jailed b r i a) = refl
  InitMove-parent (InitMove.finish_wait r i g) = refl
  InitMove-parent (InitMove.send_status r i a) = refl
  InitMove-parent (InitMove.exit r i) = refl
  InitMove-parent (InitMove.fail_to_send r i a) = refl
  InitMove-parent (InitMove.fail_to_read r i q a) = refl

  JailedMove-parent : {s t : State} → JailedMove sandboxed s t → s.parent ≡ t.parent
  JailedMove-parent (JailedMove.drop_copies e) = refl
  JailedMove-parent (JailedMove.reach_pipe e) = refl
  JailedMove-parent (JailedMove.execute_released e r) = refl
  JailedMove-parent (JailedMove.execute_orphaned e r) = refl
  JailedMove-parent (JailedMove.die_with_init b r a) = refl

  Fault-parent : {s t : State} → Fault sandboxed s t → s.parent ≡ t.parent
  Fault-parent (Fault.parent_fails w a) = refl
  Fault-parent (Fault.parent_crashes a) = refl
  Fault-parent (Fault.init_fails r) = refl
  Fault-parent (Fault.jailed_ends a) = refl

  spoken_lem : {n : ℕ} {s : State} (r : Reach sandboxed n s) → spoken r ≡ script s.parent
  spoken_lem start = refl
  spoken_lem (step r (parent_move m)) =
      ap (λ es. es ++ spoken_in m) (spoken_lem r) ∙ spoken_in-script (Reach-Inv sandboxed r) m
  spoken_lem (step r (init_move m)) = spoken_lem r ∙ ap script (InitMove-parent m)
  spoken_lem (step r (program_ends (end_program e))) = spoken_lem r
  spoken_lem (step r (jailed_move m)) = spoken_lem r ∙ ap script (JailedMove-parent m)
  spoken_lem (fault r f) = spoken_lem r ∙ ap script (Fault-parent f)

-- What the parent sends and reads in a run up to the response is what a `setup_child` that ends well
-- sends and reads, with a sandbox.
spoken-setup_child :
    (kernel : ParentKernel) (child : ℕ) (opts : JailOptions) (cgroups : List CGroup) {n : ℕ}
    {s : State} (r : Reach true n s)
    → opts.disable_sandboxing ≡ false
    → (setup_child kernel child opts).1 ≡ ok cgroups
    → s.parent ≡ awaiting_status
    → spoken true r ≡ events (setup_child kernel child opts).0
spoken-setup_child kernel child opts cgroups r sandboxed made at_end =
    let (_, calls) = setup_child-order kernel child opts cgroups sandboxed made in
    let group = (setup_cgroup kernel opts opts.cgroup_path).0 in
    let quiet =
      events-append group (send_response ∷ [])
      ∙ ap (λ es. es ++ sends response ∷ []) (setup_cgroup-IsSilent kernel opts opts.cgroup_path) in
    spoken_lem true r
    ∙ ap (script true) at_end
    ∙ sym (ap events calls ∙ ap (λ es. sends setup_done ∷ reads request ∷ reads pidfd ∷ es) quiet)
