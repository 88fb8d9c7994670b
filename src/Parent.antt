-- ===== src/Parent.antt =====
-- src/jail/parent.rs: what the parent process does for the init process.
use eval_python.Prelude.{
  ℕ, Bool, true, false, String, Option, none, some, List, [], ◌∷◌, ◌++◌, map, Outcome, ok, err,
  panicked, Io, attempt, with_context, format, display, display_int, ℤ, join, not, if◌then◌else◌,
}
use eval_python.Prelude.Traced.{Traced, ◌>>=◌, ◌>>◌, pure, call, lift, context}
use eval_python.Options.Types.{JailOptions}
use eval_python.Cgroups.{
  CGroup, CgroupCall, CgroupKernel, new_cgroup, add_pid, set_memory_limit, drop,
}
use eval_python.Parent.Pid.{get_pid}
pub mod Pid
pub mod Setup

pub data ParentCall : Type 0 where
  open_file : String → ParentCall
  write_file : String → String → ParentCall
  -- `ParentSetupDoneEvent`, `SetupCgroupRequest`, a descriptor, `SetupCgroupResponse`
  send_done read_request receive_pidfd send_response : ParentCall
  cgroup_call : CgroupCall → ParentCall

-- The answers of the system and of the socket, `fdinfo` for the text of the pidfd in /proc.
pub record ParentKernel : Type 0 where
  pub uid : ℕ
  pub gid : ℕ
  pub opened : String → Io (Unit {0})
  pub written : String → String → Io (Unit {0})
  pub done_sent : Outcome (Unit {0})
  pub request : Outcome (Unit {0})
  pub pidfd : Io (Unit {0})
  pub fdinfo : Io String
  pub is_cgroup_v2 : Bool
  pub cgroups : CgroupKernel
  pub response_sent : Outcome (Unit {0})
  pub debug : String → String

abbrev pub on_cgroups {ℓ} : {A : Type ℓ} → Traced CgroupCall A → Traced ParentCall A
on_cgroups m = (map cgroup_call m.0, m.1)

-- What an error drops is removed.
unfoldable pub or_drop {ℓ} : {A : Type ℓ} → List CGroup → Traced ParentCall A → Traced ParentCall A
or_drop [] m = m
or_drop (cgroup ∷ cgroups) (calls, ok a) = (calls, ok a)
or_drop (cgroup ∷ cgroups) (calls, err e) = (calls ++ map cgroup_call (drop cgroup), err e)
or_drop (cgroup ∷ cgroups) (calls, panicked) = (calls ++ map cgroup_call (drop cgroup), panicked)

module _ (kernel : ParentKernel) where
  unfoldable pub write_proc : String → String → Traced ParentCall (Unit {0})
  write_proc path contents =
      context (format ("open " ∷ kernel.debug path ∷ []))
        (call (open_file path) (attempt (kernel.opened path)))
      >> context (format ("write " ∷ kernel.debug path ∷ []))
          (call (write_file path contents) (attempt (kernel.written path contents)))

  -- the line of a mapping of one number to itself
  abbrev pub mapping : ℕ → String
  mapping id = format (display id ∷ " " ∷ display id ∷ " 1" ∷ [])

  unfoldable pub setup_ugid_mapping : ℕ → Traced ParentCall (Unit {0})
  unfolding write_proc
  setup_ugid_mapping child =
      let proc_dir = format ("/proc/" ∷ display child ∷ []) in
      write_proc (join proc_dir "uid_map") (mapping kernel.uid)
      >> (write_proc (join proc_dir "setgroups") "deny"
          >> write_proc (join proc_dir "gid_map") (mapping kernel.gid))

  unfoldable pub limit_memory : CGroup → ℤ → Bool → Option ℕ → Traced ParentCall (Unit {0})
  limit_memory cgroup pid true (some limit) =
      context (format ("set pid " ∷ display_int pid ∷ "'s memory limit to " ∷ display limit ∷ []))
        (on_cgroups (set_memory_limit kernel.cgroups cgroup limit))
  limit_memory cgroup pid true none = pure tt
  limit_memory cgroup pid false memory_limit = pure tt

  -- what is done with a cgroup that is there
  unfoldable pub use_cgroup : JailOptions → ℤ → CGroup → Traced ParentCall (List CGroup)
  unfolding limit_memory or_drop
  use_cgroup opts pid cgroup = or_drop (cgroup ∷ []) (
      context (format ("add " ∷ display_int pid ∷ " to cgroup" ∷ []))
        (on_cgroups (add_pid kernel.cgroups cgroup pid))
      >> (limit_memory cgroup pid opts.use_cgroups_for_memory_limit opts.memory_limit
          >> pure (cgroup ∷ [])))

  unfoldable pub setup_cgroup : JailOptions → Option String → Traced ParentCall (List CGroup)
  unfolding use_cgroup
  setup_cgroup opts none = pure []
  setup_cgroup opts (some cgroup_path_root) =
      let cgroup_path = join cgroup_path_root opts.seccomp_profile_name in
      context "get jailed pid" (lift (get_pid kernel.fdinfo)) >>= λ pid.
      context (format ("create cgroup " ∷ kernel.debug cgroup_path ∷ [])) (
        on_cgroups
          (new_cgroup kernel.cgroups (if kernel.is_cgroup_v2 then "" else "memory") cgroup_path))
      >>= use_cgroup opts pid

  unfoldable pub setup_cgroups : JailOptions → Traced ParentCall (List CGroup)
  unfolding setup_cgroup
  setup_cgroups opts =
      if not opts.disable_sandboxing
      then (context "receive seccomp pidfd" (call receive_pidfd (attempt kernel.pidfd))
          >> setup_cgroup opts opts.cgroup_path)
      else pure []

  unfoldable pub map_if_sandboxed : ℕ → Bool → Traced ParentCall (Unit {0})
  unfolding setup_ugid_mapping
  map_if_sandboxed child disable_sandboxing =
      if not disable_sandboxing
      then context "setup child ugid mapping" (setup_ugid_mapping child)
      else pure tt

  unfoldable pub respond : List CGroup → Traced ParentCall (List CGroup)
  unfolding or_drop
  respond cgroups = or_drop cgroups (
      context "write setup cgroup response" (call send_response kernel.response_sent)
      >> pure cgroups)

  unfoldable pub setup_child : ℕ → JailOptions → Traced ParentCall (List CGroup)
  unfolding map_if_sandboxed setup_cgroups respond
  setup_child child opts =
      map_if_sandboxed child opts.disable_sandboxing
      >> (context "write parent setup done event" (call send_done kernel.done_sent)
          >> (context "wait for setup cgroup request" (call read_request kernel.request)
              >> (setup_cgroups opts >>= respond)))
