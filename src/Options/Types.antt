-- ===== src/Options/Types.antt =====
-- The constants and types of src/jail/options.rs, and the host that `JailOptions::new` asks.
use eval_python.Prelude.{
  ℕ, ◌*◌, String, Bool, true, false, Option, none, some, List, [], ◌∷◌, ◌++◌, Io, Duration,
}

abbrev pub default_extra_memory_size_in_bytes : ℕ
default_extra_memory_size_in_bytes = 16 * 1024 * 1024

abbrev pub ruby_extra_memory_size_in_bytes : ℕ
ruby_extra_memory_size_in_bytes = 56 * 1024 * 1024

abbrev pub go_extra_memory_size_in_bytes : ℕ
go_extra_memory_size_in_bytes = 512 * 1024 * 1024

abbrev pub node_extra_memory_size_in_bytes : ℕ
node_extra_memory_size_in_bytes = 89 * 1024 * 1024

abbrev pub java_vm_memory_size_in_bytes : ℕ
java_vm_memory_size_in_bytes = 47 * 1024 * 1024

abbrev pub clr_vm_memory_size_in_bytes : ℕ
clr_vm_memory_size_in_bytes = 20 * 1024 * 1024

abbrev pub ruby_vm_memory_size_in_bytes : ℕ
ruby_vm_memory_size_in_bytes = 12 * 1024 * 1024

abbrev pub node_vm_memory_size_in_bytes : ℕ
node_vm_memory_size_in_bytes = 31 * 1024 * 1024

abbrev pub java_min_heap_size_in_bytes : ℕ
java_min_heap_size_in_bytes = 18 * 1024 * 1024

-- `nix::mount::MsFlags`, one field for each flag that the source uses
pub record MsFlags : Type 0 where
  pub bind : Bool
  pub rdonly : Bool
  pub nosuid : Bool
  pub nodev : Bool
  pub noexec : Bool
  pub recursive : Bool
  pub private : Bool
  pub remount : Bool

abbrev pub no_flags : MsFlags
no_flags = record {
  bind = false;
  rdonly = false;
  nosuid = false;
  nodev = false;
  noexec = false;
  recursive = false;
  private = false;
  remount = false;
}

abbrev pub ms_bind : MsFlags
ms_bind = record no_flags { bind = true }

-- `MS_BIND | MS_RDONLY`
abbrev pub ms_bind_rdonly : MsFlags
ms_bind_rdonly = record ms_bind { rdonly = true }

-- `MS_NOSUID | MS_NODEV | MS_NOEXEC`
abbrev pub ms_restricted : MsFlags
ms_restricted = record no_flags { nosuid = true; nodev = true; noexec = true }

pub data Stdio : Type 0 where
  mounted : String → Stdio
  dev_null : String → Stdio
  file_descriptor : ℕ → Stdio

pub record MountArgs : Type 0 where
  pub source : Option String
  pub target : String
  pub fstype : Option String
  pub flags : MsFlags
  pub contents : Option String

pub record JailOptions : Type 0 where
  pub disable_sandboxing : Bool
  pub homedir : String
  pub rootfs : String
  pub cgroup_path : Option String
  pub mounts : List MountArgs
  pub args : List String
  pub env : List String
  pub seccomp_bpf_filter_notify_contents : List ℕ
  pub seccomp_bpf_filter_sigsys_contents : List ℕ
  pub seccomp_profile_name : String
  pub meta : Option String
  pub stdin : Stdio
  pub stdout : Stdio
  pub stderr : Stdio
  pub time_limit : Option Duration
  pub wall_time_limit : Duration
  pub output_limit : Option ℕ
  pub memory_limit : Option ℕ
  pub use_cgroups_for_memory_limit : Bool
  pub vm_memory_size_in_bytes : ℕ
  pub allow_sigsys_fallback : Bool

-- The answers of the operating system to the calls that `JailOptions::new` makes. It makes each call
-- at most once for each path and kind.
pub record Host : Type 0 where
  -- `canonicalize(path)`
  pub canonicalize : String → Io String
  -- `File::open(path)`
  pub open_file : String → Io (Unit {0})
  -- `File::create(path)`
  pub create_file : String → Io (Unit {0})
  -- `File::options().append(true).create(true).open(path)`
  pub open_append : String → Io (Unit {0})
  -- `read_to_end` of the file opened at the path
  pub read_file : String → Io (List ℕ)
  -- `libc::isatty(fd)`
  pub isatty : ℕ → ℕ

-- The local variables of `JailOptions::new` that the branches for the languages change.
pub record Draft : Type 0 where
  pub mounts : List MountArgs
  pub execve_args : List String
  pub env : List String
  pub seccomp_profile_name : String
  pub extra_memory_size_in_bytes : ℕ
  pub vm_memory_size_in_bytes : ℕ
  pub use_cgroups_for_memory_limit : Bool

-- `root` and `rootfs` of `JailOptions::new`
pub record Place : Type 0 where
  pub root : String
  pub rootfs : String

-- A bind mount that is not writable, as the branches for the languages and `--bind` add it.
abbrev pub bind_rdonly : String → String → MountArgs
bind_rdonly source target = record {
  source = some source;
  target = target;
  fstype = none;
  flags = ms_bind_rdonly;
  contents = none;
}

-- A writable bind mount.
abbrev pub bind_writable : String → String → MountArgs
bind_writable source target = record {
  source = some source;
  target = target;
  fstype = none;
  flags = ms_bind;
  contents = none;
}

-- `mounts.push(m)`
abbrev pub push_mount : MountArgs → Draft → Draft
push_mount m d = record d { mounts = d.mounts ++ m ∷ [] }

-- `execve_args.extend(words)`
abbrev pub extend_args : List String → Draft → Draft
extend_args words d = record d { execve_args = d.execve_args ++ words }

abbrev pub set_profile : String → Draft → Draft
set_profile name d = record d { seccomp_profile_name = name }
