-- ===== src/Options/New.antt =====
-- `JailOptions::new` of src/jail/options.rs.
use Prim.Native.Char.{code}
use eval_python.Prelude.{
  ℕ, ◌+◌, ◌%◌, ◌^◌, ◌==◌, ltb, String, Bool, true, false, Option, none, some, List, [], ◌∷◌, ◌++◌,
  Duration, from_millis, Outcome, ok, err, io, attempt, with_context, ok_or, ◌>>=◌, ◌>>◌, format,
  join, if◌then◌else◌,
}
use eval_python.Args.{Args, Language}
use eval_python.Options.Types.{
  ms_restricted, ms_bind, ms_bind_rdonly, MountArgs, JailOptions, Host, Draft, Place,
  default_extra_memory_size_in_bytes,
}
use eval_python.Options.Streams.{setup_stdin, setup_stdout, setup_stderr}
use eval_python.Options.Compile.{compile_language}
use eval_python.Options.Run.{run_language, u64_max}
use eval_python.Options.Binds.{parse_binds}

abbrev is_some {ℓ} : {A : Type ℓ} → Option A → Bool
is_some none = false
is_some (some a) = true

-- `rootfs`
unfoldable pub choose_rootfs : String → Option Language → String
choose_rootfs root compile =
    if is_some compile then join root "root-compilers" else join root "root"

-- the mounts that every jail has
unfoldable pub base_mounts : String → String → Bool → List MountArgs
base_mounts rootfs home homedir_writable =
    record {
      source = some home;
      target = join rootfs "home";
      fstype = none;
      flags = if homedir_writable then ms_bind else ms_bind_rdonly;
      contents = none;
    }
    ∷ record {
      source = none;
      target = join rootfs "proc";
      fstype = some "proc";
      flags = record ms_restricted { rdonly = true };
      contents = none;
    }
    ∷ record {
      source = none;
      target = join rootfs "mnt/stdio";
      fstype = some "tmpfs";
      flags = ms_restricted;
      contents = some "size=4096,mode=555";
    }
    ∷ []

abbrev pub initial_env : List String
initial_env = "HOME=/home" ∷ "LANG=en_US.UTF-8" ∷ "PATH=/usr/bin" ∷ []

-- the local variables before the branches for the languages
abbrev pub initial_draft : List MountArgs → Draft
initial_draft mounts = record {
  mounts = mounts;
  execve_args = [];
  env = initial_env;
  seccomp_profile_name = "";
  extra_memory_size_in_bytes = default_extra_memory_size_in_bytes;
  vm_memory_size_in_bytes = 0;
  use_cgroups_for_memory_limit = false;
}

-- `if let Some(lang) = args.compile … else if let Some(lang) = args.run …`
unfoldable pub dispatch : Place → Args → Option Language → Option Language → Draft → Outcome Draft
dispatch place args (some lang) run d = do
  sources ← ok_or args.compile_source "--compile-source missing"
  compile_language place lang args.compile_target sources d
dispatch place args none (some lang) d =
    ok (run_language place lang args.run_target args.memory_limit d)
dispatch place args none none d = ok d

unfoldable pub choose_command : Place → Args → Draft → Outcome Draft
unfolding dispatch
choose_command place args d = dispatch place args args.compile args.run d

-- opens and reads a filter
unfoldable pub read_filter : (String → String) → Host → String → Outcome (List ℕ)
read_filter debug host path = do
  with_context (format ("open " ∷ debug path ∷ [])) (attempt (host.open_file path))
  with_context (format ("read " ∷ debug path ∷ [])) (attempt (host.read_file path))

unfoldable pub has_nul : String → Bool
has_nul String.[] = false
has_nul (String.◌∷◌ c s) = if code c == 0 then true else has_nul s

-- `CString::new(s)`
unfoldable pub cstring : String → Outcome String
unfolding has_nul
cstring s =
    if has_nul s
    then err (record { contexts = []; cause = io "nul byte found in provided data" })
    else ok s

-- `.map(CString::new).try_collect()`
unfoldable pub cstrings : List String → Outcome (List String)
unfolding cstring
cstrings [] = ok []
cstrings (s ∷ rest) = do c ← cstring s; cs ← cstrings rest; ok (c ∷ cs)

-- `(time_limit, wall_time_limit)`; the sum is that of a release build, which wraps
unfoldable pub time_limits : Option ℕ → ℕ → Option Duration × Duration
time_limits (some time_limit) extra_wall_time_limit =
    (some (from_millis time_limit), from_millis ((time_limit + extra_wall_time_limit) % 2 ^ 64))
time_limits none extra_wall_time_limit = (none, from_millis extra_wall_time_limit)

abbrev pub saturating_add : ℕ → ℕ → ℕ
saturating_add a b = if ltb u64_max (a + b) then u64_max else a + b

-- `memory_limit`: a limit that saturates is none
unfoldable pub total_memory_limit : Option ℕ → ℕ → Option ℕ
total_memory_limit none extra = none
total_memory_limit (some m) extra =
    if saturating_add m extra == u64_max then none else some (saturating_add m extra)

-- `debug` is `{:?}` of a text, which only error messages hold
unfoldable pub new : (String → String) → Host → Args → Outcome JailOptions
new debug host args = do
  root ←
      with_context (format ("canonicalize(" ∷ args.root ∷ ")" ∷ []))
        (attempt (host.canonicalize args.root))
  let rootfs = choose_rootfs root args.compile
  home ←
      with_context (format ("canonicalize(" ∷ args.homedir ∷ ")" ∷ []))
        (attempt (host.canonicalize args.homedir))
  stdin ← setup_stdin host rootfs args.stdin
  stdout ← setup_stdout host rootfs args.stdout
  stderr ← setup_stderr host rootfs args.stderr
  draft ←
      choose_command (record { root = root; rootfs = rootfs }) args
        (initial_draft
          (base_mounts rootfs home args.homedir_writable ++ stdin.1 ++ stdout.1 ++ stderr.1))
  binds ← parse_binds debug rootfs args.bind
  notify ←
      read_filter debug host
        (join root (format ("policies/" ∷ draft.seccomp_profile_name ∷ ".bpf" ∷ [])))
  sigsys ←
      read_filter debug host
        (join root (format ("policies/sigsys/" ∷ draft.seccomp_profile_name ∷ ".bpf" ∷ [])))
  execve_args ← cstrings (draft.execve_args ++ args.extra_args)
  env ← cstrings draft.env
  ok (record {
    disable_sandboxing = args.disable_sandboxing;
    homedir = args.homedir;
    rootfs = rootfs;
    cgroup_path = some args.cgroup_path;
    mounts = draft.mounts ++ binds;
    args = execve_args;
    env = env;
    seccomp_bpf_filter_notify_contents = notify;
    seccomp_bpf_filter_sigsys_contents = sigsys;
    seccomp_profile_name = draft.seccomp_profile_name;
    meta = args.meta;
    stdin = stdin.0;
    stdout = stdout.0;
    stderr = stderr.0;
    time_limit = (time_limits args.time_limit args.extra_wall_time_limit).0;
    wall_time_limit = (time_limits args.time_limit args.extra_wall_time_limit).1;
    output_limit = args.output_limit;
    memory_limit = total_memory_limit args.memory_limit draft.extra_memory_size_in_bytes;
    use_cgroups_for_memory_limit = draft.use_cgroups_for_memory_limit;
    vm_memory_size_in_bytes = draft.vm_memory_size_in_bytes;
    allow_sigsys_fallback = args.allow_sigsys_fallback;
  })
