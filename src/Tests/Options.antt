-- ===== src/Tests/Options.antt =====
-- The options of one jail that runs a C++ program and of one that compiles one.
use eval_python.Options.Streams.{setup_stdin, setup_stdout, setup_stderr}
use eval_python.Options.Run.{run_language, run_native}
use eval_python.Options.Binds.{parse_binds}
use eval_python.Options.New.{
  choose_command, read_filter, cstrings, choose_rootfs, base_mounts, time_limits,
  total_memory_limit,
}
use eval_python.Prelude.{
  climbs, ℕ, ◌+◌, ◌<◌, ◌≤◌, ◌^◌, String, true, false, some, none, Option, map, ◌⊎◌, panicked, List,
  [], ◌∷◌, ◌++◌, ◌≡◌, refl, ends_with, arith, All, ok, done, join, format, split, is_absolute,
  from_millis,
}
use eval_python.Args.{Args, cpp}
use eval_python.Options.Types.{
  JailOptions, Host, mounted, dev_null, bind_rdonly, bind_writable, ms_bind, ms_restricted,
}
use eval_python.Options.Sources.{add_sources}
use eval_python.Options.SourceLanguages.{is_flag, read_inputs, expected, read_inputs-add_sources}
use eval_python.Options.Jobs.{
  runs, job_of, extra_memory, vm_memory, uses_cgroups, policies, contains, BeginsWithProgram,
}
use eval_python.Options.Limits.{allowed, new-memory_limit, new-filter, new-args, new-times}
use eval_python.Options.Writable.{IsRequested, new-IsRequested}
use eval_python.Options.Confined.{IsWithin, new-IsWithin}
use eval_python.Options.BindCases.{IsAccepted, IsPanic, IsRefused, parse_bind_lem}
use eval_python.Options.Binds.{parse_bind, without_first_byte}
use eval_python.Options.New.{initial_env, has_nul, new}

abbrev pub quoted : String → String
quoted s = format ("\"" ∷ s ∷ "\"" ∷ [])

-- Every path is canonical, every file can be opened and no stream is a terminal.
abbrev pub quiet_host : Host
quiet_host = record {
  canonicalize = λ path. done path;
  open_file = λ path. done tt;
  create_file = λ path. done tt;
  open_append = λ path. done tt;
  read_file = λ path. done (6 ∷ 0 ∷ []);
  isatty = λ fd. 0;
}

abbrev pub run_args : Args
run_args = record {
  root = "/var/lib/omegajail";
  compile = none;
  compile_source = none;
  compile_target = "Main";
  run = some cpp;
  run_target = "Main";
  homedir = "/tmp/run";
  homedir_writable = true;
  stdin = some "/tmp/in";
  stdout = some "/tmp/out";
  stderr = none;
  meta = none;
  time_limit = some 1500;
  extra_wall_time_limit = 1000;
  output_limit = none;
  memory_limit = some 33554432;
  cgroup_path = "/omegajail";
  disable_sandboxing = false;
  bind = "/data:/mnt/data" ∷ [];
  allow_sigsys_fallback = false;
  extra_args = "--fast" ∷ [];
}

abbrev pub run_rootfs : String
run_rootfs = "/var/lib/omegajail/root"

abbrev pub run_options : JailOptions
run_options = record {
  disable_sandboxing = false;
  homedir = "/tmp/run";
  rootfs = run_rootfs;
  cgroup_path = some "/omegajail";
  mounts =
      (record {
        source = some "/tmp/run";
        target = "/var/lib/omegajail/root/home";
        fstype = none;
        flags = ms_bind;
        contents = none;
      }
        ∷ record {
          source = none;
          target = "/var/lib/omegajail/root/proc";
          fstype = some "proc";
          flags = record ms_restricted { rdonly = true };
          contents = none;
        }
        ∷ record {
          source = none;
          target = "/var/lib/omegajail/root/mnt/stdio";
          fstype = some "tmpfs";
          flags = ms_restricted;
          contents = some "size=4096,mode=555";
        }
        ∷ [])
      ++ bind_rdonly "/tmp/in" "/var/lib/omegajail/root/mnt/stdio/stdin"
        ∷ bind_writable "/tmp/out" "/var/lib/omegajail/root/mnt/stdio/stdout"
        ∷ bind_writable "/var/lib/omegajail/root/dev/null"
            "/var/lib/omegajail/root/mnt/stdio/stderr"
        ∷ bind_rdonly "/data" "/var/lib/omegajail/root/mnt/data"
        ∷ [];
  args = "./Main" ∷ "--fast" ∷ [];
  env = initial_env;
  seccomp_bpf_filter_notify_contents = 6 ∷ 0 ∷ [];
  seccomp_bpf_filter_sigsys_contents = 6 ∷ 0 ∷ [];
  seccomp_profile_name = "cpp";
  meta = none;
  stdin = mounted "/tmp/in";
  stdout = mounted "/tmp/out";
  stderr = dev_null "/var/lib/omegajail/root/dev/null";
  time_limit = some (from_millis 1500);
  wall_time_limit = from_millis 2500;
  output_limit = none;
  memory_limit = some 50331648;
  use_cgroups_for_memory_limit = false;
  vm_memory_size_in_bytes = 0;
  allow_sigsys_fallback = false;
}

pub run_new : new quoted quiet_host run_args ≡ ok run_options
unfolding new setup_stdin setup_stdout setup_stderr choose_command parse_binds read_filter cstrings
    run_language run_native choose_rootfs base_mounts join time_limits total_memory_limit
run_new = refl

new-IsRequested_example : All (IsRequested quiet_host run_args run_rootfs) run_options.mounts
new-IsRequested_example = new-IsRequested quoted quiet_host run_args run_options run_new

new-IsWithin_example : All (IsWithin run_rootfs) run_options.mounts
unfolding is_absolute climbs split
new-IsWithin_example =
    new-IsWithin quoted quiet_host run_args run_options run_new
      (("/data", _, "mnt/data", refl, (refl, refl)), tt)

new-memory_limit_example :
    ◌≡◌ {A = Option ℕ} (some 50331648) (allowed (some 33554432) (extra_memory (runs cpp)))
new-memory_limit_example =
    new-memory_limit quoted quiet_host run_args run_options (runs cpp) run_new
      (unfold job_of in refl)

new-filter_example :
    (root : String) × (quiet_host.canonicalize "/var/lib/omegajail" ≡ done root)
    × (quiet_host.read_file (join root (format ("policies/" ∷ "cpp" ∷ ".bpf" ∷ [])))
        ≡ done run_options.seccomp_bpf_filter_notify_contents)
    × (quiet_host.read_file (join root (format ("policies/sigsys/" ∷ "cpp" ∷ ".bpf" ∷ [])))
        ≡ done run_options.seccomp_bpf_filter_sigsys_contents)
    × (contains policies "cpp" ≡ true)
    × (false ≡ uses_cgroups (runs cpp))
    × (0 ≡ vm_memory (runs cpp))
new-filter_example =
    new-filter quoted quiet_host run_args run_options (runs cpp) run_new (unfold job_of in refl)

new-args_example :
    (words : List String) × BeginsWithProgram "Main" words
    × ("./Main" ∷ "--fast" ∷ [] ≡ words ++ "--fast" ∷ [])
    × All (λ s. has_nul s ≡ false) ("./Main" ∷ "--fast" ∷ [])
new-args_example =
    new-args quoted quiet_host run_args run_options (runs cpp) run_new (unfold job_of in refl)

new-times_example :
    (run_options.time_limit ≡ some (from_millis 1500))
    × (((1500 + 1000 < 2 ^ 64)
          × (run_options.wall_time_limit ≡ from_millis 1500 + from_millis 1000))
        ⊎ ((2 ^ 64 ≤ 1500 + 1000) × (run_options.wall_time_limit < from_millis 1500)))
new-times_example =
    new-times quoted quiet_host run_args run_options 1500 run_new refl (omega arith) (omega arith)

-- a time limit with an extra time that passes 2^64
abbrev long_args : Args
long_args = record run_args { extra_wall_time_limit = 18446744073709551615 }

abbrev long_options : JailOptions
long_options = record run_options { wall_time_limit = from_millis 1499 }

long_new : new quoted quiet_host long_args ≡ ok long_options
unfolding new setup_stdin setup_stdout setup_stderr choose_command parse_binds read_filter cstrings
    run_language run_native choose_rootfs base_mounts join time_limits total_memory_limit
long_new = refl

read_inputs-add_sources_example :
    (written : List String) × (add_sources ("gcc" ∷ []) "-xc" ("a.c" ∷ "b.S" ∷ "c.c" ∷ [])
      ≡ "gcc" ∷ [] ++ written)
    × (read_inputs "none" written ≡ map (expected "-xc") ("a.c" ∷ "b.S" ∷ "c.c" ∷ []))
unfolding is_flag
read_inputs-add_sources_example =
    read_inputs-add_sources "-xc" refl ("gcc" ∷ []) "none" ("a.c" ∷ "b.S" ∷ "c.c" ∷ [])
      (refl, (refl, (refl, tt)))

parse_bind_lem_example :
    let parts = split "/src:" b':' in
    let r = parse_bind quoted run_rootfs "/src:" in
    IsAccepted run_rootfs parts r ⊎ (IsPanic parts r ⊎ IsRefused quoted "/src:" parts r)
parse_bind_lem_example = parse_bind_lem quoted run_rootfs "/src:"

bind_panics : parse_bind quoted run_rootfs "/src:" ≡ panicked
unfolding parse_bind without_first_byte
bind_panics = refl

bind_escapes : parse_bind quoted run_rootfs "/src://etc" ≡ ok (bind_rdonly "/src" "/etc")
unfolding parse_bind without_first_byte join
bind_escapes = refl

add_sources_test :
    add_sources ("gcc" ∷ []) "-xc" ("a.c" ∷ "b.S" ∷ "c.s" ∷ "d.c" ∷ "e.c" ∷ [])
    ≡ "gcc" ∷ "-xc" ∷ "a.c" ∷ "-xassembler-with-cpp" ∷ "b.S" ∷ "-xassembler" ∷ "c.s" ∷ "-xc" ∷ "d.c"
      ∷ "e.c" ∷ []
unfolding add_sources ends_with
add_sources_test = refl
