-- ===== src/Options/Built.antt =====
-- What a successful `JailOptions::new` went through: the results of its steps, and how the options
-- are made of them.
use eval_python.Prelude.{
  ℕ, done, attempt-eq-ok, with_context-eq-ok, ◌≡◌, refl, String, List, [], ◌∷◌, ◌++◌, ok, attempt,
  with_context, format, >>=-eq-ok, ok-injective, subst, join,
}
use eval_python.Args.{Args}
use eval_python.Options.Types.{MountArgs, JailOptions, Host, Draft, Stdio}
use eval_python.Options.Streams.{setup_stdin, setup_stdout, setup_stderr}
use eval_python.Options.Binds.{parse_binds}
use eval_python.Options.New.{
  choose_rootfs, base_mounts, initial_draft, choose_command, cstrings, time_limits,
  total_memory_limit, new, read_filter,
}

pub record Built (debug : String → String) (host : Host) (args : Args) (o : JailOptions)
    : Type 0 where
  pub root : String
  pub home : String
  pub stdin : Stdio × List MountArgs
  pub stdout : Stdio × List MountArgs
  pub stderr : Stdio × List MountArgs
  pub draft : Draft
  pub binds : List MountArgs
  pub is_root : host.canonicalize args.root ≡ done root
  pub is_home : host.canonicalize args.homedir ≡ done home
  pub is_rootfs : o.rootfs ≡ choose_rootfs root args.compile
  pub is_stdin : setup_stdin host o.rootfs args.stdin ≡ ok stdin
  pub is_stdout : setup_stdout host o.rootfs args.stdout ≡ ok stdout
  pub is_stderr : setup_stderr host o.rootfs args.stderr ≡ ok stderr
  pub is_draft :
      choose_command
        (record { root = root; rootfs = o.rootfs })
        args
        (initial_draft
          (base_mounts o.rootfs home args.homedir_writable ++ stdin.1 ++ stdout.1 ++ stderr.1))
      ≡ ok draft
  pub is_binds : parse_binds debug o.rootfs args.bind ≡ ok binds
  pub is_args : cstrings (draft.execve_args ++ args.extra_args) ≡ ok o.args
  pub is_mounts : o.mounts ≡ draft.mounts ++ binds
  pub is_notify :
      host.read_file (join root (format ("policies/" ∷ o.seccomp_profile_name ∷ ".bpf" ∷ [])))
      ≡ done o.seccomp_bpf_filter_notify_contents
  pub is_sigsys :
      host.read_file
        (join root (format ("policies/sigsys/" ∷ o.seccomp_profile_name ∷ ".bpf" ∷ [])))
      ≡ done o.seccomp_bpf_filter_sigsys_contents
  pub is_profile : o.seccomp_profile_name ≡ draft.seccomp_profile_name
  pub is_streams : (o.stdin ≡ stdin.0) × (o.stdout ≡ stdout.0) × (o.stderr ≡ stderr.0)
  pub is_memory_limit :
      o.memory_limit ≡ total_memory_limit args.memory_limit draft.extra_memory_size_in_bytes
  pub is_times :
      (o.time_limit ≡ (time_limits args.time_limit args.extra_wall_time_limit).0)
      × (o.wall_time_limit ≡ (time_limits args.time_limit args.extra_wall_time_limit).1)
  pub is_accounting :
      (o.use_cgroups_for_memory_limit ≡ draft.use_cgroups_for_memory_limit)
      × (o.vm_memory_size_in_bytes ≡ draft.vm_memory_size_in_bytes)

read_filter-eq-ok :
    (debug : String → String) (host : Host) (path : String) {contents : List ℕ}
    → read_filter debug host path ≡ ok contents
    → host.read_file path ≡ done contents
unfolding read_filter
read_filter-eq-ok debug host path h =
    let (_, _, read) =
      >>=-eq-ok (with_context (format ("open " ∷ debug path ∷ [])) (attempt (host.open_file path)))
        _ h in
    attempt-eq-ok (host.read_file path)
      (with_context-eq-ok (format ("read " ∷ debug path ∷ [])) _ read)

pub new-Built :
    (debug : String → String) (host : Host) (args : Args) {o : JailOptions}
    → new debug host args ≡ ok o
    → Built debug host args o
unfolding new
new-Built debug host args {o} h =
    let (root, e1, h1) =
      >>=-eq-ok
        (with_context (format ("canonicalize(" ∷ args.root ∷ ")" ∷ []))
          (attempt (host.canonicalize args.root)))
        _ h in
    let (home, e2, h2) =
      >>=-eq-ok
        (with_context (format ("canonicalize(" ∷ args.homedir ∷ ")" ∷ []))
          (attempt (host.canonicalize args.homedir)))
        _ h1 in
    let rootfs = choose_rootfs root args.compile in
    let (stdin, e3, h3) = >>=-eq-ok (setup_stdin host rootfs args.stdin) _ h2 in
    let (stdout, e4, h4) = >>=-eq-ok (setup_stdout host rootfs args.stdout) _ h3 in
    let (stderr, e5, h5) = >>=-eq-ok (setup_stderr host rootfs args.stderr) _ h4 in
    let draft_of =
      choose_command (record { root = root; rootfs = rootfs }) args
        (initial_draft
          (base_mounts rootfs home args.homedir_writable ++ stdin.1 ++ stdout.1 ++ stderr.1)) in
    let (draft, e6, h6) = >>=-eq-ok draft_of _ h5 in
    let (binds, e7, h7) = >>=-eq-ok (parse_binds debug rootfs args.bind) _ h6 in
    let policy = λ (folder : String).
      read_filter debug host
        (join root (format (folder ∷ draft.seccomp_profile_name ∷ ".bpf" ∷ []))) in
    let (notify, e8, h8) = >>=-eq-ok (policy "policies/") _ h7 in
    let (sigsys, e9, h9) = >>=-eq-ok (policy "policies/sigsys/") _ h8 in
    let (execve_args, e10, h10) =
      >>=-eq-ok (cstrings (draft.execve_args ++ args.extra_args)) _ h9 in
    let (env, e11, h11) = >>=-eq-ok (cstrings draft.env) _ h10 in
    subst (Built debug host args) (ok-injective h11) (record {
      root = root;
      home = home;
      stdin = stdin;
      stdout = stdout;
      stderr = stderr;
      draft = draft;
      binds = binds;
      is_root =
          attempt-eq-ok (host.canonicalize args.root)
            (with_context-eq-ok (format ("canonicalize(" ∷ args.root ∷ ")" ∷ [])) _ e1);
      is_home =
          attempt-eq-ok (host.canonicalize args.homedir)
            (with_context-eq-ok (format ("canonicalize(" ∷ args.homedir ∷ ")" ∷ [])) _ e2);
      is_rootfs = refl;
      is_stdin = e3;
      is_stdout = e4;
      is_stderr = e5;
      is_draft = e6;
      is_binds = e7;
      is_args = e10;
      is_mounts = refl;
      is_notify = read_filter-eq-ok debug host _ e8;
      is_sigsys = read_filter-eq-ok debug host _ e9;
      is_profile = refl;
      is_streams = (refl, refl, refl);
      is_memory_limit = refl;
      is_times = (refl, refl);
      is_accounting = (refl, refl);
    })
