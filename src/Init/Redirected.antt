-- ===== src/Init/Redirected.antt =====
-- The standard streams after the redirections of src/jail/child_init.rs, for the options that
-- src/jail/options.rs makes.
use eval_python.Prelude.{
  ℕ, ◌≤◌, ◌==◌, ◌≡◌, refl, sym, ap, ◌∙◌, subst, arith, true, false, Bool-cases, String, Option,
  none, some, List, [], ◌∷◌, ok, done, attempt, OkHolds, OkHolds->>=, OkHolds-ok, with_context,
  format, inl, inr,
}
use eval_python.Args.{Args}
use eval_python.Options.Types.{
  Stdio, mounted, dev_null, file_descriptor, MountArgs, Host, JailOptions,
}
use eval_python.Options.Streams.{setup_stdin, setup_stdout, setup_stderr}
use eval_python.Options.New.{new}
use eval_python.Options.Built.{new-Built}
use eval_python.Init.Streams.{
  Mode, read, write, append, StreamKernel, redirect_stdin, redirect_stdout, redirect_stderr,
  redirect_streams,
}
use eval_python.Init.Descriptors.{
  Description, opened, Table, after, changed, Changes, MakesTable, Changes-MakesTable,
  >>-MakesTable, IsOwn, reopened, reopen-Changes, move-none,
}

-- What a stream is connected to, if all but a descriptor of its own open one file.
abbrev pub connected : Description → Stdio → Option Description → Option Description
connected d (mounted path) before = some d
connected d (dev_null path) before = some d
connected d (file_descriptor fd) before = before

changed_self :
    (fd : ℕ) (d : Description) (stream : Stdio) (t : Table)
    → changed (reopened fd d stream) t fd ≡ connected d stream (t fd)
changed_self fd d (mounted path) t = let self : (fd == fd) ≡ true = ground arith in rw self
changed_self fd d (dev_null path) t = let self : (fd == fd) ≡ true = ground arith in rw self
changed_self fd d (file_descriptor source) t = refl

changed_other :
    (fd : ℕ) (d : Description) (stream : Stdio) (t : Table) (n : ℕ)
    → (n == fd) ≡ false
    → changed (reopened fd d stream) t n ≡ t n
changed_other fd d (mounted path) t n other = rw other
changed_other fd d (dev_null path) t n other = rw other
changed_other fd d (file_descriptor source) t n other = refl

module _ (host : Host) (rootfs : String) where
  abbrev Owns : ℕ → Stdio × List MountArgs → Type 0
  Owns fd r = IsOwn fd r.0

  setup_stdin-IsOwn : (path : Option String) → OkHolds (Owns 0) (setup_stdin host rootfs path)
  unfolding setup_stdin
  setup_stdin-IsOwn none = elim (Bool-cases (host.isatty 0 == 0)) [
    | inl e ↦ rw e tt
    | inr e ↦ rw e refl
  ]
  setup_stdin-IsOwn (some path) =
      OkHolds->>= (Owns 0)
        (with_context (format ("open stdin " ∷ path ∷ [])) (attempt (host.open_file path))) _
        λ _ _.
          OkHolds->>= (Owns 0)
            (with_context (format ("canonicalize(" ∷ path ∷ ")" ∷ []))
              (attempt (host.canonicalize path)))
            _ λ source _. tt

  setup_stdout-IsOwn : (path : Option String) → OkHolds (Owns 1) (setup_stdout host rootfs path)
  unfolding setup_stdout
  setup_stdout-IsOwn none = elim (Bool-cases (host.isatty 1 == 0)) [
    | inl e ↦ rw e tt
    | inr e ↦ rw e refl
  ]
  setup_stdout-IsOwn (some path) =
      OkHolds->>= (Owns 1)
        (with_context (format ("create stdout " ∷ path ∷ [])) (attempt (host.create_file path))) _
        λ _ _.
          OkHolds->>= (Owns 1)
            (with_context (format ("canonicalize(" ∷ path ∷ ")" ∷ []))
              (attempt (host.canonicalize path)))
            _ λ source _. tt

  setup_stderr-IsOwn : (path : Option String) → OkHolds (Owns 2) (setup_stderr host rootfs path)
  unfolding setup_stderr
  setup_stderr-IsOwn none = elim (Bool-cases (host.isatty 2 == 0)) [
    | inl e ↦ rw e tt
    | inr e ↦ rw e refl
  ]
  setup_stderr-IsOwn (some path) =
      OkHolds->>= (Owns 2)
        (with_context (format ("create stderr " ∷ path ∷ [])) (attempt (host.open_append path))) _
        λ _ _.
          OkHolds->>= (Owns 2)
            (with_context (format ("canonicalize(" ∷ path ∷ ")" ∷ []))
              (attempt (host.canonicalize path)))
            _ λ source _. tt

-- A stream that `new` keeps as a descriptor is its own.
pub new-IsOwn :
    (debug : String → String) (host : Host) (args : Args) {opts : JailOptions}
    → new debug host args ≡ ok opts
    → IsOwn 0 opts.stdin × IsOwn 1 opts.stdout × IsOwn 2 opts.stderr
new-IsOwn debug host args {opts} h =
    let built = new-Built debug host args h in
    let (stdin_is, stdout_is, stderr_is) = built.is_streams in
    (
      subst (IsOwn 0) (sym stdin_is) (
          OkHolds-ok (Owns host opts.rootfs 0) _ (setup_stdin-IsOwn host opts.rootfs args.stdin)
            built.is_stdin),
      subst (IsOwn 1) (sym stdout_is) (
          OkHolds-ok (Owns host opts.rootfs 1) _ (setup_stdout-IsOwn host opts.rootfs args.stdout)
            built.is_stdout),
      subst (IsOwn 2) (sym stderr_is) (
          OkHolds-ok (Owns host opts.rootfs 2) _ (setup_stderr-IsOwn host opts.rootfs args.stderr)
            built.is_stderr),
    )

module _ (kernel : StreamKernel)
    (above : (path : String) (mode : Mode) (fd : ℕ)
      → kernel.opened path mode ≡ done fd
      → 3 ≤ fd) where
  redirect_stdin-Changes :
      (stdin : Stdio)
      → IsOwn 0 stdin
      → Changes (reopened 0 (opened "/mnt/stdio/stdin" read) stdin) (redirect_stdin kernel stdin)
  unfolding redirect_stdin
  redirect_stdin-Changes (mounted path) own = reopen-Changes kernel above _ _ _ read 0 (omega arith)
  redirect_stdin-Changes (dev_null path) own =
      reopen-Changes kernel above _ _ _ read 0 (omega arith)
  redirect_stdin-Changes (file_descriptor fd) own =
      rw own (move-none kernel above "dup2 stdin" "close stdin" 0)

  redirect_stdout-Changes :
      (stdout : Stdio)
      → IsOwn 1 stdout
      → Changes
          (reopened 1 (opened "/mnt/stdio/stdout" write) stdout)
          (redirect_stdout kernel stdout)
  unfolding redirect_stdout
  redirect_stdout-Changes (mounted path) own =
      reopen-Changes kernel above _ _ _ write 1 (omega arith)
  redirect_stdout-Changes (dev_null path) own =
      reopen-Changes kernel above _ _ _ write 1 (omega arith)
  redirect_stdout-Changes (file_descriptor fd) own =
      rw own (move-none kernel above "dup2 stdout" "close stdout" 1)

  redirect_stderr-Changes :
      (stderr : Stdio)
      → IsOwn 2 stderr
      → Changes
          (reopened 2 (opened "/mnt/stdio/stderr" append) stderr)
          (redirect_stderr kernel stderr)
  unfolding redirect_stderr
  redirect_stderr-Changes (mounted path) own =
      reopen-Changes kernel above _ _ _ append 2 (omega arith)
  redirect_stderr-Changes (dev_null path) own =
      reopen-Changes kernel above _ _ _ append 2 (omega arith)
  redirect_stderr-Changes (file_descriptor fd) own =
      rw own (move-none kernel above "dup2 stderr" "close stderr" 2)

  redirect_streams-MakesTable :
      (opts : JailOptions)
      → IsOwn 0 opts.stdin
      → IsOwn 1 opts.stdout
      → IsOwn 2 opts.stderr
      → MakesTable
          (λ t. changed (reopened 2 (opened "/mnt/stdio/stderr" append) opts.stderr) (
            changed
              (reopened 1 (opened "/mnt/stdio/stdout" write) opts.stdout)
              (changed (reopened 0 (opened "/mnt/stdio/stdin" read) opts.stdin) t)))
          (redirect_streams kernel opts)
  unfolding redirect_streams
  redirect_streams-MakesTable opts own_stdin own_stdout own_stderr =
      >>-MakesTable _ _ (redirect_stdin kernel opts.stdin) _
        (redirect_stdin-Changes opts.stdin own_stdin)
        (>>-MakesTable _ _ (redirect_stdout kernel opts.stdout) _
          (redirect_stdout-Changes opts.stdout own_stdout)
          (Changes-MakesTable _ (redirect_stderr kernel opts.stderr)
            (redirect_stderr-Changes opts.stderr own_stderr)))

  -- In the sandbox, with the options of a successful `new`: once the streams are redirected, each of
  -- the descriptors 0, 1 and 2 is the file in /mnt/stdio of its own stream, opened for reading, for
  -- writing and for appending, unless the stream is a terminal that is passed on, which is as it was.
  -- The hypothesis is that files are opened with descriptors above those of the streams.
  pub redirect_streams-connected :
      (debug : String → String) (host : Host) (args : Args) (opts : JailOptions) (t : Table)
      → new debug host args ≡ ok opts
      → (redirect_streams kernel opts).1 ≡ ok tt
      → (after (redirect_streams kernel opts).0 t 0
          ≡ connected (opened "/mnt/stdio/stdin" read) opts.stdin (t 0))
        × (after (redirect_streams kernel opts).0 t 1
            ≡ connected (opened "/mnt/stdio/stdout" write) opts.stdout (t 1))
        × (after (redirect_streams kernel opts).0 t 2
            ≡ connected (opened "/mnt/stdio/stderr" append) opts.stderr (t 2))
  redirect_streams-connected debug host args opts t made h =
      let (own_stdin, own_stdout, own_stderr) = new-IsOwn debug host args made in
      let table = redirect_streams-MakesTable opts own_stdin own_stdout own_stderr h t t in
      let stdin_t = changed (reopened 0 (opened "/mnt/stdio/stdin" read) opts.stdin) t in
      let stdout_t = changed (reopened 1 (opened "/mnt/stdio/stdout" write) opts.stdout) stdin_t in
      (
        table 0 (omega arith) (λ i small. refl)
            ∙ changed_other 2 _ opts.stderr stdout_t 0 refl
            ∙ changed_other 1 _ opts.stdout stdin_t 0 refl
            ∙ changed_self 0 _ opts.stdin t,
        table 1 (omega arith) (λ i small. refl)
            ∙ changed_other 2 _ opts.stderr stdout_t 1 refl
            ∙ changed_self 1 _ opts.stdout stdin_t
            ∙ ap (connected (opened "/mnt/stdio/stdout" write) opts.stdout)
                (changed_other 0 _ opts.stdin t 1 refl),
        table 2 (omega arith) (λ i small. refl)
            ∙ changed_self 2 _ opts.stderr stdout_t
            ∙ ap (connected (opened "/mnt/stdio/stderr" append) opts.stderr) (
                changed_other 1 _ opts.stdout stdin_t 2 refl
                ∙ changed_other 0 _ opts.stdin t 2 refl),
      )
