-- ===== src/Init/Unsandboxed.antt =====
-- The standard streams after `setup_unsandboxed_filesystem` of src/jail/child_init.rs.
use eval_python.Prelude.{
  ℕ, ◌≤◌, ◌==◌, ◌≡◌, refl, ap, ◌∙◌, arith, true, false, String, Option, none, some, [], ◌∷◌, ok,
  done, attempt, format,
}
use eval_python.Prelude.Traced.{call, context}
use eval_python.Args.{Args}
use eval_python.Options.Types.{Stdio, mounted, dev_null, file_descriptor, Host, JailOptions}
use eval_python.Options.New.{new}
use eval_python.Init.Streams.{
  Mode, read, write, append, chdir, StreamKernel, unsandboxed_stdin, unsandboxed_stdout,
  unsandboxed_stderr, setup_unsandboxed_filesystem,
}
use eval_python.Init.Descriptors.{
  Description, opened, Table, after, Change, changed, Changes, MakesTable, Changes-MakesTable,
  >>-MakesTable, IsOwn, reopen-Changes, move-none,
}
use eval_python.Init.Redirected.{new-IsOwn}

-- The change that a stream takes: its file, or the null device in the place of a descriptor.
abbrev pub path_change : ℕ → Mode → ℕ → Stdio → Change
path_change fd mode null_fd (mounted path) = some (fd, opened path mode)
path_change fd mode null_fd (dev_null path) = some (null_fd, opened "/dev/null" mode)
path_change fd mode null_fd (file_descriptor source) = none

-- What an output is connected to: its file, or what it was connected to before.
abbrev pub output : Mode → Stdio → Option Description → Option Description
output mode (mounted path) before = some (opened path mode)
output mode (dev_null path) before = before
output mode (file_descriptor fd) before = before

-- What an input is connected to.
abbrev pub input : Stdio → Option Description → Option Description
input (mounted path) before = some (opened path read)
input (dev_null path) before = some (opened "/dev/null" read)
input (file_descriptor fd) before = before

-- What descriptor 0 is connected to, when an output is redirected after it.
abbrev pub overwritten : Mode → Stdio → Option Description → Option Description
overwritten mode (mounted path) before = before
overwritten mode (dev_null path) before = some (opened "/dev/null" mode)
overwritten mode (file_descriptor fd) before = before

changed-output :
    (fd : ℕ) (mode : Mode) (stream : Stdio) (t : Table)
    → (fd == 0) ≡ false
    → changed (path_change fd mode 0 stream) t fd ≡ output mode stream (t fd)
changed-output fd mode (mounted path) t other =
    let self : (fd == fd) ≡ true = ground arith in rw self
changed-output fd mode (dev_null path) t other = rw other
changed-output fd mode (file_descriptor source) t other = refl

changed_zero :
    (fd : ℕ) (mode : Mode) (stream : Stdio) (t : Table)
    → (0 == fd) ≡ false
    → changed (path_change fd mode 0 stream) t 0 ≡ overwritten mode stream (t 0)
changed_zero fd mode (mounted path) t other = rw other
changed_zero fd mode (dev_null path) t other = refl
changed_zero fd mode (file_descriptor source) t other = refl

changed_apart :
    (fd : ℕ) (mode : Mode) (stream : Stdio) (t : Table) (n : ℕ)
    → (n == fd) ≡ false
    → (n == 0) ≡ false
    → changed (path_change fd mode 0 stream) t n ≡ t n
changed_apart fd mode (mounted path) t n other positive = rw other
changed_apart fd mode (dev_null path) t n other positive = rw positive
changed_apart fd mode (file_descriptor source) t n other positive = refl

changed-input :
    (stream : Stdio) (t : Table) → changed (path_change 0 read 0 stream) t 0 ≡ input stream (t 0)
changed-input (mounted path) t = refl
changed-input (dev_null path) t = refl
changed-input (file_descriptor source) t = refl

module _ (kernel : StreamKernel)
    (above : (path : String) (mode : Mode) (fd : ℕ)
      → kernel.opened path mode ≡ done fd
      → 3 ≤ fd) where
  unsandboxed_stdin-Changes :
      (stream : Stdio)
      → IsOwn 0 stream
      → Changes (path_change 0 read 0 stream) (unsandboxed_stdin kernel stream)
  unfolding unsandboxed_stdin
  unsandboxed_stdin-Changes (mounted path) own =
      reopen-Changes kernel above _ _ _ read 0 (omega arith)
  unsandboxed_stdin-Changes (dev_null path) own =
      reopen-Changes kernel above _ _ _ read 0 (omega arith)
  unsandboxed_stdin-Changes (file_descriptor fd) own =
      rw own (move-none kernel above "dup2 stdin" "close stdin" 0)

  unsandboxed_stdout-Changes :
      (stream : Stdio)
      → IsOwn 1 stream
      → Changes (path_change 1 write 0 stream) (unsandboxed_stdout kernel stream)
  unfolding unsandboxed_stdout
  unsandboxed_stdout-Changes (mounted path) own =
      reopen-Changes kernel above _ _ _ write 1 (omega arith)
  unsandboxed_stdout-Changes (dev_null path) own =
      reopen-Changes kernel above _ _ _ write 0 (omega arith)
  unsandboxed_stdout-Changes (file_descriptor fd) own =
      rw own (move-none kernel above "dup2 stdout" "close stdout" 1)

  unsandboxed_stderr-Changes :
      (stream : Stdio)
      → IsOwn 2 stream
      → Changes (path_change 2 append 0 stream) (unsandboxed_stderr kernel stream)
  unfolding unsandboxed_stderr
  unsandboxed_stderr-Changes (mounted path) own =
      reopen-Changes kernel above _ _ _ append 2 (omega arith)
  unsandboxed_stderr-Changes (dev_null path) own =
      reopen-Changes kernel above _ _ _ append 0 (omega arith)
  unsandboxed_stderr-Changes (file_descriptor fd) own =
      rw own (move-none kernel above "dup2 stderr" "close stderr" 2)

  unsandboxed-MakesTable :
      (opts : JailOptions)
      → IsOwn 0 opts.stdin
      → IsOwn 1 opts.stdout
      → IsOwn 2 opts.stderr
      → MakesTable
          (λ t. changed (path_change 2 append 0 opts.stderr) (
            changed
              (path_change 1 write 0 opts.stdout)
              (changed (path_change 0 read 0 opts.stdin) t)))
          (setup_unsandboxed_filesystem kernel opts)
  unfolding setup_unsandboxed_filesystem
  unsandboxed-MakesTable opts own_stdin own_stdout own_stderr =
      >>-MakesTable none _
        (context (format ("chdir(" ∷ kernel.debug opts.homedir ∷ ")" ∷ []))
          (call (chdir opts.homedir) (attempt (kernel.entered opts.homedir))))
        _ (λ h t n small. refl)
        (>>-MakesTable _ _ (unsandboxed_stdin kernel opts.stdin) _
          (unsandboxed_stdin-Changes opts.stdin own_stdin)
          (>>-MakesTable _ _ (unsandboxed_stdout kernel opts.stdout) _
            (unsandboxed_stdout-Changes opts.stdout own_stdout)
            (Changes-MakesTable _ (unsandboxed_stderr kernel opts.stderr)
              (unsandboxed_stderr-Changes opts.stderr own_stderr))))

  -- Without a sandbox, with the options of a successful `new`: an output with a file is connected to
  -- it, and any other output is as it was, also where it should be the null device. Descriptor 0 is
  -- connected to the input's file or terminal, but where an output should be the null device, it is
  -- the null device opened for that output, the last one. The hypothesis is that files are opened
  -- with descriptors above those of the streams.
  pub unsandboxed-connected :
      (debug : String → String) (host : Host) (args : Args) (opts : JailOptions) (t : Table)
      → new debug host args ≡ ok opts
      → (setup_unsandboxed_filesystem kernel opts).1 ≡ ok tt
      → (after (setup_unsandboxed_filesystem kernel opts).0 t 0
          ≡ overwritten append opts.stderr (overwritten write opts.stdout (input opts.stdin (t 0))))
        × (after (setup_unsandboxed_filesystem kernel opts).0 t 1 ≡ output write opts.stdout (t 1))
        × (after (setup_unsandboxed_filesystem kernel opts).0 t 2 ≡ output append opts.stderr (t 2))
  unsandboxed-connected debug host args opts t made h =
      let (own_stdin, own_stdout, own_stderr) = new-IsOwn debug host args made in
      let table = unsandboxed-MakesTable opts own_stdin own_stdout own_stderr h t t in
      let stdin_t = changed (path_change 0 read 0 opts.stdin) t in
      let stdout_t = changed (path_change 1 write 0 opts.stdout) stdin_t in
      (
        table 0 (omega arith) (λ i small. refl)
            ∙ changed_zero 2 append opts.stderr stdout_t refl
            ∙ ap (overwritten append opts.stderr) (
                changed_zero 1 write opts.stdout stdin_t refl
                ∙ ap (overwritten write opts.stdout) (changed-input opts.stdin t)),
        table 1 (omega arith) (λ i small. refl)
            ∙ changed_apart 2 append opts.stderr stdout_t 1 refl refl
            ∙ changed-output 1 write opts.stdout stdin_t refl
            ∙ ap (output write opts.stdout) (changed_apart 0 read opts.stdin t 1 refl refl),
        table 2 (omega arith) (λ i small. refl)
            ∙ changed-output 2 append opts.stderr stdout_t refl
            ∙ ap (output append opts.stderr) (
                changed_apart 1 write opts.stdout stdin_t 2 refl refl
                ∙ changed_apart 0 read opts.stdin t 2 refl refl),
      )
