-- ===== src/Init/Streams.antt =====
-- The redirection of the standard streams in `setup_mount_namespace` and in
-- `setup_unsandboxed_filesystem` of src/jail/child_init.rs.
use eval_python.Prelude.{ℕ, ◌==◌, String, [], ◌∷◌, Io, attempt, with_context, format, if◌then◌else◌}
use eval_python.Prelude.Traced.{Traced, ◌>>=◌, ◌>>◌, pure, call, context}
use eval_python.Options.Types.{Stdio, mounted, dev_null, file_descriptor, JailOptions}

-- how a file is opened
pub data Mode : Type 0 where
  read write append : Mode

-- The calls, the open of a file with its reply. A file that is dropped is closed.
pub data StreamCall : Type 0 where
  chdir : String → StreamCall
  open_file : String → Mode → Io ℕ → StreamCall
  dup2 : ℕ → ℕ → StreamCall
  close : ℕ → StreamCall

-- `debug` is `{:?}` of a path.
pub record StreamKernel : Type 0 where
  pub entered : String → Io (Unit {0})
  pub opened : String → Mode → Io ℕ
  pub duplicated : ℕ → ℕ → Io (Unit {0})
  pub closed : ℕ → Io (Unit {0})
  pub debug : String → String

module _ (kernel : StreamKernel) where
  -- `dup2(f.as_raw_fd(), target).context(name)?`, and the drop of `f`
  unfoldable pub dup_and_drop : String → ℕ → ℕ → Traced StreamCall (Unit {0})
  dup_and_drop name target fd =
      (dup2 fd target ∷ close fd ∷ [], with_context name (attempt (kernel.duplicated fd target)))

  unfoldable pub reopen : String → String → String → Mode → ℕ → Traced StreamCall (Unit {0})
  unfolding dup_and_drop
  reopen open_name name path mode target =
      context open_name
        (call (open_file path mode (kernel.opened path mode)) (attempt (kernel.opened path mode)))
      >>= dup_and_drop name target

  -- the two arms for a descriptor
  unfoldable pub move : String → String → ℕ → ℕ → Traced StreamCall (Unit {0})
  move name close_name fd target =
      if fd == target
      then pure tt
      else (context name (call (dup2 fd target) (attempt (kernel.duplicated fd target)))
          >> context close_name (call (close fd) (attempt (kernel.closed fd))))

  unfoldable pub redirect_stdin : Stdio → Traced StreamCall (Unit {0})
  unfolding reopen move
  redirect_stdin (mounted path) =
      reopen "open /mnt/stdio/stdin" "dup2 stdin" "/mnt/stdio/stdin" read 0
  redirect_stdin (dev_null path) =
      reopen "open /mnt/stdio/stdin" "dup2 stdin" "/mnt/stdio/stdin" read 0
  redirect_stdin (file_descriptor fd) = move "dup2 stdin" "close stdin" fd 0

  unfoldable pub redirect_stdout : Stdio → Traced StreamCall (Unit {0})
  unfolding reopen move
  redirect_stdout (mounted path) =
      reopen "open /mnt/stdio/stdout" "dup2 stdout" "/mnt/stdio/stdout" write 1
  redirect_stdout (dev_null path) =
      reopen "open /mnt/stdio/stdout" "dup2 stdout" "/mnt/stdio/stdout" write 1
  redirect_stdout (file_descriptor fd) = move "dup2 stdout" "close stdout" fd 1

  unfoldable pub redirect_stderr : Stdio → Traced StreamCall (Unit {0})
  unfolding reopen move
  redirect_stderr (mounted path) =
      reopen "open /mnt/stdio/stderr" "dup2 stderr" "/mnt/stdio/stderr" append 2
  redirect_stderr (dev_null path) =
      reopen "open /mnt/stdio/stderr" "dup2 stderr" "/mnt/stdio/stderr" append 2
  redirect_stderr (file_descriptor fd) = move "dup2 stderr" "close stderr" fd 2

  -- the last part of `setup_mount_namespace`
  unfoldable pub redirect_streams : JailOptions → Traced StreamCall (Unit {0})
  unfolding redirect_stdin redirect_stdout redirect_stderr
  redirect_streams opts = do
    redirect_stdin opts.stdin
    redirect_stdout opts.stdout
    redirect_stderr opts.stderr

  abbrev open_name : String → String
  open_name path = format ("open " ∷ kernel.debug path ∷ [])

  unfoldable pub unsandboxed_stdin : Stdio → Traced StreamCall (Unit {0})
  unfolding reopen move
  unsandboxed_stdin (mounted path) = reopen (open_name path) "dup2 stdin" path read 0
  unsandboxed_stdin (dev_null path) = reopen "open(\"/dev/null\")" "dup2 stdin" "/dev/null" read 0
  unsandboxed_stdin (file_descriptor fd) = move "dup2 stdin" "close stdin" fd 0

  -- The null device is put in the place of descriptor 0, as it stands in the source.
  unfoldable pub unsandboxed_stdout : Stdio → Traced StreamCall (Unit {0})
  unfolding reopen move
  unsandboxed_stdout (mounted path) = reopen (open_name path) "dup2 stdout" path write 1
  unsandboxed_stdout (dev_null path) =
      reopen "open(\"/dev/null\")" "dup2 stdout" "/dev/null" write 0
  unsandboxed_stdout (file_descriptor fd) = move "dup2 stdout" "close stdout" fd 1

  unfoldable pub unsandboxed_stderr : Stdio → Traced StreamCall (Unit {0})
  unfolding reopen move
  unsandboxed_stderr (mounted path) = reopen (open_name path) "dup2 stderr" path append 2
  unsandboxed_stderr (dev_null path) =
      reopen "open(\"/dev/null\")" "dup2 stderr" "/dev/null" append 0
  unsandboxed_stderr (file_descriptor fd) = move "dup2 stderr" "close stderr" fd 2

  unfoldable pub setup_unsandboxed_filesystem : JailOptions → Traced StreamCall (Unit {0})
  unfolding unsandboxed_stdin unsandboxed_stdout unsandboxed_stderr
  setup_unsandboxed_filesystem opts = do
    context (format ("chdir(" ∷ kernel.debug opts.homedir ∷ ")" ∷ []))
        (call (chdir opts.homedir) (attempt (kernel.entered opts.homedir)))
    unsandboxed_stdin opts.stdin
    unsandboxed_stdout opts.stdout
    unsandboxed_stderr opts.stderr
