-- ===== src/Options/Streams.antt =====
-- The standard streams of `JailOptions::new` in src/jail/options.rs: what each one is connected to,
-- and the mount that this takes.
use eval_python.Prelude.{
  String, Option, none, some, List, [], ◌∷◌, Outcome, ok, attempt, with_context, ◌>>=◌, ◌>>◌, ◌==◌,
  if◌then◌else◌, format, join,
}
use eval_python.Options.Types.{
  Stdio, mounted, dev_null, file_descriptor, MountArgs, Host, bind_rdonly, bind_writable,
}

unfoldable pub setup_stdin : Host → String → Option String → Outcome (Stdio × List MountArgs)
setup_stdin host rootfs (some stdin) = do
  with_context (format ("open stdin " ∷ stdin ∷ [])) (attempt (host.open_file stdin))
  source ←
      with_context (format ("canonicalize(" ∷ stdin ∷ ")" ∷ [])) (attempt (host.canonicalize stdin))
  ok (mounted source, bind_rdonly source (join rootfs "mnt/stdio/stdin") ∷ [])
setup_stdin host rootfs none =
    let source = join rootfs "dev/null" in
    if host.isatty 0 == 0
    then ok (dev_null source, bind_rdonly source (join rootfs "mnt/stdio/stdin") ∷ [])
    else ok (file_descriptor 0, [])

unfoldable pub setup_stdout : Host → String → Option String → Outcome (Stdio × List MountArgs)
setup_stdout host rootfs (some stdout) = do
  with_context (format ("create stdout " ∷ stdout ∷ [])) (attempt (host.create_file stdout))
  source ←
      with_context (format ("canonicalize(" ∷ stdout ∷ ")" ∷ []))
        (attempt (host.canonicalize stdout))
  ok (mounted source, bind_writable source (join rootfs "mnt/stdio/stdout") ∷ [])
setup_stdout host rootfs none =
    let source = join rootfs "dev/null" in
    if host.isatty 1 == 0
    then ok (dev_null source, bind_writable source (join rootfs "mnt/stdio/stdout") ∷ [])
    else ok (file_descriptor 1, [])

unfoldable pub setup_stderr : Host → String → Option String → Outcome (Stdio × List MountArgs)
setup_stderr host rootfs (some stderr) = do
  with_context (format ("create stderr " ∷ stderr ∷ [])) (attempt (host.open_append stderr))
  source ←
      with_context (format ("canonicalize(" ∷ stderr ∷ ")" ∷ []))
        (attempt (host.canonicalize stderr))
  ok (mounted source, bind_writable source (join rootfs "mnt/stdio/stderr") ∷ [])
setup_stderr host rootfs none =
    let source = join rootfs "dev/null" in
    if host.isatty 2 == 0
    then ok (dev_null source, bind_writable source (join rootfs "mnt/stdio/stderr") ∷ [])
    else ok (file_descriptor 2, [])
