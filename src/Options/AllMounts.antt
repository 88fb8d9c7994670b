-- ===== src/Options/AllMounts.antt =====
-- A predicate holds of every mount that `JailOptions::new` lists if each of the places that add a
-- mount keeps it.
use eval_python.Prelude.{
  String, ◌++◌, ◌≡◌, sym, subst, All, All-append, ok, OkHolds, OkHolds-ok, IsBelow, join, done,
}
use eval_python.Args.{Args}
use eval_python.Options.Types.{MountArgs, JailOptions, Host, bind_rdonly}
use eval_python.Options.Streams.{setup_stdin, setup_stdout, setup_stderr}
use eval_python.Options.Binds.{parse_binds}
use eval_python.Options.New.{base_mounts, initial_draft, new}
use eval_python.Options.Built.{new-Built}
use eval_python.Options.LanguageMounts.{choose_command-mounts}

module _ (P : MountArgs → Type 0) (debug : String → String) (host : Host) (args : Args)
    (o : JailOptions) where
  pub record Adds : Type 0 where
    pub base :
        (home : String)
        → host.canonicalize args.homedir ≡ done home
        → All P (base_mounts o.rootfs home args.homedir_writable)
    pub stdin : OkHolds (λ r. All P r.1) (setup_stdin host o.rootfs args.stdin)
    pub stdout : OkHolds (λ r. All P r.1) (setup_stdout host o.rootfs args.stdout)
    pub stderr : OkHolds (λ r. All P r.1) (setup_stderr host o.rootfs args.stderr)
    pub language :
        (source relative : String)
        → IsBelow relative
        → P (bind_rdonly source (join o.rootfs relative))
    pub binds : OkHolds (All P) (parse_binds debug o.rootfs args.bind)

  pub All-mounts : Adds → new debug host args ≡ ok o → All P o.mounts
  All-mounts a h =
      let b = new-Built debug host args h in
      let first =
        All-append P _ b.stderr.1
          (All-append P _ b.stdout.1
            (All-append P (base_mounts o.rootfs b.home args.homedir_writable) b.stdin.1
              (a.base b.home b.is_home) (OkHolds-ok _ _ a.stdin b.is_stdin))
            (OkHolds-ok _ _ a.stdout b.is_stdout))
          (OkHolds-ok _ _ a.stderr b.is_stderr) in
      let commanded =
        OkHolds-ok (λ d. All P d.mounts) _
          (choose_command-mounts P (record { root = b.root; rootfs = o.rootfs }) a.language args
            (initial_draft (
              base_mounts o.rootfs b.home args.homedir_writable
              ++ b.stdin.1
              ++ b.stdout.1
              ++ b.stderr.1))
            first)
          b.is_draft in
      subst (All P) (sym b.is_mounts)
        (All-append P b.draft.mounts b.binds commanded (OkHolds-ok (All P) _ a.binds b.is_binds))
