-- ===== src/Options/Confined.antt =====
-- Where the mounts that `JailOptions::new` lists are put.
use eval_python.Prelude.{String, Bool, ◌≡◌, refl, All, ok, is_absolute, climbs, IsBelow, join}
use eval_python.Args.{Args}
use eval_python.Options.Types.{MountArgs, JailOptions, Host}
use eval_python.Options.StreamMounts.{setup_stdin-All, setup_stdout-All, setup_stderr-All}
use eval_python.Options.BindCases.{IsInside, parse_binds-inside}
use eval_python.Options.New.{base_mounts, new}
use eval_python.Options.AllMounts.{All-mounts}

-- The target is a relative path without `..`, joined to the root of the jail.
abbrev pub IsWithin : String → MountArgs → Type 0
IsWithin rootfs m = (relative : String) × IsBelow relative × (m.target ≡ join rootfs relative)

base_mounts-IsWithin :
    (rootfs home : String) (w : Bool) → All (IsWithin rootfs) (base_mounts rootfs home w)
unfolding base_mounts is_absolute climbs
base_mounts-IsWithin rootfs home w = (
  ("home", (refl, refl), refl),
  (("proc", (refl, refl), refl), (("mnt/stdio", (refl, refl), refl), tt)),
)

-- If every `--bind` has the form `SOURCE:/RELATIVE` with a relative path behind the first separator
-- that has no component `..`, then the target of every mount of a jail is the root of the jail joined
-- with a relative path that has no component `..` either.
pub new-IsWithin :
    (debug : String → String) (host : Host) (args : Args) (o : JailOptions)
    → new debug host args ≡ ok o
    → All IsInside args.bind
    → All (IsWithin o.rootfs) o.mounts
unfolding is_absolute climbs
new-IsWithin debug host args o h inside =
    All-mounts (IsWithin o.rootfs) debug host args o
      (record {
        base = λ home _. base_mounts-IsWithin o.rootfs home args.homedir_writable;
        stdin =
            setup_stdin-All (IsWithin o.rootfs) host o.rootfs
              (λ source. ("mnt/stdio/stdin", (refl, refl), refl)) args.stdin;
        stdout =
            setup_stdout-All (IsWithin o.rootfs) host o.rootfs args.stdout
              (λ source sink. ("mnt/stdio/stdout", (refl, refl), refl));
        stderr =
            setup_stderr-All (IsWithin o.rootfs) host o.rootfs args.stderr
              (λ source sink. ("mnt/stdio/stderr", (refl, refl), refl));
        language = λ source relative r. (relative, r, refl);
        binds =
            parse_binds-inside (IsWithin o.rootfs) debug o.rootfs
              (λ source relative r. (relative, r, refl)) args.bind inside;
      })
      h
