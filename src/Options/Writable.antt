-- ===== src/Options/Writable.antt =====
-- Which of the mounts that `JailOptions::new` lists ask for a bind that can be written.
use eval_python.Prelude.{
  if◌then◌else◌, String, Bool, true, false, none, some, ◌≡◌, refl, ◌⊎◌, inl, inr, All, ok, done,
  join,
}
use eval_python.Args.{Args}
use eval_python.Options.Types.{MountArgs, JailOptions, Host, bind_rdonly, ms_bind, ms_bind_rdonly}
use eval_python.Options.StreamMounts.{IsSink, setup_stdin-All, setup_stdout-All, setup_stderr-All}
use eval_python.Options.New.{base_mounts, new}
use eval_python.Options.AllMounts.{All-mounts}
use eval_python.Options.BindCases.{parse_binds-All}

-- A bind mount that does not ask for read-only is that of the home directory, if it was asked for, or
-- that of the file that takes one of the outputs. The flags are what is asked for: mount(2) does not
-- heed `MS_RDONLY` in a call with `MS_BIND`.
abbrev pub IsRequested : Host → Args → String → MountArgs → Type 0
IsRequested host args rootfs m =
    ((m.flags.bind ≡ false) ⊎ (m.flags.rdonly ≡ true))
    ⊎ ((source : String) × (m.source ≡ some source)
        × (((m.target ≡ join rootfs "home")
              × (args.homedir_writable ≡ true)
              × (host.canonicalize args.homedir ≡ done source))
            ⊎ (((m.target ≡ join rootfs "mnt/stdio/stdout") × IsSink host rootfs args.stdout source)
                ⊎ ((m.target ≡ join rootfs "mnt/stdio/stderr")
                    × IsSink host rootfs args.stderr source))))

module _ (host : Host) (args : Args) (rootfs : String) where
  rdonly-IsRequested :
      (source target : String) → IsRequested host args rootfs (bind_rdonly source target)
  rdonly-IsRequested source target = inl (inr refl)

  home-IsRequested :
      (home : String)
      → host.canonicalize args.homedir ≡ done home
      → (w : Bool) → args.homedir_writable ≡ w
      → IsRequested host args rootfs (record {
        source = some home;
        target = join rootfs "home";
        fstype = none;
        flags = if w then ms_bind else ms_bind_rdonly;
        contents = none;
      })
  home-IsRequested home canonical true asked = inr (home, refl, inl (refl, asked, canonical))
  home-IsRequested home canonical false asked = inl (inr refl)

  base_mounts-IsRequested :
      (home : String)
      → host.canonicalize args.homedir ≡ done home
      → All (IsRequested host args rootfs) (base_mounts rootfs home args.homedir_writable)
  unfolding base_mounts
  base_mounts-IsRequested home canonical = (
    home-IsRequested home canonical args.homedir_writable refl,
    (inl (inl refl), (inl (inl refl), tt)),
  )

-- Every bind mount of a jail that is not asked to be read-only is one of these, whatever the arguments
-- and the answers of the host are: the canonical home directory, which then was asked to be writable,
-- or the file that takes the standard output or the standard error, which is the canonical path of the
-- one that is given, or the null device of the root of the jail.
pub new-IsRequested :
    (debug : String → String) (host : Host) (args : Args) (o : JailOptions)
    → new debug host args ≡ ok o
    → All (IsRequested host args o.rootfs) o.mounts
new-IsRequested debug host args o h =
    All-mounts (IsRequested host args o.rootfs) debug host args o
      (record {
        base = base_mounts-IsRequested host args o.rootfs;
        stdin =
            setup_stdin-All (IsRequested host args o.rootfs) host o.rootfs
              (λ source.
                rdonly-IsRequested host args o.rootfs source (join o.rootfs "mnt/stdio/stdin"))
              args.stdin;
        stdout =
            setup_stdout-All (IsRequested host args o.rootfs) host o.rootfs args.stdout
              λ source sink. inr (source, refl, inr (inl (refl, sink)));
        stderr =
            setup_stderr-All (IsRequested host args o.rootfs) host o.rootfs args.stderr
              λ source sink. inr (source, refl, inr (inr (refl, sink)));
        language = λ source relative _.
            rdonly-IsRequested host args o.rootfs source (join o.rootfs relative);
        binds =
            parse_binds-All (IsRequested host args o.rootfs) debug o.rootfs
              (rdonly-IsRequested host args o.rootfs) args.bind;
      })
      h
