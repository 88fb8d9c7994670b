-- ===== src/Init/Namespaces.antt =====
-- `setup_net_namespace` and `setup_mount_namespace` of src/jail/child_init.rs.
use eval_python.Prelude.{
  ℕ, suc, Bool, true, String, Option, none, some, List, [], ◌∷◌, map, Io, attempt, ok_or, format,
  parent, not, if◌then◌else◌,
}
use eval_python.Prelude.Traced.{Traced, ◌>>=◌, ◌>>◌, pure, call, lift, context}
use eval_python.Options.Types.{MountArgs, MsFlags, no_flags, ms_bind, ms_restricted, JailOptions}
use eval_python.Init.Streams.{StreamCall, StreamKernel, redirect_streams}

pub data NamespaceCall : Type 0 where
  unshare_net unshare_mounts : NamespaceCall
  set_hostname : String → NamespaceCall
  mount : MountArgs → NamespaceCall
  metadata create_dir_all create_file : String → NamespaceCall
  open_dir chdir chroot umount : String → NamespaceCall
  pivot_root : String → String → NamespaceCall
  -- into the old root and into the new one, by their descriptors
  fchdir_old fchdir_new : NamespaceCall
  stream_call : StreamCall → NamespaceCall

-- `exists` depends on how many mounts there are before; `is_dir` is what metadata says, which is not
-- among the `answers`.
pub record NamespaceKernel : Type 0 where
  pub exists : ℕ → String → Bool
  pub is_dir : ℕ → String → Io Bool
  pub answer : NamespaceCall → Io (Unit {0})
  pub streams : StreamKernel
  pub debug : String → String
  pub debug_mount : MountArgs → String

-- a mount without a source, a type and data
abbrev pub bare_mount : String → MsFlags → MountArgs
bare_mount target flags = record {
  source = none;
  target = target;
  fstype = none;
  flags = flags;
  contents = none;
}

abbrev pub private_mount : String → MountArgs
private_mount target = bare_mount target (record no_flags { private = true; recursive = true })

abbrev pub rootfs_mount : String → MountArgs
rootfs_mount rootfs = record (bare_mount rootfs (record ms_bind { recursive = true })) {
  source = some rootfs;
}

abbrev pub readonly_root : MountArgs
readonly_root = bare_mount "/" (record ms_bind { remount = true; rdonly = true })

abbrev pub tmp_mount : MountArgs
tmp_mount = record {
  source = none;
  target = "/tmp";
  fstype = some "tmpfs";
  flags = ms_restricted;
  contents = some "size=67108864,mode=1777";
}

module _ (kernel : NamespaceKernel) where
  unfoldable pub act : String → NamespaceCall → Traced NamespaceCall (Unit {0})
  act text c = context text (call c (attempt (kernel.answer c)))

  -- one call after the other, each with its context
  unfoldable pub acts : List (String × NamespaceCall) → Traced NamespaceCall (Unit {0})
  unfolding act
  acts [] = pure tt
  acts ((text, c) ∷ rest) = act text c >> acts rest

  unfoldable pub setup_net_namespace : Traced NamespaceCall (Unit {0})
  unfolding acts
  setup_net_namespace = acts (
      ("unshare(CLONE_NEWNET)", unshare_net)
      ∷ ("sethostname(omegajail)", set_hostname "omegajail")
      ∷ [])

  abbrev create_text : String → String
  create_text path = format ("create bind target " ∷ kernel.debug path ∷ [])

  unfoldable pub create_parent : Option String → Traced NamespaceCall (Unit {0})
  unfolding act
  create_parent none = pure tt
  create_parent (some dir) = act (create_text dir) (create_dir_all dir)

  unfoldable pub create_for : String → Bool → Traced NamespaceCall (Unit {0})
  unfolding act create_parent
  create_for target is_dir =
      if is_dir
      then act (create_text target) (create_dir_all target)
      else (create_parent (parent target) >> act (create_text target) (create_file target))

  unfoldable pub create_bind : ℕ → MountArgs → Traced NamespaceCall (Unit {0})
  unfolding create_for
  create_bind i m =
      lift (
        ok_or m.source (format ("source for mount " ∷ kernel.debug_mount m ∷ " not provided" ∷ [])))
      >>= λ source.
          call (metadata source) (attempt (kernel.is_dir i source)) >>= create_for m.target

  -- the target of a mount, where it is not there yet
  unfoldable pub prepare_target : ℕ → MountArgs → Traced NamespaceCall (Unit {0})
  unfolding act create_bind
  prepare_target i m =
      if not (kernel.exists i m.target)
      then (if not m.flags.bind
          then act (create_text m.target) (create_dir_all m.target)
          else create_bind i m)
      else pure tt

  -- the loop over the mounts
  unfoldable pub mount_all : ℕ → List MountArgs → Traced NamespaceCall (Unit {0})
  unfolding act prepare_target
  mount_all i [] = pure tt
  mount_all i (m ∷ mounts) =
      let rest = mount_all (suc i) mounts in
      prepare_target i m
      >> (act (format ("mount(" ∷ kernel.debug_mount m ∷ ")" ∷ [])) (mount m) >> rest)

  -- from the open of the old root to the new home
  abbrev pub pivot_steps : String → List (String × NamespaceCall)
  pivot_steps rootfs =
      ("open old root", open_dir "/")
      ∷ ("open new root", open_dir rootfs)
      ∷ (format ("remount rootfs " ∷ kernel.debug rootfs ∷ []), mount (rootfs_mount rootfs))
      ∷ (format ("chdir rootfs " ∷ kernel.debug rootfs ∷ []), chdir rootfs)
      ∷ ("pivot_root(\".\", \".\")", pivot_root "." ".")
      ∷ ("fchdir old rootfs", fchdir_old)
      ∷ ("remount old rootfs as private", mount (private_mount "."))
      ∷ ("unmount old rootfs", umount ".")
      ∷ ("fchdir new rootfs", fchdir_new)
      ∷ ("chroot(\"/\")", chroot "/")
      ∷ ("chdir(\"/\")", chdir "/")
      ∷ ("remount / as read-only", mount readonly_root)
      ∷ ("mount /tmp", mount tmp_mount)
      ∷ ("chdir(\"/home\")", chdir "/home")
      ∷ []

  abbrev pub on_streams : Traced StreamCall (Unit {0}) → Traced NamespaceCall (Unit {0})
  on_streams m = (map stream_call m.0, m.1)

  unfoldable pub setup_mount_namespace : JailOptions → Traced NamespaceCall (Unit {0})
  unfolding acts act mount_all
  setup_mount_namespace opts =
      acts (
        ("unshare(CLONE_NEWNS)", unshare_mounts)
        ∷ ("mount / as private", mount (private_mount "/"))
        ∷ [])
      >> (mount_all 0 opts.mounts
          >> (acts (pivot_steps opts.rootfs)
              >> (on_streams (redirect_streams kernel.streams opts)
                  >> act "unmount /mnt/stdio" (umount "/mnt/stdio"))))
