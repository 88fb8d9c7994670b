-- ===== src/Init/Mounted.antt =====
-- The mounts of `setup_mount_namespace` of src/jail/child_init.rs, and their order.
use eval_python.Prelude.{
  ℕ, suc, ◌≡◌, refl, ap, ◌∙◌, Bool, true, false, String, Option, none, some, filter_map,
  filter_map-append, List, [], ◌∷◌, ◌++◌, map, ok, attempt, ok_or, format, parent, not,
  if◌then◌else◌,
}
use eval_python.Prelude.Traced.{Traced, ◌>>=◌, ◌>>◌, pure, call, >>=-eq-ok, continue-filter_map}
use eval_python.Options.Types.{MountArgs, JailOptions}
use eval_python.Init.Streams.{redirect_streams}
use eval_python.Init.Namespaces.{
  NamespaceCall, unshare_mounts, mount, metadata, create_dir_all, create_file, umount, stream_call,
  NamespaceKernel, private_mount, act, acts, create_parent, create_for, create_bind, prepare_target,
  mount_all, pivot_steps, on_streams, setup_mount_namespace,
}

-- the mounts among some calls
abbrev pub mount_of : NamespaceCall → Option MountArgs
mount_of (mount m) = some m
mount_of other = none

abbrev pub mounts_of : List NamespaceCall → List MountArgs
mounts_of calls = filter_map mount_of calls

-- Steps that mount nothing.
abbrev Idle : {A : Type 0} → Traced NamespaceCall A → Type 0
Idle m = mounts_of m.0 ≡ []

if-Idle :
    (b : Bool) (m k : Traced NamespaceCall (Unit {0})) → Idle m → Idle k → Idle (if b then m else k)
if-Idle true m k first second = first
if-Idle false m k first second = second

append_eq : {a a' b b' : List NamespaceCall} → a ≡ a' → b ≡ b' → a ++ b ≡ a' ++ b'
append_eq h k = cc

module _ (kernel : NamespaceKernel) where
  pub acts-lem :
      (steps : List (String × NamespaceCall))
      → (acts kernel steps).1 ≡ ok tt
      → (acts kernel steps).0 ≡ map (λ s. s.1) steps
  unfolding acts
  acts-lem [] h = refl
  acts-lem ((text, c) ∷ steps) h =
      let (_, _, rest, trace) = >>=-eq-ok (act kernel text c) (λ _. acts kernel steps) h in
      trace ∙ ap (◌∷◌ c) (acts-lem steps rest)

  create_parent-Idle : (dir : Option String) → Idle (create_parent kernel dir)
  unfolding create_parent act filter_map
  create_parent-Idle none = refl
  create_parent-Idle (some dir) = refl

  create_for-Idle : (target : String) (is_dir : Bool) → Idle (create_for kernel target is_dir)
  unfolding create_for act filter_map
  create_for-Idle target true = refl
  create_for-Idle target false =
      continue-filter_map mount_of (create_parent kernel (parent target)).0
        (create_parent kernel (parent target)).1
        (λ _.
          act kernel (format ("create bind target " ∷ kernel.debug target ∷ []))
            (create_file target))
        (create_parent-Idle (parent target)) λ a. refl

  create_bind-Idle : (i : ℕ) (m : MountArgs) → Idle (create_bind kernel i m)
  unfolding create_bind filter_map
  create_bind-Idle i m =
      continue-filter_map mount_of []
        (ok_or m.source
          (format ("source for mount " ∷ kernel.debug_mount m ∷ " not provided" ∷ [])))
        (λ source.
          call (metadata source) (attempt (kernel.is_dir i source)) >>= create_for kernel m.target)
        refl
        λ source.
          continue-filter_map mount_of (metadata source ∷ []) (attempt (kernel.is_dir i source))
            (create_for kernel m.target) refl (create_for-Idle m.target)

  create_target-Idle :
      (i : ℕ) (m : MountArgs) (text : String)
      → Idle (
          if not m.flags.bind
          then act kernel text (create_dir_all m.target)
          else create_bind kernel i m)
  unfolding act filter_map
  create_target-Idle i m text =
      if-Idle (not m.flags.bind) (act kernel text (create_dir_all m.target))
        (create_bind kernel i m) refl (create_bind-Idle i m)

  prepare_target-Idle : (i : ℕ) (m : MountArgs) → Idle (prepare_target kernel i m)
  unfolding prepare_target filter_map
  prepare_target-Idle i m =
      let text = format ("create bind target " ∷ kernel.debug m.target ∷ []) in
      if-Idle (not (kernel.exists i m.target))
        (if not m.flags.bind
          then act kernel text (create_dir_all m.target)
          else create_bind kernel i m)
        (pure tt) (create_target-Idle i m text) refl

  mount_all-mounts :
      (i : ℕ) (mounts : List MountArgs)
      → (mount_all kernel i mounts).1 ≡ ok tt
      → mounts_of (mount_all kernel i mounts).0 ≡ mounts
  unfolding mount_all act filter_map
  mount_all-mounts i [] h = refl
  mount_all-mounts i (m ∷ mounts) h =
      let rest = mount_all kernel (suc i) mounts in
      let next =
        act kernel (format ("mount(" ∷ kernel.debug_mount m ∷ ")" ∷ [])) (mount m) >> rest in
      let (_, _, h1, trace) = >>=-eq-ok (prepare_target kernel i m) (λ _. next) h in
      let (_, _, rest_ok, trace1) =
        >>=-eq-ok (act kernel (format ("mount(" ∷ kernel.debug_mount m ∷ ")" ∷ [])) (mount m))
          (λ _. rest) h1 in
      ap mounts_of trace
      ∙ filter_map-append mount_of (prepare_target kernel i m).0 next.0
      ∙ ap (λ ms. ms ++ mounts_of next.0) (prepare_target-Idle i m)
      ∙ ap mounts_of trace1
      ∙ ap (◌∷◌ m) (mount_all-mounts (suc i) mounts rest_ok)

  pub setup_mount_namespace-order :
      (opts : JailOptions)
      → (setup_mount_namespace kernel opts).1 ≡ ok tt
      → (prepared : List NamespaceCall) × (mounts_of prepared ≡ opts.mounts)
        × ((setup_mount_namespace kernel opts).0
            ≡ unshare_mounts
              ∷ mount (private_mount "/")
              ∷ (prepared
                  ++ (map (λ s. s.1) (pivot_steps kernel opts.rootfs)
                      ++ (map stream_call (redirect_streams kernel.streams opts).0
                          ++ umount "/mnt/stdio" ∷ []))))
  unfolding setup_mount_namespace act
  setup_mount_namespace-order opts h =
      let first =
        ("unshare(CLONE_NEWNS)", unshare_mounts)
        ∷ ("mount / as private", mount (private_mount "/"))
        ∷ [] in
      let (_, first_ok, h1, trace) = >>=-eq-ok (acts kernel first) _ h in
      let (_, mounts_ok, h2, trace1) = >>=-eq-ok (mount_all kernel 0 opts.mounts) _ h1 in
      let (_, pivot_ok, h3, trace2) =
        >>=-eq-ok (acts kernel (pivot_steps kernel opts.rootfs)) _ h2 in
      let (_, _, _, trace3) =
        >>=-eq-ok (on_streams kernel (redirect_streams kernel.streams opts)) _ h3 in
      (
        (mount_all kernel 0 opts.mounts).0,
        mount_all-mounts 0 opts.mounts mounts_ok,
        trace
            ∙ append_eq (acts-lem first first_ok) (
                trace1
                ∙ append_eq refl (
                    trace2
                    ∙ append_eq (acts-lem (pivot_steps kernel opts.rootfs) pivot_ok) trace3)),
      )
