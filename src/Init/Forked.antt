-- ===== src/Init/Forked.antt =====
-- What `run` of src/jail/child_init.rs has done before it forks.
use eval_python.Prelude.{
  ◌≡◌, refl, sym, ap, ◌∙◌, Bool, true, false, ◌||◌, List, [], ◌∷◌, ◌++◌, map, ok, err, panicked,
  append-nil, Bool-cases, arith, inl, inr, if◌then◌else◌, not, ltb, ◌-◌, String, Option, ℕ, attempt,
}
use eval_python.Prelude.Traced.{Traced, ◌>>=◌, ◌>>◌, context, call, >>=-eq-ok}
use eval_python.Options.Types.{JailOptions}
use eval_python.Sys.Capabilities.{set_no_new_privs}
use eval_python.Init.Affinity.{CpuSets}
use eval_python.Init.Privileges.{drop_privileges}
use eval_python.Init.Namespaces.{setup_net_namespace, setup_mount_namespace}
use eval_python.Init.Start.{
  InitCall, namespace_call, privilege_call, setresuid, fork, InitKernel, part, take_ids, sandbox,
  set_up, close_one_range, close_ranges, close_inherited,
}

if_not-false {ℓ} : {A : Type ℓ} (b : Bool) (x y : A) → b ≡ false → (if not b then x else y) ≡ x
if_not-false true x y h = cc
if_not-false false x y h = refl

module _ (cpus : CpuSets) where
  abbrev is_fork : InitCall cpus → Bool
  is_fork fork = true
  is_fork other = false

  abbrev pub forks : List (InitCall cpus) → Bool
  forks [] = false
  forks (c ∷ calls) = is_fork c || forks calls

  forks-append : (xs ys : List (InitCall cpus)) → forks (xs ++ ys) ≡ (forks xs || forks ys)
  forks-append [] ys = refl
  forks-append (c ∷ xs) ys = ground (arith, forks-append xs ys)

  forks-map :
      {C : Type 0} (into : C → InitCall cpus) (calls : List C)
      → ((c : C) → is_fork (into c) ≡ false)
      → forks (map into calls) ≡ false
  forks-map into [] quiet = refl
  forks-map into (c ∷ calls) quiet = rw (quiet c, forks-map into calls quiet)

  pub part-quiet :
      {C A : Type 0} (text : String) (into : C → InitCall cpus) (m : Traced C A)
      → ((c : C) → is_fork (into c) ≡ false)
      → forks (context text (part cpus into m)).0 ≡ false
  part-quiet text into m quiet = forks-map into m.0 quiet

  -- A step that does not fork has ended well before the fork after it.
  pub >>=-forks :
      {A B : Type 0} (m : Traced (InitCall cpus) A) (f : A → Traced (InitCall cpus) B)
      → forks m.0 ≡ false
      → forks (m >>= f).0 ≡ true
      → (a : A) × (m.1 ≡ ok a) × (forks (f a).0 ≡ true) × ((m >>= f).0 ≡ m.0 ++ (f a).0)
  >>=-forks (calls, ok a) f quiet h = (a, refl, rw (forks-append calls (f a).0, quiet) at h, refl)
  >>=-forks (calls, err e) f quiet h = cc
  >>=-forks (calls, panicked) f quiet h = cc

  >>-quiet :
      {B : Type 0} (m : Traced (InitCall cpus) (Unit {0})) (k : Traced (InitCall cpus) B)
      → forks m.0 ≡ false
      → forks k.0 ≡ false
      → forks (m >> k).0 ≡ false
  >>-quiet (calls, ok tt) k first next = rw (forks-append calls k.0, first, next)
  >>-quiet (calls, err e) k first next = first
  >>-quiet (calls, panicked) k first next = first

  -- Steps that end well only after a fork, behind a step.
  abbrev pub Forks : {A : Type 0} → Traced (InitCall cpus) A → Type 0
  Forks {A} m = (a : A) → m.1 ≡ ok a → forks m.0 ≡ true

  pub >>-Forks :
      {B : Type 0} (m : Traced (InitCall cpus) (Unit {0})) (k : Traced (InitCall cpus) B)
      → Forks k
      → Forks (m >> k)
  >>-Forks m k later b h =
      let (_, _, e, trace) = >>=-eq-ok m (λ _. k) h in
      ap forks trace ∙ forks-append m.0 k.0 ∙ ground (arith, later b e)

  -- What follows such steps begins after their fork.
  pub Forks-first :
      {A B : Type 0} (m : Traced (InitCall cpus) A) (f : A → Traced (InitCall cpus) B)
      → Forks m
      → forks (m >>= f).0 ≡ true
      → (forks m.0 ≡ true) × (rest : List (InitCall cpus)) × ((m >>= f).0 ≡ m.0 ++ rest)
  Forks-first (calls, ok a) f later h = (later a refl, (f a).0, refl)
  Forks-first (calls, err e) f later h = (h, [], sym (append-nil calls))
  Forks-first (calls, panicked) f later h = (h, [], sym (append-nil calls))

  module _ (kernel : InitKernel cpus) (opts : JailOptions) where
    close_one_range-quiet :
        (text : String) (first : ℕ) (last : Option ℕ)
        → forks (close_one_range cpus kernel text first last).0 ≡ false
    unfolding close_one_range
    close_one_range-quiet text first last = refl

    close_ranges-quiet : forks (close_ranges cpus kernel).0 ≡ false
    unfolding close_ranges close_one_range
    close_ranges-quiet = elim (Bool-cases (ltb 3 (kernel.socket - 1))) [
      | inl gap ↦ rw gap (
          >>-quiet (close_one_range cpus kernel _ 3 _) (close_one_range cpus kernel _ _ _) refl
            refl)
      | inr none_between ↦ rw none_between refl
    ]

    pub take_ids-quiet : forks (take_ids cpus kernel).0 ≡ false
    unfolding take_ids
    take_ids-quiet =
        >>-quiet
          (context "setresuid"
            (call (setresuid kernel.uid kernel.uid kernel.uid) (attempt kernel.uids_set)))
          _ refl refl

    sandbox-quiet : forks (sandbox cpus kernel opts).0 ≡ false
    unfolding sandbox
    sandbox-quiet =
        >>-quiet
          (context "setup net namespace"
            (part cpus namespace_call (setup_net_namespace kernel.namespaces)))
          _ (part-quiet "" namespace_call (setup_net_namespace kernel.namespaces) (λ c. refl))
          (>>-quiet
            (context "setup mount namespace"
              (part cpus namespace_call (setup_mount_namespace kernel.namespaces opts)))
            _
            (part-quiet "" namespace_call (setup_mount_namespace kernel.namespaces opts)
              (λ c. refl))
            (>>-quiet
              (context "drop privileges"
                (part cpus privilege_call (drop_privileges kernel.privileges)))
              _ (part-quiet "" privilege_call (drop_privileges kernel.privileges) (λ c. refl))
              (part-quiet "" privilege_call (set_no_new_privs kernel.privileges) (λ c. refl))))

    -- With a sandbox, the set-up is that of the sandbox, and descriptors are closed.
    pub set_up-sandboxed :
        opts.disable_sandboxing ≡ false → set_up cpus kernel opts ≡ sandbox cpus kernel opts
    unfolding set_up
    set_up-sandboxed = if_not-false opts.disable_sandboxing _ _

    pub close_inherited-sandboxed :
        opts.disable_sandboxing ≡ false
        → close_inherited cpus kernel opts.disable_sandboxing ≡ close_ranges cpus kernel
    unfolding close_inherited
    close_inherited-sandboxed = if_not-false opts.disable_sandboxing _ _

    pub set_up-quiet : opts.disable_sandboxing ≡ false → forks (set_up cpus kernel opts).0 ≡ false
    set_up-quiet sandboxed = ap (λ m. forks m.0) (set_up-sandboxed sandboxed) ∙ sandbox-quiet

    pub close_inherited-quiet :
        opts.disable_sandboxing ≡ false
        → forks (close_inherited cpus kernel opts.disable_sandboxing).0 ≡ false
    close_inherited-quiet sandboxed =
        ap (λ m. forks m.0) (close_inherited-sandboxed sandboxed) ∙ close_ranges-quiet
