-- ===== src/Init/Affinity.antt =====
-- `set_cpu_affinity` of src/jail/child_init.rs.
use eval_python.Prelude.{
  ℕ, zero, suc, ◌==◌, ◌<◌, ◌≡◌, Bool, true, false, ◌||◌, not, [], ◌∷◌, Outcome, Io, done, attempt,
  with_context, format, display, if◌then◌else◌, and_then, ok,
}
use eval_python.Prelude.Traced.{Traced, ◌>>=◌, pure, call, lift, context}

-- nix's `CpuSet`: a set of the numbers below `count`. `contains` is not an operation of it; the laws
-- say what the operations do by it.
pub record CpuSets : Type 1 where
  pub CpuSet : Type 0
  pub count : ℕ
  pub empty : CpuSet
  pub is_set : CpuSet → ℕ → Io Bool
  pub set : CpuSet → ℕ → Io CpuSet
  pub equal : CpuSet → CpuSet → Bool
  pub contains : CpuSet → ℕ → Bool
  pub is_set_lem : (s : CpuSet) (i : ℕ) → i < count → is_set s i ≡ done (contains s i)
  pub inserted : CpuSet → ℕ → CpuSet
  pub set_lem : (s : CpuSet) (i : ℕ) → i < count → set s i ≡ done (inserted s i)
  pub contains-inserted :
      (s : CpuSet) (i j : ℕ) → i < count → contains (inserted s i) j ≡ (i == j || contains s j)
  pub contains-empty : (j : ℕ) → contains empty j ≡ false
  pub equal_lem :
      (s t : CpuSet) (j : ℕ) → equal s t ≡ true → j < count → contains s j ≡ contains t j

module _ (cpus : CpuSets) where
  open cpus use {CpuSet, count, empty, is_set, set, equal}

  pub data AffinityCall : Type 0 where
    sched_getaffinity : AffinityCall
    sched_setaffinity : CpuSet → AffinityCall

  pub record AffinityKernel : Type 0 where
    pub affinity : Io CpuSet
    pub affinity_set : CpuSet → Io (Unit {0})

  -- `for i in i..(i + rounds)`, with the set that is built
  unfoldable pub first_cpu : CpuSet → CpuSet → ℕ → ℕ → Outcome CpuSet
  first_cpu cpu_set new_cpu_set i zero = ok new_cpu_set
  first_cpu cpu_set new_cpu_set i (suc rounds) =
      let rest = first_cpu cpu_set new_cpu_set (suc i) rounds in
      and_then
        (with_context (format ("cpu_set.is_set(" ∷ display i ∷ ")" ∷ []))
          (attempt (is_set cpu_set i)))
        λ present.
          if not present
          then rest
          else with_context (format ("cpu_set.set(" ∷ display i ∷ ")" ∷ []))
              (attempt (set new_cpu_set i))

  unfoldable pub set_cpu_affinity : AffinityKernel → Traced AffinityCall (Unit {0})
  unfolding first_cpu
  set_cpu_affinity kernel =
      context "sched_getaffinity" (call sched_getaffinity (attempt kernel.affinity)) >>= λ cpu_set.
      lift (first_cpu cpu_set empty 0 count) >>= λ new_cpu_set.
      if not (equal cpu_set new_cpu_set)
      then context "sched_setaffinity"
          (call (sched_setaffinity new_cpu_set) (attempt (kernel.affinity_set new_cpu_set)))
      else pure tt
