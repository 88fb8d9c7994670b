-- ===== src/Init/FirstCpu.antt =====
-- The processor that `set_cpu_affinity` of src/jail/child_init.rs leaves.
use eval_python.Prelude.{
  ℕ, zero, suc, ◌+◌, ◌==◌, ◌<◌, ◌≤◌, ◌≡◌, ◌∙◌, arith, true, false, Bool-cases, List, [], ◌∷◌, done,
  ok, inl, inr,
}
use eval_python.Init.Affinity.{
  CpuSets, AffinityCall, sched_getaffinity, sched_setaffinity, AffinityKernel, first_cpu,
  set_cpu_affinity,
}

module _ (cpus : CpuSets) where
  open cpus use {
    CpuSet, count, empty, contains, inserted, is_set_lem, set_lem, contains-inserted,
    contains-empty, equal_lem,
  }

  -- the mask in force after some calls, all of which succeed
  abbrev pub in_force : CpuSet → List (AffinityCall cpus) → CpuSet
  in_force s [] = s
  in_force s (sched_getaffinity ∷ calls) = in_force s calls
  in_force s (sched_setaffinity t ∷ calls) = in_force t calls

  -- the set has this processor and none below it
  abbrev pub IsFirst : ℕ → CpuSet → Type 0
  IsFirst first s =
      (first < count) × (contains s first ≡ true) × ((i : ℕ) → i < first → contains s i ≡ false)

  first_cpu_lem :
      (s t : CpuSet) (first i rounds : ℕ)
      → IsFirst first s
      → i ≤ first
      → i + rounds ≡ count
      → first_cpu cpus s t i rounds ≡ ok (inserted t first)
  unfolding first_cpu
  first_cpu_lem s t first i zero (small, has, none_before) below total = absurd (omega arith)
  first_cpu_lem s t first i (suc rounds) (small, has, none_before) below total =
      elim (Bool-cases (i == first)) [
        | inl here ↦
            let e : i ≡ first = ground arith in
            rw (e, is_set_lem s first small, has, set_lem t first small)
        | inr there ↦
            let more : i < first = ground arith in
            rw (is_set_lem s i (omega arith), none_before i more)
              (first_cpu_lem s t first (suc i) rounds (small, has, none_before) more (omega arith))
      ]

  single : (first j : ℕ) → first < count → contains (inserted empty first) j ≡ (first == j)
  single first j small = contains-inserted empty first j small ∙ ground (arith, contains-empty j)

  -- If `set_cpu_affinity` ends well, then from then on the process may run on one processor, the first
  -- one of its mask, and on no other; the mask has a processor.
  pub set_cpu_affinity-single :
      (kernel : AffinityKernel cpus) (s : CpuSet) (first j : ℕ)
      → kernel.affinity ≡ done s
      → IsFirst first s
      → (set_cpu_affinity cpus kernel).1 ≡ ok tt
      → j < count
      → contains (in_force s (set_cpu_affinity cpus kernel).0) j ≡ (first == j)
  unfolding set_cpu_affinity
  set_cpu_affinity-single kernel s first j asked is_first h small =
      let found = first_cpu_lem s empty first 0 count is_first (omega arith) (omega arith) in
      elim (Bool-cases (cpus.equal s (inserted empty first))) [
        | inl same ↦
            rw (asked, found, same)
              (equal_lem s (inserted empty first) j same small ∙ single first j is_first.0)
        | inr other ↦ rw (asked, found, other) (single first j is_first.0)
      ]
