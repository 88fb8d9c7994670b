-- ===== src/Options/Limits.antt =====
-- The limits, the filter and the command line that `JailOptions::new` chooses.
use eval_python.Prelude.{
  done, join, format, ℕ, ◌+◌, ◌≤◌, ◌<◌, ◌^◌, String, true, false, Option, none, some, List, ◌++◌,
  ◌≡◌, refl, sym, ap, ◌∙◌, arith, All, ok, from_millis, ltb, if◌then◌else◌, [], ◌∷◌, ok-injective,
  >>=-eq-ok, Bool-cases, ◌⊎◌, inl, inr,
}
use eval_python.Args.{Args}
use eval_python.Options.Types.{JailOptions, Host}
use eval_python.Options.Run.{u64_max}
use eval_python.Options.New.{time_limits, total_memory_limit, has_nul, cstring, cstrings, new}
use eval_python.Options.Built.{new-Built}
use eval_python.Options.Jobs.{
  Job, job_of, extra_memory, vm_memory, uses_cgroups, policies, contains, policy_of,
  BeginsWithProgram,
}
use eval_python.Options.Choices.{choose_command-Chosen}

-- the requested limit with an allowance, none if the sum does not stay below the largest number
abbrev pub allowed : Option ℕ → ℕ → Option ℕ
allowed none extra = none
allowed (some m) extra = if ltb (m + extra) u64_max then some (m + extra) else none

total_memory_limit-allowed :
    (limit : Option ℕ) (extra : ℕ) → total_memory_limit limit extra ≡ allowed limit extra
unfolding total_memory_limit
total_memory_limit-allowed none extra = refl
total_memory_limit-allowed (some m) extra = ground arith

-- For a jail that compiles or runs a program, the memory limit is the requested one with the allowance
-- of the language; there is none if none was requested, and none if the sum reaches the largest
-- 64-bit number.
pub new-memory_limit :
    (debug : String → String) (host : Host) (args : Args) (o : JailOptions) (job : Job)
    → new debug host args ≡ ok o
    → job_of args.compile args.run ≡ some job
    → o.memory_limit ≡ allowed args.memory_limit (extra_memory job)
new-memory_limit debug host args o job h e =
    let b = new-Built debug host args h in
    let c = choose_command-Chosen _ _ args job e b.is_draft in
    rw (b.is_memory_limit, c.is_extra)
      (total_memory_limit-allowed args.memory_limit (extra_memory job))

-- The two filters of a jail that compiles or runs a program hold what the host reads from the files of
-- its language in policies and policies/sigsys, below the canonical path of `--root`, and policies has
-- a filter of this name. The jail sets its memory limit through the cgroup exactly if it runs C#, and
-- reports memory less the share of the virtual machine of its language.
pub new-filter :
    (debug : String → String) (host : Host) (args : Args) (o : JailOptions) (job : Job)
    → new debug host args ≡ ok o
    → job_of args.compile args.run ≡ some job
    → (root : String) × (host.canonicalize args.root ≡ done root)
      × (host.read_file (join root (format ("policies/" ∷ policy_of job ∷ ".bpf" ∷ [])))
          ≡ done o.seccomp_bpf_filter_notify_contents)
      × (host.read_file (join root (format ("policies/sigsys/" ∷ policy_of job ∷ ".bpf" ∷ [])))
          ≡ done o.seccomp_bpf_filter_sigsys_contents)
      × (contains policies (policy_of job) ≡ true)
      × (o.use_cgroups_for_memory_limit ≡ uses_cgroups job)
      × (o.vm_memory_size_in_bytes ≡ vm_memory job)
new-filter debug host args o job h e =
    let b = new-Built debug host args h in
    let c = choose_command-Chosen _ _ args job e b.is_draft in
    let name : o.seccomp_profile_name ≡ policy_of job = b.is_profile ∙ c.is_policy in
    let file = λ (folder : String) (name : String).
      host.read_file (join b.root (format (folder ∷ name ∷ ".bpf" ∷ []))) in
    (
      b.root,
      b.is_root,
      ap (file "policies/") (sym name) ∙ b.is_notify,
      ap (file "policies/sigsys/") (sym name) ∙ b.is_sigsys,
      ap (contains policies) (sym c.is_policy) ∙ c.is_shipped,
      b.is_accounting.0 ∙ c.is_cgroups,
      b.is_accounting.1 ∙ c.is_vm,
    )

pub cstrings_lem :
    (words : List String) {cs : List String}
    → cstrings words ≡ ok cs
    → (cs ≡ words) × All (λ s. has_nul s ≡ false) words
unfolding cstrings cstring
cstrings_lem [] h = (sym (ok-injective h), tt)
cstrings_lem (s ∷ rest) {cs} h = elim (Bool-cases (has_nul s)) [
  | inl nul ↦ cc (rw nul at h)
  | inr plain ↦
      let (tail, tail_ok, whole) =
        >>=-eq-ok (cstrings rest) (λ tail. ok (s ∷ tail)) (rw plain at h) in
      let (same, all_plain) = cstrings_lem rest tail_ok in
      (sym (ok-injective whole) ∙ ap (◌∷◌ s) same, (plain, all_plain))
]

-- The command line of a jail that compiles or runs a program begins with an absolute path or with the
-- program to run, ends with the additional arguments as they were given, and no argument holds a NUL
-- character.
pub new-args :
    (debug : String → String) (host : Host) (args : Args) (o : JailOptions) (job : Job)
    → new debug host args ≡ ok o
    → job_of args.compile args.run ≡ some job
    → (words : List String) × BeginsWithProgram args.run_target words
      × (o.args ≡ words ++ args.extra_args)
      × All (λ s. has_nul s ≡ false) o.args
new-args debug host args o job h e =
    let b = new-Built debug host args h in
    let c = choose_command-Chosen _ _ args job e b.is_draft in
    let (same, plain) = cstrings_lem (b.draft.execve_args ++ args.extra_args) b.is_args in
    (b.draft.execve_args, c.has_program, same, rw same plain)

-- With a time limit, the wall time limit is the sum of it and the extra time where that is below 2^64
-- milliseconds; where the sum passes the range of 64-bit numbers, it wraps, and the wall time limit is
-- below the time limit.
pub new-times :
    (debug : String → String) (host : Host) (args : Args) (o : JailOptions) (t : ℕ)
    → new debug host args ≡ ok o
    → args.time_limit ≡ some t
    → t < 2 ^ 64
    → args.extra_wall_time_limit < 2 ^ 64
    → (o.time_limit ≡ some (from_millis t))
      × (((t + args.extra_wall_time_limit < 2 ^ 64)
            × (o.wall_time_limit ≡ from_millis t + from_millis args.extra_wall_time_limit))
          ⊎ ((2 ^ 64 ≤ t + args.extra_wall_time_limit) × (o.wall_time_limit < from_millis t)))
unfolding time_limits
new-times debug host args o t h e small small' =
    let b = new-Built debug host args h in ground (arith, b.is_times)
