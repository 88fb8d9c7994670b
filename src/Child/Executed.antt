-- ===== src/Child/Executed.antt =====
-- What src/jail/child.rs has done before it executes the program.
use eval_python.Prelude.{
  ℕ, ◌+◌, ◌≡◌, refl, Bool, true, false, Option, none, some, List, [], ◌∷◌, ◌++◌, done, ok, err,
  panicked, String, if◌then◌else◌, with_context-eq-ok, attempt-eq-ok, ◌||◌,
}
use eval_python.Prelude.Traced.{Traced, ◌>>◌, Makes, >>-Makes}
use eval_python.Options.Types.{JailOptions}
use eval_python.Child.{
  Resource, stack, core, cpu, fsize, address_space, ChildCall, setrlimit, empty_mask, unblock_all,
  default_action, install_listener, install_filter, send_event, send_fd, read_pipe, execve,
  ChildKernel, soft_limit, limit, limit_cpu, limit_both, limit_address_space, setup_process_limits,
}

-- one limit for a number that is there
abbrev pub both_limits : Resource → Option ℕ → List ChildCall
both_limits resource none = []
both_limits resource (some n) = setrlimit resource (some n) (some n) ∷ []

abbrev pub cpu_limits : Option ℕ → List ChildCall
cpu_limits none = []
cpu_limits (some time_limit) =
    setrlimit cpu (some (soft_limit time_limit)) (some (soft_limit time_limit + 1)) ∷ []

-- every limit that the options ask for
abbrev pub limit_calls : JailOptions → List ChildCall
limit_calls opts =
    setrlimit stack none none
    ∷ setrlimit core (some 0) (some 0)
    ∷ (cpu_limits opts.time_limit
        ++ (both_limits fsize opts.output_limit
            ++ (if opts.use_cgroups_for_memory_limit
                then []
                else both_limits address_space opts.memory_limit)))

abbrev pub executes : List ChildCall → Bool
executes [] = false
executes (execve program args env ∷ calls) = true
executes (setrlimit resource soft hard ∷ calls) = executes calls
executes (empty_mask ∷ calls) = executes calls
executes (unblock_all ∷ calls) = executes calls
executes (default_action signal ∷ calls) = executes calls
executes (install_listener filter ∷ calls) = executes calls
executes (install_filter filter ∷ calls) = executes calls
executes (send_event fd_available ∷ calls) = executes calls
executes (send_fd fd ∷ calls) = executes calls
executes (read_pipe ∷ calls) = executes calls

executes-append : (xs ys : List ChildCall) → executes (xs ++ ys) ≡ (executes xs || executes ys)
executes-append [] ys = refl
executes-append (execve program args env ∷ xs) ys = refl
executes-append (setrlimit resource soft hard ∷ xs) ys = executes-append xs ys
executes-append (empty_mask ∷ xs) ys = executes-append xs ys
executes-append (unblock_all ∷ xs) ys = executes-append xs ys
executes-append (default_action signal ∷ xs) ys = executes-append xs ys
executes-append (install_listener filter ∷ xs) ys = executes-append xs ys
executes-append (install_filter filter ∷ xs) ys = executes-append xs ys
executes-append (send_event fd_available ∷ xs) ys = executes-append xs ys
executes-append (send_fd fd ∷ xs) ys = executes-append xs ys
executes-append (read_pipe ∷ xs) ys = executes-append xs ys

-- A step that does not execute has ended well before the program is executed after it.
pub >>-executes :
    (m k : Traced ChildCall (Unit {0}))
    → executes m.0 ≡ false
    → executes (m >> k).0 ≡ true
    → (m.1 ≡ ok tt) × (executes k.0 ≡ true) × ((m >> k).0 ≡ m.0 ++ k.0)
>>-executes (calls, ok tt) k quiet h = (refl, rw (executes-append calls k.0, quiet) at h, refl)
>>-executes (calls, err e) k quiet h = cc
>>-executes (calls, panicked) k quiet h = cc

pub >>-quiet :
    (m k : Traced ChildCall (Unit {0}))
    → executes m.0 ≡ false
    → executes k.0 ≡ false
    → executes (m >> k).0 ≡ false
>>-quiet (calls, ok tt) k first next = rw (executes-append calls k.0, first, next)
>>-quiet (calls, err e) k first next = first
>>-quiet (calls, panicked) k first next = first

module _ (kernel : ChildKernel) where
  -- A limit that is asked for is set.
  abbrev pub IsApplied : ChildCall → Type 0
  IsApplied (setrlimit resource soft hard) = kernel.limit_set resource soft hard ≡ done tt
  IsApplied (execve program args env) = Unit
  IsApplied empty_mask = Unit
  IsApplied unblock_all = Unit
  IsApplied (default_action signal) = Unit
  IsApplied (install_listener filter) = Unit
  IsApplied (install_filter filter) = Unit
  IsApplied (send_event fd_available) = Unit
  IsApplied (send_fd fd) = Unit
  IsApplied read_pipe = Unit

  limit-Makes :
      (text : String) (resource : Resource) (soft hard : Option ℕ)
      → (limit kernel text resource soft hard).1 ≡ ok tt
      → Makes IsApplied (setrlimit resource soft hard ∷ []) (limit kernel text resource soft hard)
  unfolding limit
  limit-Makes text resource soft hard h =
      (refl, (attempt-eq-ok _ (with_context-eq-ok text _ h), tt))

  limit_cpu-Makes :
      (time_limit : Option ℕ)
      → (limit_cpu kernel time_limit).1 ≡ ok tt
      → Makes IsApplied (cpu_limits time_limit) (limit_cpu kernel time_limit)
  unfolding limit_cpu
  limit_cpu-Makes none h = (refl, tt)
  limit_cpu-Makes (some time_limit) h = limit-Makes _ cpu _ _ h

  limit_both-Makes :
      (name : String) (resource : Resource) (n : Option ℕ)
      → (limit_both kernel name resource n).1 ≡ ok tt
      → Makes IsApplied (both_limits resource n) (limit_both kernel name resource n)
  unfolding limit_both
  limit_both-Makes name resource none h = (refl, tt)
  limit_both-Makes name resource (some n) h = limit-Makes _ resource _ _ h

  limit_address_space-Makes :
      (use_cgroups : Bool) (n : Option ℕ)
      → (limit_address_space kernel use_cgroups n).1 ≡ ok tt
      → Makes IsApplied
          (if use_cgroups then [] else both_limits address_space n)
          (limit_address_space kernel use_cgroups n)
  unfolding limit_address_space
  limit_address_space-Makes true n h = (refl, tt)
  limit_address_space-Makes false n h = limit_both-Makes "RLIMIT_AS" address_space n h

  pub setup_process_limits-Makes :
      (opts : JailOptions)
      → (setup_process_limits kernel opts).1 ≡ ok tt
      → Makes IsApplied (limit_calls opts) (setup_process_limits kernel opts)
  unfolding setup_process_limits
  setup_process_limits-Makes opts =
      >>-Makes IsApplied (limit kernel _ stack none none) _ _ _ (limit-Makes _ stack none none) (
        >>-Makes IsApplied (limit kernel _ core _ _) _ _ _ (limit-Makes _ core (some 0) (some 0)) (
          >>-Makes IsApplied (limit_cpu kernel opts.time_limit) _ _ _
            (limit_cpu-Makes opts.time_limit)
            (>>-Makes IsApplied (limit_both kernel "RLIMIT_FSIZE" fsize opts.output_limit) _ _ _
              (limit_both-Makes "RLIMIT_FSIZE" fsize opts.output_limit)
              (limit_address_space-Makes opts.use_cgroups_for_memory_limit opts.memory_limit))))

  limit_cpu-quiet : (time_limit : Option ℕ) → executes (limit_cpu kernel time_limit).0 ≡ false
  unfolding limit_cpu limit
  limit_cpu-quiet none = refl
  limit_cpu-quiet (some time_limit) = refl

  limit_both-quiet :
      (name : String) (resource : Resource) (n : Option ℕ)
      → executes (limit_both kernel name resource n).0 ≡ false
  unfolding limit_both limit
  limit_both-quiet name resource none = refl
  limit_both-quiet name resource (some n) = refl

  limit_address_space-quiet :
      (use_cgroups : Bool) (n : Option ℕ)
      → executes (limit_address_space kernel use_cgroups n).0 ≡ false
  unfolding limit_address_space
  limit_address_space-quiet true n = refl
  limit_address_space-quiet false n = limit_both-quiet "RLIMIT_AS" address_space n

  pub setup_process_limits-quiet :
      (opts : JailOptions) → executes (setup_process_limits kernel opts).0 ≡ false
  unfolding setup_process_limits limit
  setup_process_limits-quiet opts = >>-quiet (limit kernel _ stack none none) _ refl (
      >>-quiet (limit kernel _ core _ _) _ refl (
        >>-quiet (limit_cpu kernel opts.time_limit) _ (limit_cpu-quiet opts.time_limit) (
          >>-quiet (limit_both kernel "RLIMIT_FSIZE" fsize opts.output_limit) _
            (limit_both-quiet "RLIMIT_FSIZE" fsize opts.output_limit)
            (limit_address_space-quiet opts.use_cgroups_for_memory_limit opts.memory_limit))))
