-- ===== src/Options/Jobs.antt =====
-- What a jail is for, and the tables of the memory allowances and of the filters, which hold the
-- choices of `JailOptions::new` in src/jail/options.rs by language.
use eval_python.Prelude.{
  ℕ, String, Bool, true, false, Option, none, some, List, [], ◌∷◌, ◌≡◌, ◌⊎◌, str_eq, format,
  is_absolute, ◌||◌,
}
use eval_python.Args.{Language}
use eval_python.Options.Types.{
  Draft, default_extra_memory_size_in_bytes, ruby_extra_memory_size_in_bytes,
  go_extra_memory_size_in_bytes, node_extra_memory_size_in_bytes, java_vm_memory_size_in_bytes,
  clr_vm_memory_size_in_bytes, ruby_vm_memory_size_in_bytes, node_vm_memory_size_in_bytes,
}
use eval_python.Options.Run.{u64_max}

pub data Job : Type 0 where
  compiles : Language → Job
  runs : Language → Job

-- `--compile` comes before `--run`.
unfoldable pub job_of : Option Language → Option Language → Option Job
job_of (some lang) run = some (compiles lang)
job_of none (some lang) = some (runs lang)
job_of none none = none

-- what is added to `--memory-limit`
abbrev pub extra_memory : Job → ℕ
extra_memory (compiles Language.javascript) = node_extra_memory_size_in_bytes
extra_memory (compiles Language.karel_java) = node_extra_memory_size_in_bytes
extra_memory (compiles Language.karel_pascal) = node_extra_memory_size_in_bytes
extra_memory (runs Language.java) = u64_max
extra_memory (runs Language.kotlin) = u64_max
extra_memory (runs Language.ruby) = ruby_extra_memory_size_in_bytes
extra_memory (runs Language.go) = go_extra_memory_size_in_bytes
extra_memory (runs Language.javascript) = node_extra_memory_size_in_bytes
extra_memory (runs Language.csharp) = clr_vm_memory_size_in_bytes
extra_memory _ = default_extra_memory_size_in_bytes

-- what is taken off the memory that is reported
abbrev pub vm_memory : Job → ℕ
vm_memory (compiles Language.javascript) = node_vm_memory_size_in_bytes
vm_memory (compiles Language.karel_java) = node_vm_memory_size_in_bytes
vm_memory (compiles Language.karel_pascal) = node_vm_memory_size_in_bytes
vm_memory (runs Language.java) = java_vm_memory_size_in_bytes
vm_memory (runs Language.kotlin) = java_vm_memory_size_in_bytes
vm_memory (runs Language.ruby) = ruby_vm_memory_size_in_bytes
vm_memory (runs Language.javascript) = node_vm_memory_size_in_bytes
vm_memory (runs Language.csharp) = clr_vm_memory_size_in_bytes
vm_memory _ = 0

-- whether the limit is set through the cgroup
abbrev pub uses_cgroups : Job → Bool
uses_cgroups (runs Language.csharp) = true
uses_cgroups _ = false

-- the name of the filter
abbrev pub policy_of : Job → String
policy_of (compiles Language.c11_clang) = "clang"
policy_of (compiles Language.cpp03_clang) = "clang"
policy_of (compiles Language.cpp11_clang) = "clang"
policy_of (compiles Language.cpp17_clang) = "clang"
policy_of (compiles Language.cpp20_clang) = "clang"
policy_of (compiles Language.pascal) = "fpc"
policy_of (compiles Language.lua) = "lua"
policy_of (compiles Language.haskell) = "ghc"
policy_of (compiles Language.java) = "javac"
policy_of (compiles Language.kotlin) = "javac"
policy_of (compiles Language.python) = "pyc"
policy_of (compiles Language.python2) = "pyc"
policy_of (compiles Language.python3) = "pyc"
policy_of (compiles Language.ruby) = "ruby"
policy_of (compiles Language.rust) = "rustc"
policy_of (compiles Language.go) = "go-build"
policy_of (compiles Language.javascript) = "js"
policy_of (compiles Language.karel_java) = "js"
policy_of (compiles Language.karel_pascal) = "js"
policy_of (compiles Language.csharp) = "csc"
policy_of (compiles _) = "gcc"
policy_of (runs Language.pascal) = "pas"
policy_of (runs Language.lua) = "lua"
policy_of (runs Language.haskell) = "hs"
policy_of (runs Language.java) = "java"
policy_of (runs Language.kotlin) = "java"
policy_of (runs Language.python) = "py"
policy_of (runs Language.python2) = "py"
policy_of (runs Language.python3) = "py"
policy_of (runs Language.ruby) = "ruby"
policy_of (runs Language.rust) = "rs"
policy_of (runs Language.go) = "go"
policy_of (runs Language.javascript) = "js"
policy_of (runs Language.karel_java) = "karel"
policy_of (runs Language.karel_pascal) = "karel"
policy_of (runs Language.csharp) = "cs"
policy_of (runs _) = "cpp"

-- the filters of the folder policies
abbrev pub policies : List String
policies =
    "clang" ∷ "cpp-asan" ∷ "cpp" ∷ "cs" ∷ "csc" ∷ "fpc" ∷ "gcc" ∷ "ghc" ∷ "go-build" ∷ "go" ∷ "hs"
    ∷ "java" ∷ "javac" ∷ "js" ∷ "karel" ∷ "lua" ∷ "pas" ∷ "py" ∷ "pyc" ∷ "rs" ∷ "ruby" ∷ "rustc"
    ∷ []

abbrev pub contains : List String → String → Bool
contains [] name = false
contains (p ∷ ps) name = str_eq p name || contains ps name

-- The command line begins with a program of the file system of the jail, or with the program to run.
abbrev pub BeginsWithProgram : String → List String → Type 0
BeginsWithProgram run_target words =
    (program : String) × (rest : List String) × (words ≡ program ∷ rest)
    × ((is_absolute program ≡ true) ⊎ (program ≡ format ("./" ∷ run_target ∷ [])))

pub record Chosen (run_target : String) (job : Job) (d : Draft) : Type 0 where
  pub is_extra : d.extra_memory_size_in_bytes ≡ extra_memory job
  pub is_vm : d.vm_memory_size_in_bytes ≡ vm_memory job
  pub is_cgroups : d.use_cgroups_for_memory_limit ≡ uses_cgroups job
  pub is_policy : d.seccomp_profile_name ≡ policy_of job
  pub is_shipped : contains policies d.seccomp_profile_name ≡ true
  pub has_program : BeginsWithProgram run_target d.execve_args
