-- ===== src/Cgroups.antt =====
-- src/jail/cgroups.rs: the directory of a control group.
use mathlib.Core.List.{reverse}
use Prim.Native.String.{◌++◌ as str_append}
use eval_python.Prelude.{
  ℕ, zero, suc, ◌/◌, ◌%◌, ◌-◌, ltb, ◌==◌, Bool, String, List, [], ◌∷◌, Outcome, Io, attempt, bail,
  format, display, display_int, ℤ, digit, str_eq, join, is_absolute, split, spell, ◌||◌,
  if◌then◌else◌,
}
use eval_python.Prelude.Traced.{Traced, ◌>>=◌, ◌>>◌, pure, call, lift, context}
pub mod Search

pub record CGroup : Type 0 where
  pub path : String
  pub v2 : Bool

pub data CgroupCall : Type 0 where
  create_dir : String → CgroupCall
  write_file : String → String → CgroupCall
  remove_dir : String → CgroupCall

-- what create_dir says: done, `AlreadyExists`, or another error with its text
pub data Created : Type 0 where
  made taken : Created
  refused : String → Created

-- The state of the file system for the paths that are tried, and the numbers that are drawn, each
-- below 2^64. `debug` is `{:?}` of a path.
pub record CgroupKernel : Type 0 where
  pub exists : String → Bool
  pub root_created : String → Io (Unit {0})
  pub created : String → Created
  pub written : String → String → Io (Unit {0})
  pub drawn : ℕ → ℕ
  pub debug : String → String

hex_letter : ℕ → String
hex_letter zero = "a"
hex_letter (suc zero) = "b"
hex_letter (suc (suc zero)) = "c"
hex_letter (suc (suc (suc zero))) = "d"
hex_letter (suc (suc (suc (suc zero)))) = "e"
hex_letter (suc (suc (suc (suc (suc n))))) = "f"

hex_digit : ℕ → String
hex_digit n = if ltb n 10 then digit n else hex_letter (n - 10)

-- so many hexadecimal digits, as `{:016x}` has them for 16 and a number below 2^64
unfoldable pub hex : ℕ → ℕ → String
unfolding hex_digit hex_letter
hex zero n = ""
hex (suc k) n = str_append (hex k (n / 16)) (hex_digit (n % 16))

skip_empty : List String → List String
skip_empty [] = []
skip_empty (p ∷ pieces) =
    let rest = skip_empty pieces in if str_eq p "" || str_eq p "." then rest else p ∷ pieces

-- `strip_prefix("/")` of an absolute path: what is left without the separators and the dots at its
-- ends
unfoldable pub strip_root : String → String
unfolding skip_empty
strip_root path = spell (reverse (skip_empty (reverse (skip_empty (split path b'/')))))

unfoldable pub cgroup_root : String → String → String
unfolding strip_root
cgroup_root subsystem cgroup_path =
    join (join "/sys/fs/cgroup" subsystem)
      (if is_absolute cgroup_path then strip_root cgroup_path else cgroup_path)

unfoldable pub candidate : String → ℕ → String
unfolding hex
candidate root draw = join root (format ("omegajail_" ∷ hex 16 draw ∷ []))

-- the numbers of so many rounds
abbrev pub draws : (ℕ → ℕ) → ℕ → ℕ → List ℕ
draws drawn zero i = []
draws drawn (suc rounds) i = drawn i ∷ draws drawn rounds (suc i)

module _ (kernel : CgroupKernel) where
  -- one round, and the rounds after it
  unfoldable pub after_create :
      String → Bool → Traced CgroupCall CGroup → Created → Traced CgroupCall CGroup
  after_create dir v2 rest made = pure (record { path = dir; v2 = v2 })
  after_create dir v2 rest taken = rest
  after_create dir v2 rest (refused text) =
      lift (bail (format ("create_dir(" ∷ kernel.debug dir ∷ "): " ∷ text ∷ [])))

  -- the loop, on the numbers of its rounds
  unfoldable pub search : String → Bool → List ℕ → Traced CgroupCall CGroup
  unfolding after_create candidate
  search root v2 [] = lift (
      bail (format ("could not create a cgroup in " ∷ kernel.debug root ∷ " after 16 rounds" ∷ [])))
  search root v2 (draw ∷ rest) =
      let dir = candidate root draw in
      let (calls, r) = after_create dir v2 (search root v2 rest) (kernel.created dir) in
      (create_dir dir ∷ calls, r)

  unfoldable pub enable_memory : String → Bool → Traced CgroupCall (Unit {0})
  enable_memory root v2 =
      let subtree_control = join root "cgroup.subtree_control" in
      if v2
      then context (format ("write +memory to " ∷ kernel.debug subtree_control ∷ [])) (
          call (write_file subtree_control "+memory\n")
            (attempt (kernel.written subtree_control "+memory\n")))
      else pure tt

  unfoldable pub create_root : String → Bool → Traced CgroupCall (Unit {0})
  unfolding enable_memory
  create_root root v2 =
      if kernel.exists root
      then pure tt
      else (context (format ("create_dir(" ∷ kernel.debug root ∷ ")" ∷ []))
            (call (create_dir root) (attempt (kernel.root_created root)))
          >> enable_memory root v2)

  -- `CGroup::new`
  unfoldable pub new_cgroup : String → String → Traced CgroupCall CGroup
  unfolding cgroup_root create_root search
  new_cgroup subsystem cgroup_path =
      let root = cgroup_root subsystem cgroup_path in
      let v2 = str_eq subsystem "" in
      create_root root v2 >> search root v2 (draws kernel.drawn 16 0)

  unfoldable pub add_pid : CGroup → ℤ → Traced CgroupCall (Unit {0})
  add_pid cgroup pid =
      let procs_path = join cgroup.path "cgroup.procs" in
      context (format ("write " ∷ display_int pid ∷ " to " ∷ kernel.debug procs_path ∷ [])) (
        call (write_file procs_path (display_int pid))
          (attempt (kernel.written procs_path (display_int pid))))

  unfoldable pub set_memory_limit : CGroup → ℕ → Traced CgroupCall (Unit {0})
  set_memory_limit cgroup limit =
      let memory_max_path =
        join cgroup.path (if cgroup.v2 then "memory.max" else "memory.limit_in_bytes") in
      context (format ("write " ∷ display limit ∷ " to " ∷ kernel.debug memory_max_path ∷ [])) (
        call (write_file memory_max_path (display limit))
          (attempt (kernel.written memory_max_path (display limit))))

-- The removal when a cgroup is dropped; an error is logged.
unfoldable pub drop : CGroup → List CgroupCall
drop cgroup = remove_dir cgroup.path ∷ []
