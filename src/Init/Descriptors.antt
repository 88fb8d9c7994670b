-- ===== src/Init/Descriptors.antt =====
-- What the redirections of src/jail/child_init.rs do to the table of descriptors.
use eval_python.Prelude.{
  ℕ, ◌<◌, ◌≤◌, ◌==◌, ◌≡◌, refl, ap, ◌∙◌, arith, true, false, Bool-cases, String, Option, none, some,
  List, [], ◌∷◌, ◌++◌, ok, done, failed, attempt, with_context-eq-ok, attempt-eq-ok, if◌then◌else◌,
  inl, inr,
}
use eval_python.Prelude.Traced.{Traced, ◌>>◌, call, context, >>=-eq-ok}
use eval_python.Options.Types.{Stdio, mounted, dev_null, file_descriptor}
use eval_python.Init.Streams.{
  Mode, StreamCall, chdir, open_file, dup2, close, StreamKernel, dup_and_drop, reopen, move,
}

-- What a descriptor is connected to: a file that was opened by its path, or one from before.
pub data Description : Type 0 where
  opened : String → Mode → Description
  inherited : ℕ → Description

abbrev pub Table : Type 0
Table = ℕ → Option Description

abbrev pub set : ℕ → Option Description → Table → Table
set fd d t n = if n == fd then d else t n

-- the effect of a call that succeeds, as POSIX has it
abbrev pub effect : StreamCall → Table → Table
effect (chdir path) t = t
effect (open_file path mode (done fd)) t = set fd (some (opened path mode)) t
effect (open_file path mode (failed why)) t = t
effect (dup2 source target) t = set target (t source) t
effect (close fd) t = set fd none t

abbrev pub after : List StreamCall → Table → Table
after [] t = t
after (c ∷ calls) t = after calls (effect c t)

after-append : (xs ys : List StreamCall) (t : Table) → after (xs ++ ys) t ≡ after ys (after xs t)
after-append [] ys t = refl
after-append (c ∷ xs) ys t = after-append xs ys (effect c t)

-- A standard descriptor that is set, or none.
abbrev pub Change : Type 0
Change = Option (ℕ × Description)

abbrev pub changed : Change → Table → Table
changed none t = t
changed (some (fd, d)) t = set fd (some d) t

-- On the three standard descriptors, the steps do just this change.
abbrev pub Changes : Change → Traced StreamCall (Unit {0}) → Type 0
Changes change m = m.1 ≡ ok tt → (t : Table) (n : ℕ) → n < 3 → after m.0 t n ≡ changed change t n

changed-cong :
    (change : Change) (t u : Table) (n : ℕ) → t n ≡ u n → changed change t n ≡ changed change u n
changed-cong none t u n h = h
changed-cong (some (fd, d)) t u n h = elim (Bool-cases (n == fd)) [ inl e ↦ rw e | inr e ↦ rw e h ]

-- The steps make this of three standard descriptors.
abbrev pub MakesTable : (Table → Table) → Traced StreamCall (Unit {0}) → Type 0
MakesTable g m =
    m.1 ≡ ok tt
    → (t u : Table) (n : ℕ) → n < 3
    → ((i : ℕ) → i < 3 → t i ≡ u i)
    → after m.0 t n ≡ g u n

pub Changes-MakesTable :
    (change : Change) (m : Traced StreamCall (Unit {0}))
    → Changes change m
    → MakesTable (changed change) m
Changes-MakesTable change m does h t u n small same =
    does h t n small ∙ changed-cong change t u n (same n small)

pub >>-MakesTable :
    (first : Change) (g : Table → Table) (m k : Traced StreamCall (Unit {0}))
    → Changes first m
    → MakesTable g k
    → MakesTable (λ u. g (changed first u)) (m >> k)
>>-MakesTable first g m k does next h t u n small same =
    let (a, e, e', trace) = >>=-eq-ok m (λ _. k) h in
    ap (λ calls. after calls t n) trace
    ∙ ap (λ v. v n) (after-append m.0 k.0 t)
    ∙ next e' (after m.0 t) (changed first u) n small
        λ i i_small. does e t i i_small ∙ changed-cong first t u i (same i i_small)

-- The descriptor of a stream, if it is one, is its own.
abbrev pub IsOwn : ℕ → Stdio → Type 0
IsOwn fd (mounted path) = Unit
IsOwn fd (dev_null path) = Unit
IsOwn fd (file_descriptor source) = source ≡ fd

-- The change that a stream takes, where all but a descriptor open one file.
abbrev pub reopened : ℕ → Description → Stdio → Change
reopened fd d (mounted path) = some (fd, d)
reopened fd d (dev_null path) = some (fd, d)
reopened fd d (file_descriptor source) = none

reopened_lem :
    (path : String) (mode : Mode) (fd target : ℕ) (t : Table) (n : ℕ)
    → 3 ≤ fd
    → target < 3
    → n < 3
    → after (open_file path mode (done fd) ∷ dup2 fd target ∷ close fd ∷ []) t n
      ≡ set target (some (opened path mode)) t n
reopened_lem path mode fd target t n above standard small =
    let other : (n == fd) ≡ false = ground arith in
    let self : (fd == fd) ≡ true = ground arith in rw (other, self)

module _ (kernel : StreamKernel)
    (above : (path : String) (mode : Mode) (fd : ℕ)
      → kernel.opened path mode ≡ done fd
      → 3 ≤ fd) where
  pub reopen-Changes :
      (open_name name path : String) (mode : Mode) (target : ℕ)
      → target < 3
      → Changes (some (target, opened path mode)) (reopen kernel open_name name path mode target)
  unfolding reopen dup_and_drop
  reopen-Changes open_name name path mode target standard h t n small =
      let (fd, e, _, trace) =
        >>=-eq-ok
          (context open_name (
            call (open_file path mode (kernel.opened path mode))
              (attempt (kernel.opened path mode))))
          (dup_and_drop kernel name target) h in
      let replied = attempt-eq-ok (kernel.opened path mode) (with_context-eq-ok open_name _ e) in
      ap (λ calls. after calls t n) trace
      ∙ ap (λ reply. after (open_file path mode reply ∷ dup2 fd target ∷ close fd ∷ []) t n) replied
      ∙ reopened_lem path mode fd target t n (above path mode fd replied) standard small

  pub move-none :
      (name close_name : String) (fd : ℕ) → Changes none (move kernel name close_name fd fd)
  unfolding move
  move-none name close_name fd h t n small = let same : (fd == fd) ≡ true = ground arith in rw same
