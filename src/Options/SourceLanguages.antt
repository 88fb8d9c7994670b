-- ===== src/Options/SourceLanguages.antt =====
-- The command line that `add_sources` writes, read the way gcc reads it: `-x LANG` holds for the files
-- behind it, up to the next one.
use text.Mathlib.Text.{starts_with}
use eval_python.Prelude.{
  String, Bool, true, false, List, [], ◌∷◌, ◌++◌, ◌≡◌, refl, sym, ap, ◌∙◌, inl, inr, arith,
  append_assoc, append-nil, map, All, Bool-cases, ends_with, if◌then◌else◌,
}
use eval_python.Options.Sources.{sources_loop, add_sources}

unfoldable pub is_flag : String → Bool
is_flag word = starts_with word "-x"

is_flag-cpp : is_flag "-xassembler-with-cpp" ≡ true
unfolding is_flag
is_flag-cpp = refl

is_flag-assembler : is_flag "-xassembler" ≡ true
unfolding is_flag
is_flag-assembler = refl

-- the files of a command line, each with the flag that is in force for it
pub read_inputs : String → List String → List (String × String)
read_inputs flag [] = []
read_inputs flag (word ∷ rest) =
    let behind_flag = read_inputs word rest in
    let behind_file = (word, flag) ∷ read_inputs flag rest in
    if is_flag word then behind_flag else behind_file

-- the language that a file is to be compiled in, by its name
pub expected : String → String → String × String
expected lang_flag s = (
  s,
  if ends_with s ".S"
      then "-xassembler-with-cpp"
      else if ends_with s ".s"
      then "-xassembler"
      else lang_flag,
)

-- what one source adds to the command line, and `needs_flag` behind it
words : String → Bool → String → List String
words lang_flag needs_flag s =
    if ends_with s ".S"
    then "-xassembler-with-cpp" ∷ s ∷ []
    else if ends_with s ".s"
    then "-xassembler" ∷ s ∷ []
    else if needs_flag
    then lang_flag ∷ s ∷ []
    else s ∷ []

is_assembly : String → Bool
is_assembly s = if ends_with s ".S" then true else ends_with s ".s"

module _ (lang_flag : String) where
  sources_loop-words :
      (b : Bool) (pre : List String) (s : String) (rest : List String)
      → sources_loop lang_flag b pre (s ∷ rest)
        ≡ sources_loop lang_flag (is_assembly s) (pre ++ words lang_flag b s) rest
  unfolding sources_loop words is_assembly
  sources_loop-words b pre s rest = ground (arith, append_assoc pre (lang_flag ∷ []) (s ∷ []))

  sources_loop-append :
      (b : Bool) (pre sources : List String)
      → sources_loop lang_flag b pre sources ≡ pre ++ sources_loop lang_flag b [] sources
  sources_loop-append b pre [] = unfold sources_loop in simp append-nil
  sources_loop-append b pre (s ∷ rest) =
      let tail = sources_loop lang_flag (is_assembly s) [] rest in
      sources_loop-words b pre s rest
      ∙ sources_loop-append (is_assembly s) (pre ++ words lang_flag b s) rest
      ∙ append_assoc pre (words lang_flag b s) tail
      ∙ ap (◌++◌ pre) (
          sym (
            sources_loop-words b [] s rest
            ∙ sources_loop-append (is_assembly s) (words lang_flag b s) rest))

  -- The command line so far stays in front.
  pub add_sources-append :
      (pre sources : List String)
      → add_sources pre lang_flag sources ≡ pre ++ add_sources [] lang_flag sources
  unfolding add_sources
  add_sources-append pre sources = sources_loop-append true pre sources

  module _ (is_x : is_flag lang_flag ≡ true) where
    -- a source that is no assembly
    read_inputs-other :
        (b : Bool) (current s : String) (tail : List String)
        → (b ≡ false → current ≡ lang_flag)
        → is_flag s ≡ false
        → read_inputs current ((if b then lang_flag ∷ s ∷ [] else s ∷ []) ++ tail)
          ≡ (s, lang_flag) ∷ read_inputs lang_flag tail
    unfolding read_inputs
    read_inputs-other true current s tail in_force plain = rw (is_x, plain)
    read_inputs-other false current s tail in_force plain = rw (plain, in_force refl)

    read_inputs-words :
        (b : Bool) (current s : String) (tail : List String)
        → (b ≡ false → current ≡ lang_flag)
        → is_flag s ≡ false
        → (flag : String) × ((is_assembly s ≡ false) → flag ≡ lang_flag)
          × (read_inputs current (words lang_flag b s ++ tail)
              ≡ expected lang_flag s ∷ read_inputs flag tail)
    unfolding words is_assembly read_inputs expected
    read_inputs-words b current s tail in_force plain = elim (Bool-cases (ends_with s ".S")) [
      | inl cpp ↦ ("-xassembler-with-cpp", (λ e. ground arith), rw (cpp, is_flag-cpp, plain))
      | inr not_cpp ↦ elim (Bool-cases (ends_with s ".s")) [
        | inl asm ↦
            ("-xassembler", (λ e. ground arith), rw (not_cpp, asm, is_flag-assembler, plain))
        | inr not_asm ↦ (
          lang_flag,
          (λ e. refl),
          rw (not_cpp, not_asm) (read_inputs-other b current s tail in_force plain),
        )
      ]
    ]

    read_inputs-loop :
        (b : Bool) (current : String) (sources : List String)
        → (b ≡ false → current ≡ lang_flag)
        → All (λ s. is_flag s ≡ false) sources
        → read_inputs current (sources_loop lang_flag b [] sources)
          ≡ map (expected lang_flag) sources
    read_inputs-loop b current [] in_force plain = unfold sources_loop read_inputs in refl
    read_inputs-loop b current (s ∷ rest) in_force (plain, more) =
        let tail = sources_loop lang_flag (is_assembly s) [] rest in
        let (flag, next_in_force, reads) = read_inputs-words b current s tail in_force plain in
        rw (
          sources_loop-words b [] s rest,
          sources_loop-append (is_assembly s) (words lang_flag b s) rest,
          reads,
          read_inputs-loop (is_assembly s) flag rest next_in_force more,
        )

    -- Read as gcc reads it, the command line that `add_sources` writes names every source once, in
    -- the given order, under the assembler for `.S` (with the preprocessor) and `.s`, and under the
    -- given language for every other file; no source may begin with `-x`, and the flag of the
    -- language must. What stood on the command line before stays in front.
    pub read_inputs-add_sources :
        (pre : List String) (current : String) (sources : List String)
        → All (λ s. is_flag s ≡ false) sources
        → (written : List String) × (add_sources pre lang_flag sources ≡ pre ++ written)
          × (read_inputs current written ≡ map (expected lang_flag) sources)
    unfolding add_sources
    read_inputs-add_sources pre current sources plain = (
      add_sources [] lang_flag sources,
      add_sources-append pre sources,
      read_inputs-loop true current sources (λ e. cc) plain,
    )
