-- ===== src/Options/Sources.antt =====
-- `add_sources` of src/jail/options.rs.
use eval_python.Prelude.{String, Bool, true, false, List, [], ◌∷◌, ◌++◌, ends_with, if◌then◌else◌}

-- the loop, with the command line so far and `needs_flag`
unfoldable pub sources_loop : String → Bool → List String → List String → List String
sources_loop lang_flag needs_flag execve_args [] = execve_args
sources_loop lang_flag needs_flag execve_args (s ∷ rest) =
    let preprocessed =
      sources_loop lang_flag true (execve_args ++ "-xassembler-with-cpp" ∷ s ∷ []) rest in
    let plain = sources_loop lang_flag true (execve_args ++ "-xassembler" ∷ s ∷ []) rest in
    let switched = sources_loop lang_flag false ((execve_args ++ lang_flag ∷ []) ++ s ∷ []) rest in
    let same = sources_loop lang_flag false (execve_args ++ s ∷ []) rest in
    if ends_with s ".S"
    then preprocessed
    else if ends_with s ".s"
    then plain
    else if needs_flag
    then switched
    else same

unfoldable pub add_sources : List String → String → List String → List String
unfolding sources_loop
add_sources execve_args lang_flag compile_sources =
    sources_loop lang_flag true execve_args compile_sources
