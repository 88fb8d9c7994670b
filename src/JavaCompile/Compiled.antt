-- ===== src/JavaCompile/Compiled.antt =====
-- When src/java_compile.rs compiles ahead of time, and what.
use Prim.Native.String.{◌++◌ as str_append}
use eval_python.Prelude.{
  ◌≡◌, refl, ap, ◌∙◌, Bool, true, false, ◌||◌, Bool-cases, String, List, [], ◌∷◌, ◌++◌, map,
  Outcome, ok, err, panicked, done, attempt, attempt-eq-ok, with_context-eq-ok, format, inl, inr,
}
use eval_python.Prelude.Traced.{Traced, ◌>>=◌, context, call, lift, >>=-eq-ok}
use eval_python.Options.New.{cstrings}
use eval_python.JavaCompile.{
  compiler_command, jaotc_command, jaotc_options, Language, java, kotlin, Args, compiler_args,
  jaotc_args, class_of, CompileCall, run_program, execve, ExitStatus, CompileKernel, unwrap,
  unwrap_cstrings, check_status, run_compiler, execute_jaotc, main,
}
use eval_python.Options.Limits.{cstrings_lem}
use eval_python.JavaCompile.Trimmed.{trim_extension-append}

-- the extension of the sources, and the end of the names of the classes
abbrev pub source_of : Language → String → String
source_of java stem = str_append stem ".java"
source_of kotlin stem = str_append stem ".kt"

abbrev pub class_file : Language → String → String
class_file java stem = format (stem ∷ ".class" ∷ [])
class_file kotlin stem = format (stem ∷ "Kt.class" ∷ [])

class_of-source_of :
    (language : Language) (stem : String)
    → class_of language (source_of language stem) ≡ class_file language stem
unfolding class_of
class_of-source_of java stem =
    ap (λ s. format (s ∷ ".class" ∷ [])) (trim_extension-append stem ".java")
class_of-source_of kotlin stem =
    ap (λ s. format (s ∷ "Kt.class" ∷ [])) (trim_extension-append stem ".kt")

-- For sources with the extension of their language, the ahead-of-time compiler is given the class file
-- of each source, in order.
classes_lem :
    (language : Language) (stems : List String)
    → map (class_of language) (map (source_of language) stems) ≡ map (class_file language) stems
classes_lem language [] = refl
classes_lem language (stem ∷ stems) =
    rw (class_of-source_of language stem, classes_lem language stems)

abbrev pub executes : List CompileCall → Bool
executes [] = false
executes (run_program program args ∷ calls) = executes calls
executes (execve program args environ ∷ calls) = true

executes-append : (xs ys : List CompileCall) → executes (xs ++ ys) ≡ (executes xs || executes ys)
executes-append [] ys = refl
executes-append (run_program program args ∷ xs) ys = executes-append xs ys
executes-append (execve program args environ ∷ xs) ys = refl

module _ {A : Type 0} where
  -- Where the program is executed behind a step that does not execute, the step has ended well.
  >>=-executes :
      (m : Traced CompileCall A) (f : A → Traced CompileCall (Unit {0}))
      → executes m.0 ≡ false
      → executes (m >>= f).0 ≡ true
      → (a : A) × (m.1 ≡ ok a) × (executes (f a).0 ≡ true) × ((m >>= f).0 ≡ m.0 ++ (f a).0)
  >>=-executes (own, ok a) f quiet h = (a, refl, rw (executes-append own (f a).0, quiet) at h, refl)
  >>=-executes (own, err e) f quiet h = cc
  >>=-executes (own, panicked) f quiet h = cc

  >>=-quiet :
      (m : Traced CompileCall A) (f : A → Traced CompileCall (Unit {0}))
      → executes m.0 ≡ false
      → ((a : A) → executes (f a).0 ≡ false)
      → executes (m >>= f).0 ≡ false
  >>=-quiet (own, ok a) f first next = rw (executes-append own (f a).0, first, next a)
  >>=-quiet (own, err e) f first next = first
  >>=-quiet (own, panicked) f first next = first

unwrap-eq-ok : (r : Outcome (List String)) {cs : List String} → unwrap r ≡ ok cs → r ≡ ok cs
unfolding unwrap
unwrap-eq-ok (ok cs) h = h
unwrap-eq-ok (err e) h = cc
unwrap-eq-ok panicked h = cc

unwrap_cstrings-eq-ok : (ss : List String) {cs : List String} → unwrap_cstrings ss ≡ ok cs → cs ≡ ss
unfolding unwrap_cstrings
unwrap_cstrings-eq-ok ss h = (cstrings_lem ss (unwrap-eq-ok (cstrings ss) h)).0

module _ (kernel : CompileKernel) where
  -- The compiler was run as a child, and ended with success.
  abbrev pub IsCompiled : List String → List CompileCall → Type 0
  IsCompiled command calls =
      (program : String) × (rest : List String) × (status : ExitStatus) × (command ≡ program ∷ rest)
      × (kernel.status program rest ≡ done status)
      × (status.success ≡ true)
      × (calls ≡ run_program program rest ∷ [])

  check_status-eq-ok :
      (command : List String) (status : ExitStatus)
      → check_status kernel command status ≡ ok tt
      → status.success ≡ true
  unfolding check_status
  check_status-eq-ok command status h = elim (Bool-cases status.success) [
    | inl good ↦ good
    | inr bad ↦ let h' = rw bad at h in cc
  ]

  run_compiler-IsCompiled :
      (command : List String)
      → (run_compiler kernel command).1 ≡ ok tt
      → IsCompiled command (run_compiler kernel command).0
  unfolding run_compiler
  run_compiler-IsCompiled [] h = cc
  run_compiler-IsCompiled (program ∷ rest) h =
      let text = format ("execve(" ∷ kernel.debug (program ∷ rest) ∷ ")" ∷ []) in
      let (status, called, checked, trace) =
        >>=-eq-ok
          (context text (call (run_program program rest) (attempt (kernel.status program rest))))
          (λ status. lift (check_status kernel (program ∷ rest) status)) h in
      (
        program,
        rest,
        status,
        refl,
        attempt-eq-ok _ (with_context-eq-ok text _ called),
        check_status-eq-ok (program ∷ rest) status checked,
        trace,
      )

  run_compiler-quiet : (command : List String) → executes (run_compiler kernel command).0 ≡ false
  unfolding run_compiler
  run_compiler-quiet [] = refl
  run_compiler-quiet (program ∷ rest) =
      let text = format ("execve(" ∷ kernel.debug (program ∷ rest) ∷ ")" ∷ []) in
      >>=-quiet
        (context text (call (run_program program rest) (attempt (kernel.status program rest))))
        (λ status. lift (check_status kernel (program ∷ rest) status)) refl (λ status. refl)

  -- If the program is executed that compiles ahead of time, then before it the compiler of the language
  -- was run, once, with the sources as they were given, and ended with success; and the program is
  -- given the class file of every source, in order. The sources have the extension of their language.
  pub main-IsCompiled :
      (args : Args) (stems : List String)
      → args.sources ≡ map (source_of args.language) stems
      → executes (main kernel args).0 ≡ true
      → (compiled : List CompileCall) × IsCompiled
          (compiler_command args.language ++ ("-d" ∷ "." ∷ args.sources))
          compiled
        × ((main kernel args).0
            ≡ compiled
              ++ execve "/usr/bin/jaotc"
                  (jaotc_command args.target
                    ++ (jaotc_options args.language ++ map (class_file args.language) stems))
                  kernel.vars
                ∷ [])
  unfolding main compiler_args jaotc_args execute_jaotc
  main-IsCompiled args stems same h =
      let (_, compiled_ok, h1, trace) =
        >>=-executes (run_compiler kernel (compiler_args args)) _
          (run_compiler-quiet (compiler_args args)) h in
      let (environ, environ_ok, h2, trace1) =
        >>=-executes (lift (unwrap_cstrings kernel.vars)) _ refl h1 in
      let (checked, checked_ok, h3, trace2) =
        >>=-executes (lift (unwrap_cstrings (jaotc_args args))) _ refl h2 in
      let same_environ = unwrap_cstrings-eq-ok kernel.vars environ_ok in
      let same_args = unwrap_cstrings-eq-ok (jaotc_args args) checked_ok in
      let files = ap (map (class_of args.language)) same ∙ classes_lem args.language stems in
      (
        (run_compiler kernel (compiler_args args)).0,
        run_compiler-IsCompiled (compiler_args args) compiled_ok,
        trace
            ∙ ap (◌++◌ (run_compiler kernel (compiler_args args)).0) (
                trace1
                ∙ trace2
                ∙ ap (λ e. (execute_jaotc kernel checked e).0) same_environ
                ∙ ap (λ c. (execute_jaotc kernel c kernel.vars).0) same_args
                ∙ ap
                    (λ cs.
                      execve "/usr/bin/jaotc"
                        (jaotc_command args.target ++ (jaotc_options args.language ++ cs))
                        kernel.vars
                      ∷ [])
                    files),
      )
