-- ===== src/Tests/JavaCompile.antt =====
-- Two Kotlin sources, compiled.
use eval_python.Prelude.{◌≡◌, refl, true, String, List, [], ◌∷◌, ◌++◌, map, done, format}
use eval_python.JavaCompile.{
  kotlin, Args, CompileCall, execve, CompileKernel, compiler_command, jaotc_command, jaotc_options,
  trim_extension, main,
}
use eval_python.JavaCompile.Compiled.{class_file, executes, IsCompiled, main-IsCompiled}

trim_extension_test : trim_extension "Main.java" ".java" ≡ "Main"
unfolding trim_extension
trim_extension_test = refl

trim_extension_other : trim_extension "Main.javac" ".java" ≡ "Main.javac"
unfolding trim_extension
trim_extension_other = refl

abbrev compiling : CompileKernel
compiling = record {
  status = λ program args. done (record { success = true; text = "exit status: 0" });
  vars = "PATH=/usr/bin" ∷ [];
  executed = λ program args environ. done tt;
  debug = format;
}

abbrev kotlin_args : Args
kotlin_args = record { language = kotlin; target = "Main"; sources = "Main.kt" ∷ "Util.kt" ∷ [] }

abbrev stems : List String
stems = "Main" ∷ "Util" ∷ []

jaotc_executed : executes (main compiling kotlin_args).0 ≡ true
unfolding main eval_python.Options.New.cstrings
jaotc_executed = refl

main-IsCompiled_example :
    (compiled : List CompileCall) × IsCompiled compiling
      (compiler_command kotlin ++ ("-d" ∷ "." ∷ "Main.kt" ∷ "Util.kt" ∷ []))
      compiled
    × ((main compiling kotlin_args).0
        ≡ compiled
          ++ execve "/usr/bin/jaotc"
              (jaotc_command "Main" ++ (jaotc_options kotlin ++ map (class_file kotlin) stems))
              ("PATH=/usr/bin" ∷ [])
            ∷ [])
main-IsCompiled_example = main-IsCompiled compiling kotlin_args stems refl jaotc_executed
