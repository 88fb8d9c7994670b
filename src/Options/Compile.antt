-- ===== src/Options/Compile.antt =====
-- The branches of `JailOptions::new` in src/jail/options.rs that compile, one function for each
-- branch of the `match`, and the `match` itself.
mod Native
mod Managed
unfoldable pub use Native.*
unfoldable pub use Managed.*
use eval_python.Prelude.{String, List, [], ◌∷◌, Outcome, ok}
use eval_python.Args.{Language}
use eval_python.Options.Types.{Draft, Place}

-- the `match` on the language to compile
unfoldable pub compile_language : Place → Language → String → List String → Draft → Outcome Draft
compile_language place Language.c target sources d =
    ok (compile_c_family "gcc" "/usr/bin/gcc-10" ("-std=c11" ∷ "-O2" ∷ []) "-xc" target sources d)
compile_language place Language.c11_gcc target sources d =
    ok (compile_c_family "gcc" "/usr/bin/gcc-10" ("-std=c11" ∷ "-O2" ∷ []) "-xc" target sources d)
compile_language place Language.c11_clang target sources d = ok (
    compile_c_family "clang" "/usr/bin/clang-10" ("-std=c11" ∷ "-O3" ∷ "-march=native" ∷ []) "-xc"
      target sources d)
compile_language place Language.cpp03_gcc target sources d =
    ok (
      compile_c_family "gcc" "/usr/bin/g++-10" ("-std=c++03" ∷ "-O2" ∷ []) "-xc++" target sources d)
compile_language place Language.cpp03_clang target sources d = ok (
    compile_c_family "clang" "/usr/bin/clang++-10" ("-std=c++03" ∷ "-O2" ∷ []) "-xc++" target
      sources d)
compile_language place Language.cpp target sources d =
    ok (
      compile_c_family "gcc" "/usr/bin/g++-10" ("-std=c++11" ∷ "-O2" ∷ []) "-xc++" target sources d)
compile_language place Language.cpp11 target sources d =
    ok (
      compile_c_family "gcc" "/usr/bin/g++-10" ("-std=c++11" ∷ "-O2" ∷ []) "-xc++" target sources d)
compile_language place Language.cpp11_gcc target sources d =
    ok (
      compile_c_family "gcc" "/usr/bin/g++-10" ("-std=c++11" ∷ "-O2" ∷ []) "-xc++" target sources d)
compile_language place Language.cpp11_clang target sources d = ok (
    compile_c_family "clang" "/usr/bin/clang++-10" ("-std=c++11" ∷ "-O2" ∷ []) "-xc++" target
      sources d)
compile_language place Language.cpp17_gcc target sources d =
    ok (
      compile_c_family "gcc" "/usr/bin/g++-10" ("-std=c++17" ∷ "-O2" ∷ []) "-xc++" target sources d)
compile_language place Language.cpp17_clang target sources d = ok (
    compile_c_family "clang" "/usr/bin/clang++-10" ("-std=c++17" ∷ "-O2" ∷ []) "-xc++" target
      sources d)
compile_language place Language.cpp20_gcc target sources d =
    ok (
      compile_c_family "gcc" "/usr/bin/g++-10" ("-std=c++20" ∷ "-O2" ∷ []) "-xc++" target sources d)
compile_language place Language.cpp20_clang target sources d = ok (
    compile_c_family "clang" "/usr/bin/clang++-10" ("-std=c++20" ∷ "-O2" ∷ []) "-xc++" target
      sources d)
compile_language place Language.pascal target sources d = ok (compile_pascal target sources d)
compile_language place Language.lua target sources d = ok (compile_lua target sources d)
compile_language place Language.haskell target sources d =
    ok (compile_haskell place target sources d)
compile_language place Language.java target sources d =
    ok (compile_java place "--language=java" target sources d)
compile_language place Language.kotlin target sources d =
    ok (compile_java place "--language=kotlin" target sources d)
compile_language place Language.python2 target sources d = ok (compile_python2 place sources d)
compile_language place Language.python target sources d = ok (compile_python3 place sources d)
compile_language place Language.python3 target sources d = ok (compile_python3 place sources d)
compile_language place Language.ruby target sources d = ok (compile_ruby place sources d)
compile_language place Language.rust target sources d = ok (compile_rust place target sources d)
compile_language place Language.go target sources d = ok (compile_go place target sources d)
compile_language place Language.javascript target sources d =
    ok (compile_javascript place sources d)
compile_language place Language.karel_java target sources d =
    ok (compile_karel place "java" target sources d)
compile_language place Language.karel_pascal target sources d =
    ok (compile_karel place "pascal" target sources d)
compile_language place Language.csharp target sources d = compile_csharp place target sources d
