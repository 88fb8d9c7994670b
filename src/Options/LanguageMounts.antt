-- ===== src/Options/LanguageMounts.antt =====
-- The mounts that the branches for the languages add are bind mounts that ask for read-only, below the
-- root of the jail.
use eval_python.Prelude.{
  ℕ, String, Option, some, none, ok_or, List, refl, All, All-append, OkHolds, OkHolds->>=,
  is_absolute, climbs, IsBelow, join,
}
use eval_python.Args.{Language, Args}
use eval_python.Options.New.{dispatch, choose_command}
use eval_python.Options.Types.{MountArgs, Draft, Place, bind_rdonly, push_mount}
use eval_python.Options.Compile.{
  csharp_output, compile_language, compile_c_family, compile_csharp, compile_go, compile_haskell,
  compile_java, compile_javascript, compile_karel, compile_lua, compile_pascal, compile_python2,
  compile_python3, compile_ruby, compile_rust,
}
use eval_python.Options.Run.{
  run_language, run_native, run_lua, run_haskell, run_java, run_python2, run_python3, run_ruby,
  run_go, run_javascript, run_karel, run_csharp,
}

module _ (P : MountArgs → Type 0) (place : Place)
    (holds : (source relative : String)
      → IsBelow relative
      → P (bind_rdonly source (join place.rootfs relative))) where
  one_more :
      (d : Draft) (source relative : String)
      → IsBelow relative
      → All P d.mounts
      → All P (push_mount (bind_rdonly source (join place.rootfs relative)) d).mounts
  one_more d source relative r h = All-append P d.mounts _ h (holds source relative r, tt)

  compile_language-mounts :
      (lang : Language) (target : String) (sources : List String) (d : Draft)
      → All P d.mounts
      → OkHolds (λ d'. All P d'.mounts) (compile_language place lang target sources d)
  unfolding compile_language compile_c_family compile_csharp compile_go compile_haskell compile_java
      compile_javascript compile_karel compile_lua compile_pascal compile_python2 compile_python3
      compile_ruby compile_rust is_absolute climbs
  compile_language-mounts Language.c target sources d h = h
  compile_language-mounts Language.c11_gcc target sources d h = h
  compile_language-mounts Language.c11_clang target sources d h = h
  compile_language-mounts Language.cpp target sources d h = h
  compile_language-mounts Language.cpp03_gcc target sources d h = h
  compile_language-mounts Language.cpp03_clang target sources d h = h
  compile_language-mounts Language.cpp11 target sources d h = h
  compile_language-mounts Language.cpp11_gcc target sources d h = h
  compile_language-mounts Language.cpp11_clang target sources d h = h
  compile_language-mounts Language.cpp17_gcc target sources d h = h
  compile_language-mounts Language.cpp17_clang target sources d h = h
  compile_language-mounts Language.cpp20_gcc target sources d h = h
  compile_language-mounts Language.cpp20_clang target sources d h = h
  compile_language-mounts Language.pascal target sources d h = h
  compile_language-mounts Language.lua target sources d h = h
  compile_language-mounts Language.java target sources d h =
      one_more
        (push_mount (bind_rdonly (join place.root "root-java") (join place.rootfs "usr/lib/jvm")) d)
        _ "var/lib/omegajail/bin" (refl, refl) (one_more d _ "usr/lib/jvm" (refl, refl) h)
  compile_language-mounts Language.kotlin target sources d h =
      one_more
        (push_mount (bind_rdonly (join place.root "root-java") (join place.rootfs "usr/lib/jvm")) d)
        _ "var/lib/omegajail/bin" (refl, refl) (one_more d _ "usr/lib/jvm" (refl, refl) h)
  compile_language-mounts Language.haskell target sources d h =
      one_more d _ "usr/lib/ghc" (refl, refl) h
  compile_language-mounts Language.python target sources d h =
      one_more d _ "opt/python3" (refl, refl) h
  compile_language-mounts Language.python2 target sources d h =
      one_more d _ "usr/lib/python2.7" (refl, refl) h
  compile_language-mounts Language.python3 target sources d h =
      one_more d _ "opt/python3" (refl, refl) h
  compile_language-mounts Language.ruby target sources d h =
      one_more d _ "usr/lib/ruby" (refl, refl) h
  compile_language-mounts Language.rust target sources d h = one_more d _ "opt/rust" (refl, refl) h
  compile_language-mounts Language.go target sources d h = one_more d _ "opt/go" (refl, refl) h
  compile_language-mounts Language.javascript target sources d h =
      one_more d _ "opt/nodejs" (refl, refl) h
  compile_language-mounts Language.karel_java target sources d h =
      one_more d _ "opt/nodejs" (refl, refl) h
  compile_language-mounts Language.karel_pascal target sources d h =
      one_more d _ "opt/nodejs" (refl, refl) h
  compile_language-mounts Language.csharp target sources d h =
      OkHolds->>= (λ d'. All P d'.mounts) (csharp_output target sources) _
        λ output _. one_more d _ "usr/share/dotnet" (refl, refl) h

  run_language-mounts :
      (lang : Language) (target : String) (memory_limit : Option ℕ) (d : Draft)
      → All P d.mounts
      → All P (run_language place lang target memory_limit d).mounts
  unfolding run_language run_native run_lua run_haskell run_java run_python2 run_python3 run_ruby
      run_go run_javascript run_karel run_csharp is_absolute climbs
  run_language-mounts Language.c target limit d h = h
  run_language-mounts Language.c11_gcc target limit d h = h
  run_language-mounts Language.c11_clang target limit d h = h
  run_language-mounts Language.cpp target limit d h = h
  run_language-mounts Language.cpp03_gcc target limit d h = h
  run_language-mounts Language.cpp03_clang target limit d h = h
  run_language-mounts Language.cpp11 target limit d h = h
  run_language-mounts Language.cpp11_gcc target limit d h = h
  run_language-mounts Language.cpp11_clang target limit d h = h
  run_language-mounts Language.cpp17_gcc target limit d h = h
  run_language-mounts Language.cpp17_clang target limit d h = h
  run_language-mounts Language.cpp20_gcc target limit d h = h
  run_language-mounts Language.cpp20_clang target limit d h = h
  run_language-mounts Language.pascal target limit d h = h
  run_language-mounts Language.lua target limit d h = h
  run_language-mounts Language.rust target limit d h = h
  run_language-mounts Language.go target limit d h = h
  run_language-mounts Language.haskell target limit d h = one_more d _ "usr/lib/ghc" (refl, refl) h
  run_language-mounts Language.java target limit d h = one_more d _ "usr/lib/jvm" (refl, refl) h
  run_language-mounts Language.kotlin target limit d h = one_more d _ "usr/lib/jvm" (refl, refl) h
  run_language-mounts Language.python target limit d h = one_more d _ "opt/python3" (refl, refl) h
  run_language-mounts Language.python2 target limit d h =
      one_more d _ "usr/lib/python2.7" (refl, refl) h
  run_language-mounts Language.python3 target limit d h = one_more d _ "opt/python3" (refl, refl) h
  run_language-mounts Language.ruby target limit d h = one_more d _ "usr/lib/ruby" (refl, refl) h
  run_language-mounts Language.csharp target limit d h =
      one_more d _ "usr/share/dotnet" (refl, refl) h
  run_language-mounts Language.javascript target limit d h =
      one_more d _ "opt/nodejs" (refl, refl) h
  run_language-mounts Language.karel_java target limit d h =
      one_more d _ "opt/nodejs" (refl, refl) h
  run_language-mounts Language.karel_pascal target limit d h =
      one_more d _ "opt/nodejs" (refl, refl) h

  dispatch-mounts :
      (args : Args) (compile run : Option Language) (d : Draft)
      → All P d.mounts
      → OkHolds (λ d'. All P d'.mounts) (dispatch place args compile run d)
  unfolding dispatch
  dispatch-mounts args (some lang) run d h =
      OkHolds->>= (λ d'. All P d'.mounts) (ok_or args.compile_source "--compile-source missing") _
        λ sources _. compile_language-mounts lang args.compile_target sources d h
  dispatch-mounts args none (some lang) d h =
      run_language-mounts lang args.run_target args.memory_limit d h
  dispatch-mounts args none none d h = h

  pub choose_command-mounts :
      (args : Args) (d : Draft)
      → All P d.mounts
      → OkHolds (λ d'. All P d'.mounts) (choose_command place args d)
  unfolding choose_command
  choose_command-mounts args d h = dispatch-mounts args args.compile args.run d h
