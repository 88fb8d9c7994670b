-- ===== src/Options/Compile/Native.antt =====
-- The branches of `JailOptions::new` for the compilers that write a native program.
use eval_python.Prelude.{String, List, [], ◌∷◌, ◌++◌, format, join}
use eval_python.Options.Types.{Draft, Place, bind_rdonly, push_mount, extend_args, set_profile}
use eval_python.Options.Sources.{add_sources}

-- The branches for C and C++: they differ in the profile, the compiler, the options behind the
-- target and the flag of the language.
unfoldable pub compile_c_family :
    String → String → List String → String → String → List String → Draft → Draft
compile_c_family profile compiler options lang_flag compile_target compile_sources d =
    let d' =
      extend_args ((compiler ∷ "-o" ∷ compile_target ∷ []) ++ options) (set_profile profile d) in
    record d' { execve_args = add_sources d'.execve_args lang_flag compile_sources ++ "-lm" ∷ [] }

unfoldable pub compile_pascal : String → List String → Draft → Draft
compile_pascal compile_target compile_sources d = extend_args compile_sources (
    extend_args
      ("/usr/bin/fpc"
        ∷ "-Tlinux"
        ∷ "-O2"
        ∷ "-Mobjfpc"
        ∷ "-Sc"
        ∷ "-Sh"
        ∷ format ("-o" ∷ compile_target ∷ [])
        ∷ [])
      (set_profile "fpc" d))

unfoldable pub compile_lua : String → List String → Draft → Draft
compile_lua compile_target compile_sources d =
    extend_args compile_sources
      (extend_args ("/usr/bin/luac5.3" ∷ "-o" ∷ compile_target ∷ []) (set_profile "lua" d))

unfoldable pub compile_haskell : Place → String → List String → Draft → Draft
compile_haskell place compile_target compile_sources d = extend_args compile_sources (
    extend_args ("/usr/lib/ghc/bin/ghc" ∷ "-B/usr/lib/ghc" ∷ "-O2" ∷ "-o" ∷ compile_target ∷ []) (
      push_mount (bind_rdonly (join place.root "root-hs") (join place.rootfs "usr/lib/ghc"))
        (set_profile "ghc" d)))

unfoldable pub compile_rust : Place → String → List String → Draft → Draft
compile_rust place compile_target compile_sources d = extend_args compile_sources (
    extend_args ("/opt/rust/cargo/bin/rustc" ∷ "-O" ∷ "-o" ∷ compile_target ∷ []) (
      push_mount (bind_rdonly (join place.root "root-rust") (join place.rootfs "opt/rust"))
        (set_profile "rustc" d)))

unfoldable pub compile_go : Place → String → List String → Draft → Draft
compile_go place compile_target compile_sources d = extend_args compile_sources (
    extend_args ("/opt/go/bin/go" ∷ "build" ∷ "-o" ∷ compile_target ∷ []) (
      push_mount (bind_rdonly (join place.root "root-go") (join place.rootfs "opt/go"))
        (set_profile "go-build" d)))
