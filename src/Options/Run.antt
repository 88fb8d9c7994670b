-- ===== src/Options/Run.antt =====
-- The branches of `JailOptions::new` in src/jail/options.rs that run a program, one function for each
-- branch of the `match`, and the `match` itself.
use eval_python.Prelude.{
  ℕ, ◌+◌, ◌%◌, ◌^◌, ◌-◌, String, true, Option, none, some, List, [], ◌∷◌, ◌++◌, format, display,
  join,
}
use eval_python.Args.{Language}
use eval_python.Options.Types.{
  Draft, Place, bind_rdonly, push_mount, extend_args, set_profile, java_min_heap_size_in_bytes,
  java_vm_memory_size_in_bytes, ruby_extra_memory_size_in_bytes, ruby_vm_memory_size_in_bytes,
  go_extra_memory_size_in_bytes, clr_vm_memory_size_in_bytes,
}
use eval_python.Options.Compile.{with_node_memory}

-- `u64::MAX`
abbrev pub u64_max : ℕ
u64_max = 2 ^ 64 - 1

-- the branches that start the compiled program itself
unfoldable pub run_native : String → String → Draft → Draft
run_native profile run_target d =
    extend_args (format ("./" ∷ run_target ∷ []) ∷ []) (set_profile profile d)

unfoldable pub run_lua : String → Draft → Draft
run_lua run_target d =
    extend_args ("/usr/bin/lua5.3" ∷ format ("./" ∷ run_target ∷ []) ∷ []) (set_profile "lua" d)

unfoldable pub run_haskell : Place → String → Draft → Draft
run_haskell place run_target d = extend_args (format ("./" ∷ run_target ∷ []) ∷ []) (
    push_mount (bind_rdonly (join place.root "root-hs") (join place.rootfs "usr/lib/ghc"))
      (set_profile "hs" d))

-- the heap of the virtual machine; the sum is that of a release build, which wraps
abbrev java_heap : Option ℕ → List String
java_heap none = []
java_heap (some memory_limit) =
    format ("-Xmx" ∷ display ((memory_limit + java_min_heap_size_in_bytes) % 2 ^ 64) ∷ []) ∷ []

abbrev pub java_program : String → List String
java_program run_target =
    format ("-XX:AOTLibrary=/usr/lib/jvm/java.base.so,./" ∷ run_target ∷ ".so" ∷ [])
    ∷ run_target
    ∷ []

abbrev pub kotlin_program : String → List String
kotlin_program run_target =
    format (
      "-XX:AOTLibrary=/usr/lib/jvm/java.base.so,/usr/lib/jvm/kotlin-stdlib.jar.so,./" ∷ run_target
      ∷ ".so" ∷ [])
    ∷ "-cp"
    ∷ "/usr/lib/jvm/kotlinc/lib/kotlin-stdlib.jar:."
    ∷ format (run_target ∷ "Kt" ∷ [])
    ∷ []

-- `program` is what the two languages add behind the options of the virtual machine
unfoldable pub run_java : Place → Option ℕ → List String → Draft → Draft
run_java place memory_limit program d =
    let started =
      extend_args
        ("/usr/bin/java" ∷ "-Xshare:on" ∷ "-XX:+UnlockExperimentalVMOptions" ∷ "-XX:+UseSerialGC"
          ∷ [])
        (push_mount (bind_rdonly (join place.root "root-java") (join place.rootfs "usr/lib/jvm")) (
          set_profile "java" (record d {
            vm_memory_size_in_bytes = java_vm_memory_size_in_bytes;
            extra_memory_size_in_bytes = u64_max;
          }))) in
    extend_args program (extend_args (java_heap memory_limit) started)

unfoldable pub run_python2 : Place → String → Draft → Draft
run_python2 place run_target d =
    extend_args ("/usr/bin/python2.7" ∷ format (run_target ∷ ".py" ∷ []) ∷ []) (
      push_mount
        (bind_rdonly (join place.root "root-python2") (join place.rootfs "usr/lib/python2.7"))
        (set_profile "py" d))

unfoldable pub run_python3 : Place → String → Draft → Draft
run_python3 place run_target d =
    extend_args ("/usr/bin/python3.9" ∷ format (run_target ∷ ".py" ∷ []) ∷ []) (
      push_mount (bind_rdonly (join place.root "root-python3") (join place.rootfs "opt/python3"))
        (set_profile "py" d))

unfoldable pub run_ruby : Place → String → Draft → Draft
run_ruby place run_target d =
    extend_args ("/usr/bin/ruby" ∷ format (run_target ∷ ".rb" ∷ []) ∷ []) (
      push_mount (bind_rdonly (join place.root "root-ruby") (join place.rootfs "usr/lib/ruby")) (
        set_profile "ruby" (record d {
          extra_memory_size_in_bytes = ruby_extra_memory_size_in_bytes;
          vm_memory_size_in_bytes = ruby_vm_memory_size_in_bytes;
        })))

unfoldable pub run_go : String → Draft → Draft
run_go run_target d =
    extend_args (format ("./" ∷ run_target ∷ []) ∷ [])
      (set_profile "go" (record d { extra_memory_size_in_bytes = go_extra_memory_size_in_bytes }))

unfoldable pub run_javascript : Place → String → Draft → Draft
run_javascript place run_target d =
    extend_args ("/opt/nodejs/bin/node" ∷ "--jitless" ∷ format (run_target ∷ ".js" ∷ []) ∷ []) (
      push_mount (bind_rdonly (join place.root "root-js") (join place.rootfs "opt/nodejs"))
        (with_node_memory (set_profile "js" d)))

unfoldable pub run_karel : Place → String → Draft → Draft
run_karel place run_target d =
    extend_args ("/opt/nodejs/karel.wasm" ∷ format (run_target ∷ ".kx" ∷ []) ∷ []) (
      push_mount (bind_rdonly (join place.root "root-js") (join place.rootfs "opt/nodejs"))
        (set_profile "karel" d))

unfoldable pub run_csharp : Place → String → Draft → Draft
run_csharp place run_target d =
    let started =
      extend_args ("/usr/share/dotnet/dotnet" ∷ format (run_target ∷ ".dll" ∷ []) ∷ []) (
        push_mount
          (bind_rdonly (join place.root "root-dotnet") (join place.rootfs "usr/share/dotnet"))
          (set_profile "cs" (record d {
            extra_memory_size_in_bytes = clr_vm_memory_size_in_bytes;
            use_cgroups_for_memory_limit = true;
            vm_memory_size_in_bytes = clr_vm_memory_size_in_bytes;
          }))) in
    record started { env = started.env ++ "DOTNET_CLI_TELEMETRY_OPTOUT=1" ∷ [] }

-- the `match` on the language to run
unfoldable pub run_language : Place → Language → String → Option ℕ → Draft → Draft
run_language place Language.c target memory_limit d = run_native "cpp" target d
run_language place Language.cpp target memory_limit d = run_native "cpp" target d
run_language place Language.c11_gcc target memory_limit d = run_native "cpp" target d
run_language place Language.c11_clang target memory_limit d = run_native "cpp" target d
run_language place Language.cpp03_gcc target memory_limit d = run_native "cpp" target d
run_language place Language.cpp03_clang target memory_limit d = run_native "cpp" target d
run_language place Language.cpp11 target memory_limit d = run_native "cpp" target d
run_language place Language.cpp11_gcc target memory_limit d = run_native "cpp" target d
run_language place Language.cpp11_clang target memory_limit d = run_native "cpp" target d
run_language place Language.cpp17_gcc target memory_limit d = run_native "cpp" target d
run_language place Language.cpp17_clang target memory_limit d = run_native "cpp" target d
run_language place Language.cpp20_gcc target memory_limit d = run_native "cpp" target d
run_language place Language.cpp20_clang target memory_limit d = run_native "cpp" target d
run_language place Language.pascal target memory_limit d = run_native "pas" target d
run_language place Language.lua target memory_limit d = run_lua target d
run_language place Language.haskell target memory_limit d = run_haskell place target d
run_language place Language.java target memory_limit d =
    run_java place memory_limit (java_program target) d
run_language place Language.kotlin target memory_limit d =
    run_java place memory_limit (kotlin_program target) d
run_language place Language.python2 target memory_limit d = run_python2 place target d
run_language place Language.python target memory_limit d = run_python3 place target d
run_language place Language.python3 target memory_limit d = run_python3 place target d
run_language place Language.ruby target memory_limit d = run_ruby place target d
run_language place Language.rust target memory_limit d = run_native "rs" target d
run_language place Language.go target memory_limit d = run_go target d
run_language place Language.javascript target memory_limit d = run_javascript place target d
run_language place Language.karel_pascal target memory_limit d = run_karel place target d
run_language place Language.karel_java target memory_limit d = run_karel place target d
run_language place Language.csharp target memory_limit d = run_csharp place target d
