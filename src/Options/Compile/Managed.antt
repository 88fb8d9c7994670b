-- ===== src/Options/Compile/Managed.antt =====
-- The branches of `JailOptions::new` for the compilers of byte code and the syntax checkers.
use eval_python.Prelude.{
  String, Option, none, some, List, [], ◌∷◌, Outcome, ok, ok_or, ◌>>=◌, format, join, parent,
}
use eval_python.Options.Types.{
  Draft, Place, bind_rdonly, push_mount, extend_args, set_profile, node_extra_memory_size_in_bytes,
  node_vm_memory_size_in_bytes,
}

-- `lang_flag` is `--language=java` or `--language=kotlin`
unfoldable pub compile_java : Place → String → String → List String → Draft → Draft
compile_java place lang_flag compile_target compile_sources d = extend_args compile_sources (
    extend_args ("/var/lib/omegajail/bin/java-compile" ∷ lang_flag ∷ compile_target ∷ []) (
      push_mount (bind_rdonly (join place.root "bin") (join place.rootfs "var/lib/omegajail/bin")) (
        push_mount (bind_rdonly (join place.root "root-java") (join place.rootfs "usr/lib/jvm"))
          (set_profile "javac" d))))

unfoldable pub compile_python2 : Place → List String → Draft → Draft
compile_python2 place compile_sources d = extend_args compile_sources (
    extend_args ("/usr/bin/python2.7" ∷ "-m" ∷ "py_compile" ∷ []) (
      push_mount
        (bind_rdonly (join place.root "root-python2") (join place.rootfs "usr/lib/python2.7"))
        (set_profile "pyc" d)))

unfoldable pub compile_python3 : Place → List String → Draft → Draft
compile_python3 place compile_sources d = extend_args compile_sources (
    extend_args ("/usr/bin/python3.9" ∷ "-m" ∷ "py_compile" ∷ []) (
      push_mount (bind_rdonly (join place.root "root-python3") (join place.rootfs "opt/python3"))
        (set_profile "pyc" d)))

unfoldable pub compile_ruby : Place → List String → Draft → Draft
compile_ruby place compile_sources d = extend_args compile_sources (
    extend_args ("/usr/bin/ruby" ∷ "-wc" ∷ []) (
      push_mount (bind_rdonly (join place.root "root-ruby") (join place.rootfs "usr/lib/ruby"))
        (set_profile "ruby" d)))

-- what the branches that use node share
abbrev pub with_node_memory : Draft → Draft
with_node_memory d = record d {
  extra_memory_size_in_bytes = node_extra_memory_size_in_bytes;
  vm_memory_size_in_bytes = node_vm_memory_size_in_bytes;
}

unfoldable pub compile_javascript : Place → List String → Draft → Draft
compile_javascript place compile_sources d = extend_args compile_sources (
    extend_args ("/opt/nodejs/bin/node" ∷ "--check" ∷ []) (
      push_mount (bind_rdonly (join place.root "root-js") (join place.rootfs "opt/nodejs"))
        (with_node_memory (set_profile "js" d))))

-- `dialect` is `java` or `pascal`
unfoldable pub compile_karel : Place → String → String → List String → Draft → Draft
compile_karel place dialect compile_target compile_sources d = extend_args compile_sources (
    extend_args
      ("/opt/nodejs/bin/node"
        ∷ "/opt/nodejs/karel.js"
        ∷ "compile"
        ∷ dialect
        ∷ "-o"
        ∷ format (compile_target ∷ ".kx" ∷ [])
        ∷ [])
      (push_mount (bind_rdonly (join place.root "root-js") (join place.rootfs "opt/nodejs"))
        (with_node_memory (set_profile "js" d))))

abbrev first : List String → Option String
first [] = none
first (s ∷ rest) = some s

-- the path behind `-out:`, next to the first source
unfoldable pub csharp_output : String → List String → Outcome String
csharp_output compile_target compile_sources = do
  source ← ok_or (first compile_sources) "empty --compile-source"
  directory ← ok_or (parent source) "invalid --compile-source"
  ok (format (join directory compile_target ∷ ".dll" ∷ []))

unfoldable pub compile_csharp : Place → String → List String → Draft → Outcome Draft
compile_csharp place compile_target compile_sources d = do
  output ← csharp_output compile_target compile_sources
  ok (
      extend_args compile_sources (
        extend_args
          ("/usr/share/dotnet/dotnet"
            ∷ "/usr/share/dotnet/sdk/6.0.101/Roslyn/bincore/csc.dll"
            ∷ "-noconfig"
            ∷ "@/usr/share/dotnet/Release.rsp"
            ∷ format ("-out:" ∷ output ∷ [])
            ∷ "-target:exe"
            ∷ [])
          (push_mount
            (bind_rdonly (join place.root "root-dotnet") (join place.rootfs "usr/share/dotnet"))
            (set_profile "csc" d))))
