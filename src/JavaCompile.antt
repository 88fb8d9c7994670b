-- ===== src/JavaCompile.antt =====
-- src/java_compile.rs: a compiler of Java or Kotlin, and then the ahead-of-time compiler.

use Prim.Native.Char.{Char}
use eval_python.Prelude.{
  Bool, true, false, String, Option, none, some, List, [], ◌∷◌, ◌++◌, map, Outcome, ok, err,
  panicked, bail, Io, attempt, format, if◌then◌else◌, str_eq,
}
use eval_python.Prelude.Traced.{Traced, ◌>>=◌, ◌>>◌, pure, call, lift, context}
use eval_python.Options.New.{cstrings}
pub mod Trimmed
pub mod Compiled

-- a character in front of what is left
abbrev pub cons_to : Char → Option String → Option String
cons_to c none = none
cons_to c (some s) = some (String.◌∷◌ c s)

-- `s.strip_suffix(suffix)`
unfoldable pub strip_suffix : String → String → Option String
strip_suffix String.[] suffix = if str_eq "" suffix then some "" else none
strip_suffix (String.◌∷◌ c s) suffix =
    if str_eq (String.◌∷◌ c s) suffix then some "" else cons_to c (strip_suffix s suffix)

abbrev pub unwrap_or : Option String → String → String
unwrap_or none other = other
unwrap_or (some s) other = s

unfoldable pub trim_extension : String → String → String
unfolding strip_suffix
trim_extension filename extension = unwrap_or (strip_suffix filename extension) filename

pub data Language : Type 0 where
  java kotlin : Language

pub record Args : Type 0 where
  pub language : Language
  pub target : String
  pub sources : List String

-- `vec!` of the `match` on the language
abbrev pub compiler_command : Language → List String
compiler_command java = "/usr/bin/javac" ∷ "-J-Xmx896M" ∷ "-J-Xms32M" ∷ []
compiler_command kotlin =
    "/usr/bin/java" ∷ "-Xmx896M" ∷ "-Xms32M" ∷ "-Xshare:on" ∷ "-XX:+UseSerialGC"
    ∷ "-XX:+UnlockExperimentalVMOptions" ∷ "-XX:AOTLibrary=/usr/lib/jvm/java.base.so" ∷ "-cp"
    ∷ "/usr/lib/jvm/kotlinc/lib/kotlin-preloader.jar" ∷ "org.jetbrains.kotlin.preloading.Preloader"
    ∷ "-cp" ∷ "/usr/lib/jvm/kotlinc/lib/kotlin-compiler.jar"
    ∷ "org.jetbrains.kotlin.cli.jvm.K2JVMCompiler" ∷ []

abbrev pub jaotc_command : String → List String
jaotc_command target =
    "/usr/bin/jaotc"
    ∷ "-J-Xmx512M"
    ∷ "-J-XX:+UseSerialGC"
    ∷ "-J-Xshare:on"
    ∷ "--output"
    ∷ format (target ∷ ".so" ∷ [])
    ∷ []

abbrev pub jaotc_options : Language → List String
jaotc_options java = []
jaotc_options kotlin =
    "-J-XX:+UnlockExperimentalVMOptions"
    ∷ "-J-XX:AOTLibrary=/usr/lib/jvm/java.base.so,/usr/lib/jvm/kotlin-stdlib.jar.so" ∷ []

unfoldable pub class_of : Language → String → String
unfolding trim_extension
class_of java source = format (trim_extension source ".java" ∷ ".class" ∷ [])
class_of kotlin source = format (trim_extension source ".kt" ∷ "Kt.class" ∷ [])

unfoldable pub compiler_args : Args → List String
compiler_args args = compiler_command args.language ++ ("-d" ∷ "." ∷ args.sources)

unfoldable pub jaotc_args : Args → List String
unfolding class_of
jaotc_args args =
    jaotc_command args.target
    ++ (jaotc_options args.language ++ map (class_of args.language) args.sources)

pub data CompileCall : Type 0 where
  -- a program that runs as a child, with its arguments
  run_program : String → List String → CompileCall
  -- the program, its arguments and its environment
  execve : String → List String → List String → CompileCall

-- the exit status of a child: whether it is a success, and its `{:?}`
pub record ExitStatus : Type 0 where
  pub success : Bool
  pub text : String

-- `vars` are the texts `KEY=VALUE` of the environment, `debug` is `{:?}` of texts.
pub record CompileKernel : Type 0 where
  pub status : String → List String → Io ExitStatus
  pub vars : List String
  pub executed : String → List String → List String → Io (Unit {0})
  pub debug : List String → String

-- `r.unwrap()`
unfoldable pub unwrap : Outcome (List String) → Outcome (List String)
unwrap (ok cs) = ok cs
unwrap (err e) = panicked
unwrap panicked = panicked

-- `CString::new(s).unwrap()` of each text
unfoldable pub unwrap_cstrings : List String → Outcome (List String)
unfolding unwrap
unwrap_cstrings ss = unwrap (cstrings ss)

module _ (kernel : CompileKernel) where
  unfoldable pub check_status : List String → ExitStatus → Outcome (Unit {0})
  check_status command status =
      if status.success
      then ok tt
      else bail (format ("execve(" ∷ kernel.debug command ∷ ") failed: " ∷ status.text ∷ []))

  -- an empty list has no program to run, and is indexed in the source
  unfoldable pub run_compiler : List String → Traced CompileCall (Unit {0})
  unfolding check_status
  run_compiler [] = lift panicked
  run_compiler (program ∷ rest) =
      context (format ("execve(" ∷ kernel.debug (program ∷ rest) ∷ ")" ∷ []))
        (call (run_program program rest) (attempt (kernel.status program rest)))
      >>= λ status. lift (check_status (program ∷ rest) status)

  unfoldable pub execute_jaotc : List String → List String → Traced CompileCall (Unit {0})
  execute_jaotc [] environ = lift panicked
  execute_jaotc (program ∷ rest) environ =
      context
        (format
          ("execve(" ∷ kernel.debug (program ∷ rest) ∷ ", " ∷ kernel.debug environ ∷ ")" ∷ []))
        (call (execve program (program ∷ rest) environ)
          (attempt (kernel.executed program (program ∷ rest) environ)))

  unfoldable pub main : Args → Traced CompileCall (Unit {0})
  unfolding compiler_args jaotc_args run_compiler unwrap_cstrings execute_jaotc
  main args =
      run_compiler (compiler_args args)
      >> (lift (unwrap_cstrings kernel.vars) >>= λ environ.
          lift (unwrap_cstrings (jaotc_args args)) >>= λ checked. execute_jaotc checked environ)
