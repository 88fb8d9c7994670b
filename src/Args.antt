-- ===== src/Args.antt =====
-- src/args.rs: the languages and the arguments of the jail.
use eval_python.Prelude.{ℕ, String, Bool, Option, List}

pub data Language : Type 0 where
  c c11_gcc c11_clang : Language
  cpp cpp03_gcc cpp03_clang cpp11 cpp11_gcc cpp11_clang : Language
  cpp17_gcc cpp17_clang cpp20_gcc cpp20_clang : Language
  pascal lua haskell java kotlin : Language
  python python2 python3 ruby csharp rust go javascript : Language
  karel_java karel_pascal : Language

pub record Args : Type 0 where
  pub root : String
  pub compile : Option Language
  pub compile_source : Option (List String)
  pub compile_target : String
  pub run : Option Language
  pub run_target : String
  pub homedir : String
  pub homedir_writable : Bool
  pub stdin : Option String
  pub stdout : Option String
  pub stderr : Option String
  pub meta : Option String
  pub time_limit : Option ℕ
  pub extra_wall_time_limit : ℕ
  pub output_limit : Option ℕ
  pub memory_limit : Option ℕ
  pub cgroup_path : String
  pub disable_sandboxing : Bool
  pub bind : List String
  pub allow_sigsys_fallback : Bool
  pub extra_args : List String
